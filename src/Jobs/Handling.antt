-- ===== src/Jobs/Handling.antt =====
-- The run of a queue item (queue.py), and killing and restarting its job (job_service.py).
use py_syft.Prelude.{
  ℕ, Bool, true, false, not, Option, none, some, List, [], ◌∷◌, if◌then◌else◌, update,
}
use py_syft.Prelude.Result.{Result, ok, err}
use py_syft.Jobs.Status.{
  job_created, Status, processing, errored, completed, interrupted, JobStatus, job_processing,
  job_errored, job_completed, job_terminating, job_interrupted,
}

-- What the method returned, or the message of its exception.
pub data Reply : Type 0 where
  returned failed : ℕ → Reply

-- The parts of a `QueueItem` and of a `Job` that a run changes. `subjobs` are the ids of the jobs that
-- have the job for their parent.
pub record Item : Type 0 where
  pub status : Status
  pub resolved : Bool
  pub server_uid : Option ℕ
  pub result : Option Reply

pub record Job : Type 0 where
  pub status : JobStatus
  pub resolved : Bool
  pub server_uid : Option ℕ
  pub result : Option Reply
  pub job_worker_id : Option ℕ
  pub job_pid : Option ℕ
  pub parent_job_id : Option ℕ
  pub subjobs : List ℕ

pub data JobError : Type 0 where
  not_found not_running still_running is_subjob no_pid not_sent : JobError

-- The row of the item, and the rows of the jobs. The caller may write them.
pub record Tables : Type 0 where
  pub item : Option Item
  pub jobs : ℕ → Option Job

abbrev pub Done : Type 0
Done = Result JobError (Unit {0}) × Tables

abbrev pub then_do : Done → (Tables → Done) → Done
then_do (ok u, t) f = f t
then_do (err e, t) f = (err e, t)

-- `QueueStash.set_result`, which writes resolved items only.
abbrev pub write_item : Item → Option Item → Tables → Done
write_item q none t = (err not_found, t)
write_item q (some old) t = (ok tt, record t { item = some q })

unfoldable pub set_item : Item → Tables → Done
set_item q t = if q.resolved then write_item q t.item t else (ok tt, t)

-- `JobStash.set_result`, and `update`
abbrev pub write_job : ℕ → Job → Option Job → Tables → Done
write_job k j none t = (err not_found, t)
write_job k j (some old) t = (ok tt, record t { jobs = update t.jobs k (some j) })

unfoldable pub set_job : ℕ → Job → Tables → Done
set_job k j t = write_job k j (t.jobs k) t

-- `syft_worker_id`, where there is one.
abbrev pub worker_id : Option ℕ → Option ℕ → Option ℕ
worker_id none old = old
worker_id (some i) old = some i

unfoldable pub start_job : ℕ → Option ℕ → Item → ℕ → Option Job → Tables → Done
unfolding set_item set_job
start_job server worker q k none t = (err not_found, t)
start_job server worker q k (some j) t =
    then_do (set_item (record q { status = processing; server_uid = some server }) t) (
      set_job k (record j {
        status = job_processing;
        server_uid = some server;
        job_worker_id = worker_id worker j.job_worker_id;
      }))

-- `handle_message` up to the run of the method, for the item `q` of job `k`.
unfoldable pub start : ℕ → Option ℕ → Item → ℕ → Tables → Done
unfolding start_job
start server worker q k t = start_job server worker q k (t.jobs k) t

abbrev pub item_status : Reply → Status
item_status (returned v) = completed
item_status (failed m) = errored

abbrev pub job_status : Reply → JobStatus
job_status (returned v) = job_completed
job_status (failed m) = job_errored

unfoldable pub store_reply : ℕ → Item → ℕ → Reply → Option Job → Tables → Done
unfolding set_item set_job
store_reply server q k r none t = (err not_found, t)
store_reply server q k r (some j) t =
    then_do (set_item (record q { status = item_status r; resolved = true; result = some r }) t) (
      set_job k (record j {
        status = job_status r;
        resolved = true;
        server_uid = some server;
        result = some r;
      }))

-- `handle_message_multiprocessing` behind the call of the method; `sent` says whether the
-- notification of a failure is sent.
unfoldable pub finish_run : ℕ → Item → ℕ → Reply → Bool → Tables → Done
unfolding store_reply
finish_run server q k (returned v) sent t = store_reply server q k (returned v) (t.jobs k) t
finish_run server q k (failed m) sent t =
    if sent then store_reply server q k (failed m) (t.jobs k) t else (err not_sent, t)

-- `handle_message` of a synchronous consumer.
unfoldable pub handle_message : ℕ → Option ℕ → Item → ℕ → Reply → Bool → Tables → Done
unfolding start finish_run
handle_message server worker q k r sent t =
    then_do (start server worker q k t)
      (finish_run server (record q { status = processing; server_uid = some server }) k r sent)

-- `terminate` of the monitor; what `set_result` returns is not looked at.
abbrev pub interrupt : Job → Job
interrupt j = record j { resolved = true; status = job_interrupted }

abbrev pub change_job : (Job → Job) → ℕ → Option Job → Tables → Tables
change_job f k none t = t
change_job f k (some j) t = record t { jobs = update t.jobs k (some (f j)) }

unfoldable pub change_all : (Job → Job) → List ℕ → Tables → Tables
change_all f [] t = t
change_all f (k ∷ ks) t = change_all f ks (change_job f k (t.jobs k) t)

abbrev pub is_terminating : JobStatus → Bool
is_terminating job_terminating = true
is_terminating _ = false

unfoldable pub monitor_job : Item → ℕ → Option Job → Tables → Done
unfolding change_all set_item
monitor_job q k none t = (err not_found, t)
monitor_job q k (some j) t =
    if is_terminating j.status
    then (
      ok tt,
      (set_item (record q { status = interrupted; resolved = true })
          (change_all interrupt j.subjobs (change_job interrupt k (some j) t))).1,
    )
    else (ok tt, t)

-- One round of `MonitorThread.monitor`.
unfoldable pub monitor : Item → ℕ → Tables → Done
unfolding monitor_job
monitor q k t = monitor_job q k (t.jobs k) t

abbrev pub terminating : Job → Job
terminating j = record j { status = job_terminating }

abbrev pub is_processing : JobStatus → Bool
is_processing job_processing = true
is_processing _ = false

abbrev pub is_some {ℓ} : {A : Type ℓ} → Option A → Bool
is_some none = false
is_some (some a) = true

unfoldable pub kill_job : ℕ → Option Job → Tables → Done
unfolding change_all
kill_job k none t = (err not_found, t)
kill_job k (some j) t =
    if is_some j.parent_job_id
    then (err is_subjob, t)
    else if not (is_processing j.status)
    then (err not_running, t)
    else if not (is_some j.job_pid)
    then (err no_pid, t)
    else (ok tt, change_all terminating j.subjobs (change_job terminating k (some j) t))

-- `kill` of the job service, up to the waiting.
unfoldable pub kill : ℕ → Tables → Done
unfolding kill_job
kill k t = kill_job k (t.jobs k) t

unfoldable pub restart_job : ℕ → Option Job → Tables → Done
unfolding set_job
restart_job k none t = (err not_found, t)
restart_job k (some j) t =
    if is_some j.parent_job_id
    then (err is_subjob, t)
    else if is_processing j.status
    then (err still_running, t)
    else set_job k (record j { status = job_created }) t

-- `restart` of the job service, up to its update of the job.
unfoldable pub restart : ℕ → Tables → Done
unfolding restart_job
restart k t = restart_job k (t.jobs k) t

-- What happens to the tables, in any order.
pub data Happening : Type 0 where
  started : ℕ → Option ℕ → Item → ℕ → Happening
  finished_run : ℕ → Item → ℕ → Reply → Bool → Happening
  monitored : Item → ℕ → Happening
  killed restarted : ℕ → Happening

unfoldable pub happen : Happening → Tables → Tables
unfolding start finish_run monitor kill restart
happen (started server worker q k) t = (start server worker q k t).1
happen (finished_run server q k r sent) t = (finish_run server q k r sent t).1
happen (monitored q k) t = (monitor q k t).1
happen (killed k) t = (kill k t).1
happen (restarted k) t = (restart k t).1

unfoldable pub all_happen : List Happening → Tables → Tables
unfolding happen
all_happen [] t = t
all_happen (h ∷ hs) t = all_happen hs (happen h t)
