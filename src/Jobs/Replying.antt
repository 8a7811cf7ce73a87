-- ===== src/Jobs/Replying.antt =====
-- What a synchronous `handle_message` leaves in the tables (queue.py).
use py_syft.Prelude.{ℕ, ◌≡◌, refl, ap, ◌∙◌, true, false, Option, none, some, ◌==◌, ==_refl, update}
use py_syft.Prelude.Result.{ok}
use py_syft.Jobs.Status.{processing, completed, errored, job_processing, job_completed, job_errored}
use py_syft.Jobs.Handling.{
  Reply, returned, failed, Item, Job, Tables, Done, then_do, set_item, set_job, start_job, start,
  store_reply, finish_run, handle_message,
}

-- The statuses are written out by what the method gave.
abbrev pub started_job : ℕ → Option ℕ → Job → Job
started_job server worker j = record j {
  status = job_processing;
  server_uid = some server;
  job_worker_id = elim worker [ none ↦ j.job_worker_id | some i ↦ some i ];
}

abbrev pub replied_job : ℕ → Reply → Job → Job
replied_job server (returned v) j = record j {
  status = job_completed;
  resolved = true;
  server_uid = some server;
  result = some (returned v);
}
replied_job server (failed m) j = record j {
  status = job_errored;
  resolved = true;
  server_uid = some server;
  result = some (failed m);
}

abbrev pub replied_item : ℕ → Reply → Item
replied_item server (returned v) = record {
  status = completed;
  resolved = true;
  server_uid = some server;
  result = some (returned v);
}
replied_item server (failed m) = record {
  status = errored;
  resolved = true;
  server_uid = some server;
  result = some (failed m);
}

start_lem :
    (server : ℕ) (worker : Option ℕ) (q : Item) (k : ℕ) (j : Job) (t : Tables)
    → q.resolved ≡ false
    → t.jobs k ≡ some j
    → start server worker q k t
      ≡ (ok tt, record t { jobs = update t.jobs k (some (started_job server worker j)) })
unfolding start start_job set_item set_job
start_lem server none q k j t u e = rw e (rw u (rw e refl))
start_lem server (some i) q k j t u e = rw e (rw u (rw e refl))

finish_run-replies :
    (server : ℕ) (q : Item) (k : ℕ) (r : Reply) (t : Tables)
    → finish_run server q k r true t ≡ store_reply server q k r (t.jobs k) t
unfolding finish_run
finish_run-replies server q k (returned v) t = refl
finish_run-replies server q k (failed m) t = refl

store_reply_lem :
    (server : ℕ) (q old : Item) (k : ℕ) (r : Reply) (j : Job) (t : Tables)
    → t.item ≡ some old
    → t.jobs k ≡ some j
    → store_reply server (record q { server_uid = some server }) k r (t.jobs k) t ≡ (
      ok tt,
      record {
        item = some (replied_item server r);
        jobs = update t.jobs k (some (replied_job server r j));
      },
    )
unfolding store_reply set_item set_job
store_reply_lem server q old k (returned v) j t i e = rw e (rw i (rw e refl))
store_reply_lem server q old k (failed m) j t i e = rw e (rw i (rw e refl))

handle_message-tables :
    (server : ℕ) (worker : Option ℕ) (q old : Item) (k : ℕ) (r : Reply) (j : Job) (t : Tables)
    → q.resolved ≡ false
    → t.item ≡ some old
    → t.jobs k ≡ some j
    → handle_message server worker q k r true t ≡ (
      ok tt,
      record {
        item = some (replied_item server r);
        jobs =
            update
              (update t.jobs k (some (started_job server worker j)))
              k
              (some (replied_job server r (started_job server worker j)));
      },
    )
unfolding handle_message
handle_message-tables server worker q old k r j t u i e =
    let t' : Tables = record t { jobs = update t.jobs k (some (started_job server worker j)) } in
    let q' : Item = record q { status = processing; server_uid = some server } in
    ap (λ (m : Done). then_do m (finish_run server q' k r true))
      (start_lem server worker q k j t u e)
    ∙ finish_run-replies server q' k r t'
    ∙ store_reply_lem server q' old k r (started_job server worker j) t' i (rw (==_refl k) refl)

-- A synchronous `handle_message` of an unresolved item whose row and whose job are there, and where
-- the notification of a failure is sent, ends without an exception. The item and the job then are
-- resolved, with this server as theirs, both COMPLETED with the value of the method where it
-- returned, both ERRORED with its message where it failed; the job's worker is the consumer's where
-- the consumer has one, and the other jobs are as before.
pub handle_message_lem :
    (server : ℕ) (worker : Option ℕ) (q old : Item) (k : ℕ) (r : Reply) (j : Job) (t : Tables)
    → q.resolved ≡ false
    → t.item ≡ some old
    → t.jobs k ≡ some j
    → ((handle_message server worker q k r true t).0 ≡ ok tt)
      × ((handle_message server worker q k r true t).1.item ≡ some (replied_item server r))
      × ((handle_message server worker q k r true t).1.jobs k
          ≡ some (replied_job server r (started_job server worker j)))
      × ((i : ℕ)
          → (k == i) ≡ false
          → (handle_message server worker q k r true t).1.jobs i ≡ t.jobs i)
handle_message_lem server worker q old k r j t u i e =
    rw (handle_message-tables server worker q old k r j t u i e)
      (refl, refl, rw (==_refl k) refl, λ x n. rw n refl)
