-- ===== src/Jobs/Settling.antt =====
-- Which statuses items and jobs have once they are resolved (queue.py and job_service.py).
use py_syft.Prelude.{
  ℕ, ◌≡◌, refl, Bool, true, false, not, Option, none, some, List, [], ◌∷◌, ◌==◌, update, inl, inr,
  Bool-cases, All, if_both, arith,
}
use py_syft.Prelude.Result.{ok, err}
use py_syft.Jobs.Status.{
  job_created, Status, processing, errored, completed, interrupted, JobStatus, job_errored,
  job_completed, job_interrupted,
}
use py_syft.Jobs.Handling.{
  Reply, returned, failed, Item, Job, Tables, Done, then_do, write_item, set_item, write_job,
  set_job, start_job, start, item_status, store_reply, finish_run, interrupt, change_job,
  change_all, is_terminating, monitor_job, monitor, terminating, is_processing, is_some, kill_job,
  kill, Happening, started, finished_run, monitored, killed, restarted, restart, restart_job,
  happen, all_happen,
}

abbrev pub is_final : Status → Bool
is_final completed = true
is_final errored = true
is_final interrupted = true
is_final _ = false

abbrev pub is_final_job : JobStatus → Bool
is_final_job job_completed = true
is_final_job job_errored = true
is_final_job job_interrupted = true
is_final_job _ = false

-- A resolved item has a final status.
abbrev pub ItemSettled : Item → Type 0
ItemSettled q = q.resolved ≡ true → is_final q.status ≡ true

-- A job with a final status is resolved.
abbrev pub JobSettled : Job → Type 0
JobSettled j = is_final_job j.status ≡ true → j.resolved ≡ true

pub record IsSettled (t : Tables) : Type 0 where
  pub item : (q : Item) → t.item ≡ some q → ItemSettled q
  pub jobs : (k : ℕ) (j : Job) → t.jobs k ≡ some j → JobSettled j

put_job-IsSettled :
    (k : ℕ) (j : Job) (t : Tables)
    → JobSettled j
    → IsSettled t
    → IsSettled (record t { jobs = update t.jobs k (some j) })
put_job-IsSettled k j t n h = record {
  item = h.item;
  jobs = λ i j' e. elim (Bool-cases (k == i)) [
    | inl b ↦ let same : some j ≡ some j' = rw b at e in let same' : j ≡ j' = cc in rw⁻¹ same' n
    | inr b ↦ h.jobs i j' (rw b at e)
  ];
}

set_job-IsSettled :
    (k : ℕ) (j : Job) (t : Tables) → JobSettled j → IsSettled t → IsSettled (set_job k j t).1
unfolding set_job
set_job-IsSettled k j t n h = by_row (t.jobs k)
  where
    by_row : (o : Option Job) → IsSettled (write_job k j o t).1
    by_row none = h
    by_row (some old) = put_job-IsSettled k j t n h

set_item-IsSettled :
    (q : Item) (t : Tables) → ItemSettled q → IsSettled t → IsSettled (set_item q t).1
unfolding set_item
set_item-IsSettled q t n h = if_both (λ (m : Done). IsSettled m.1) q.resolved (by_row t.item) h
  where
    by_row : (o : Option Item) → IsSettled (write_item q o t).1
    by_row none = h
    by_row (some old) = record {
      item = λ q' e. let same : q ≡ q' = cc in rw⁻¹ same n;
      jobs = h.jobs;
    }

then_do-IsSettled :
    (m : Done) (f : Tables → Done)
    → IsSettled m.1
    → ((t : Tables) → IsSettled t → IsSettled (f t).1)
    → IsSettled (then_do m f).1
then_do-IsSettled (ok u, t) f h g = g t h
then_do-IsSettled (err e, t) f h g = h

change_job-IsSettled :
    (f : Job → Job) (k : ℕ) (o : Option Job) (t : Tables)
    → ((j : Job) → JobSettled (f j))
    → IsSettled t
    → IsSettled (change_job f k o t)
change_job-IsSettled f k none t n h = h
change_job-IsSettled f k (some j) t n h = put_job-IsSettled k (f j) t (n j) h

change_all-IsSettled :
    (f : Job → Job) (ks : List ℕ) (t : Tables)
    → ((j : Job) → JobSettled (f j))
    → IsSettled t
    → IsSettled (change_all f ks t)
unfolding change_all
change_all-IsSettled f [] t n h = h
change_all-IsSettled f (k ∷ ks) t n h =
    change_all-IsSettled f ks (change_job f k (t.jobs k) t) n
      (change_job-IsSettled f k (t.jobs k) t n h)

start-IsSettled :
    (server : ℕ) (worker : Option ℕ) (q : Item) (k : ℕ) (t : Tables)
    → q.resolved ≡ false
    → IsSettled t
    → IsSettled (start server worker q k t).1
unfolding start start_job
start-IsSettled server worker q k t u h = by_row (t.jobs k)
  where
    by_row : (o : Option Job) → IsSettled (start_job server worker q k o t).1
    by_row none = h
    by_row (some j) =
        then_do-IsSettled (set_item (record q { status = processing; server_uid = some server }) t)
          _
          (set_item-IsSettled (record q { status = processing; server_uid = some server }) t
            (λ r. ground (arith, u, r)) h)
          (λ s. set_job-IsSettled k _ s (λ r. ground (arith, r)))

final_reply : (r : Reply) → is_final (item_status r) ≡ true
final_reply (returned v) = refl
final_reply (failed m) = refl

store_reply-IsSettled :
    (server : ℕ) (q : Item) (k : ℕ) (r : Reply) (o : Option Job) (t : Tables)
    → IsSettled t
    → IsSettled (store_reply server q k r o t).1
unfolding store_reply
store_reply-IsSettled server q k r none t h = h
store_reply-IsSettled server q k r (some j) t h =
    then_do-IsSettled
      (set_item (record q { status = item_status r; resolved = true; result = some r }) t) _
      (set_item-IsSettled (record q { status = item_status r; resolved = true; result = some r }) t
        (λ b. final_reply r) h)
      (λ s. set_job-IsSettled k _ s (λ b. refl))

finish_run-IsSettled :
    (server : ℕ) (q : Item) (k : ℕ) (r : Reply) (sent : Bool) (t : Tables)
    → IsSettled t
    → IsSettled (finish_run server q k r sent t).1
unfolding finish_run
finish_run-IsSettled server q k (returned v) sent t h =
    store_reply-IsSettled server q k (returned v) (t.jobs k) t h
finish_run-IsSettled server q k (failed m) true t h =
    store_reply-IsSettled server q k (failed m) (t.jobs k) t h
finish_run-IsSettled server q k (failed m) false t h = h

monitor-IsSettled : (q : Item) (k : ℕ) (t : Tables) → IsSettled t → IsSettled (monitor q k t).1
unfolding monitor monitor_job
monitor-IsSettled q k t h = by_row (t.jobs k)
  where
    by_row : (o : Option Job) → IsSettled (monitor_job q k o t).1
    by_row none = h
    by_row (some j) = elim (Bool-cases (is_terminating j.status)) [
      | inl b ↦ rw b (
          set_item-IsSettled (record q { status = interrupted; resolved = true }) _ (λ r. refl)
            (change_all-IsSettled interrupt j.subjobs _ (λ i r. refl)
              (change_job-IsSettled interrupt k (some j) t (λ i r. refl) h)))
      | inr b ↦ rw b h
    ]

kill-IsSettled : (k : ℕ) (t : Tables) → IsSettled t → IsSettled (kill k t).1
unfolding kill kill_job
kill-IsSettled k t h = by_row (t.jobs k)
  where
    not_final : (i : Job) → JobSettled (terminating i)
    not_final i r = ground (arith, r)

    done :
        (j : Job)
        → IsSettled (change_all terminating j.subjobs (change_job terminating k (some j) t))
    done j =
        change_all-IsSettled terminating j.subjobs _ not_final
          (change_job-IsSettled terminating k (some j) t not_final h)

    by_row : (o : Option Job) → IsSettled (kill_job k o t).1
    by_row none = h
    by_row (some j) =
        if_both (λ (m : Done). IsSettled m.1) (is_some j.parent_job_id) h
          (if_both (λ (m : Done). IsSettled m.1) (not (is_processing j.status)) h
            (if_both (λ (m : Done). IsSettled m.1) (not (is_some j.job_pid)) h (done j)))

restart-IsSettled : (k : ℕ) (t : Tables) → IsSettled t → IsSettled (restart k t).1
unfolding restart restart_job
restart-IsSettled k t h = by_row (t.jobs k)
  where
    by_row : (o : Option Job) → IsSettled (restart_job k o t).1
    by_row none = h
    by_row (some j) =
        if_both (λ (m : Done). IsSettled m.1) (is_some j.parent_job_id) h
          (if_both (λ (m : Done). IsSettled m.1) (is_processing j.status) h
            (set_job-IsSettled k (record j { status = job_created }) t (λ r. ground (arith, r)) h))

-- An item that a consumer starts is not resolved.
abbrev pub IsFresh : Happening → Type 0
IsFresh (started server worker q k) = q.resolved ≡ false
IsFresh _ = Unit

happen-IsSettled : (e : Happening) (t : Tables) → IsFresh e → IsSettled t → IsSettled (happen e t)
unfolding happen
happen-IsSettled (started server worker q k) t f h = start-IsSettled server worker q k t f h
happen-IsSettled (finished_run server q k r sent) t f h = finish_run-IsSettled server q k r sent t h
happen-IsSettled (monitored q k) t f h = monitor-IsSettled q k t h
happen-IsSettled (killed k) t f h = kill-IsSettled k t h
happen-IsSettled (restarted k) t f h = restart-IsSettled k t h

-- Through starts of runs of unresolved items, ends of runs, rounds of the monitor, kills and restarts,
-- in any order and number, a resolved item has a final status, and a job with a final status is resolved.
pub all_happen-IsSettled :
    (es : List Happening) (t : Tables) → All IsFresh es → IsSettled t → IsSettled (all_happen es t)
unfolding all_happen
all_happen-IsSettled [] t f h = h
all_happen-IsSettled (e ∷ es) t f h =
    all_happen-IsSettled es (happen e t) f.1 (happen-IsSettled e t f.0 h)
