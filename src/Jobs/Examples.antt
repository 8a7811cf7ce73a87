-- ===== src/Jobs/Examples.antt =====
-- The theorems on the queue at concrete tables.
use py_syft.Prelude.{
  ℕ, ◌+◌, ◌≤◌, ◌≡◌, refl, Bool, true, false, not, Option, none, some, List, [], ◌∷◌, ◌++◌,
  if◌then◌else◌, filter, ◌==◌, count, count-cons, count-nil, elem, arith, inl,
}
use py_syft.Prelude.Result.{ok}
use py_syft.Permission.{permission_string, compound_permission_string}
use py_syft.Stash.Access.{grants, get_role, find_role, row_as_obj}
use py_syft.Stash.Examples.{things, table, table-UniqueIds, row_of}
use py_syft.Broker.Dispatching.{append_request}
use py_syft.Broker.Examples.{simple, start}
use py_syft.Jobs.Status.{Status, created, processing, errored, completed, status_eq, job_created}
use py_syft.Jobs.Stashes.{pop}
use py_syft.Jobs.Taking.{pop_lem}
use py_syft.Jobs.Reading.{
  has_status, QueueTable, Reader, append_item, send_item, check_item, queue_item, scan_created,
  scan_processing, scan_both, scan, going, handle, read_items,
}
use py_syft.Jobs.Once.{waits, Reach, here, next, round, others, queued_once}
use py_syft.Jobs.Scanning.{Calm, view, read_items_lem, read_items_stale}
use py_syft.Jobs.Handling.{
  returned, Item, Job, Tables, handle_message, started, finished_run, monitored, killed, all_happen,
}
use py_syft.Jobs.Settling.{IsSettled, is_final_job, all_happen-IsSettled}
use py_syft.Jobs.Replying.{replied_item, replied_job, started_job, handle_message_lem}

-- Key 1 takes object 5 out of the table; key 2 may write it, but not read it.
pop_at_work :
    ((pop things 1 5 table).0 ≡ ok (some (5, 50)))
    × ((pop things 1 5 table).1 ≡ row_of 6 60 [] ∷ [])
unfolding grants get_role find_role permission_string compound_permission_string row_as_obj
pop_at_work = pop_lem things 1 5 _ (5, 50) table table-UniqueIds refl refl

-- Whether the next queries fail, and the statuses, the newest entry of an id first.
abbrev Entries : Type 0
Entries = List (ℕ × Status)

abbrev entry : Entries → ℕ → Option Status
entry [] j = none
entry ((i, x) ∷ s) j = if i == j then some x else entry s j

abbrev others_than : ℕ → List ℕ → List ℕ
others_than i l = filter (λ k. not (k == i)) l

abbrev ids_with : Entries → Status → List ℕ
ids_with [] st = []
ids_with ((i, x) ∷ s) st =
    let rest = others_than i (ids_with s st) in if status_eq x st then i ∷ rest else rest

count-others :
    (i j : ℕ) (l : List ℕ) → count j (others_than i l) ≡ (if i == j then 0 else count j l)
count-others i j [] = rw (count-nil j) (ground arith)
count-others i j (k ∷ l) =
    ground (arith, count-others i j l, count-cons j k l, count-cons j k (others_than i l))

count-ids :
    (s : Entries) (st : Status) (j : ℕ)
    → count j (ids_with s st) ≡ (if has_status (entry s j) st then 1 else 0)
count-ids [] st j = count-nil j
count-ids ((i, x) ∷ s) st j = ground (
  arith,
  count-ids s st j,
  count-others i j (ids_with s st),
  count-cons j i (others_than i (ids_with s st)),
)

entries-get :
    (d : Bool) (s : Entries) (st : Status) (l : List ℕ) (j : ℕ)
    → (if d then none else some (ids_with s st)) ≡ some l
    → count j l ≡ (if has_status (entry s j) st then 1 else 0)
entries-get true s st l j h = ground arith
entries-get false s st l j h = let same : l ≡ ids_with s st = cc in rw same (count-ids s st j)

entries-update :
    (d : Bool) (s : Entries) (s' : Bool × Entries) (i : ℕ) (st : Status) (j : ℕ)
    → some (d, (i, st) ∷ s) ≡ some s'
    → entry s'.1 j ≡ (if i == j then some st else entry s j)
entries-update d s s' i st j h = let same : s' ≡ (d, (i, st) ∷ s) = cc in rw same refl

abbrev entries : QueueTable
entries = record {
  Store = Bool × Entries;
  is_action = λ i. i == 3;
  status_of = λ s j. entry s.1 j;
  get_by_status = λ s st. if s.0 then none else some (ids_with s.1 st);
  update = λ s i st. some (s.0, (i, st) ∷ s.1);
  get-status = λ s st l j h. entries-get s.0 s.1 st l j h;
  status-update = λ s s' i st j h. entries-update s.0 s.1 s' i st j h;
}

-- Items 3 and 4 wait, 5 is done; all are for pool 7, and 3 has an argument that is not there yet.
abbrev reader : Reader simple entries
reader = record {
  last = none;
  store = (false, (3, created) ∷ (4, created) ∷ (5, completed) ∷ []);
  producer = record start { names = 7 ∷ [] };
  queued = [];
}

abbrev calm : Calm simple entries
calm = record {
  unresolved = λ i. true;
  pool = λ i. 7;
  update = λ s i st. (s.0, (i, st) ∷ s.1);
  update_lem = λ s i st. refl;
}

read_items_lem_example :
    (r' : Reader simple entries) × (read_items simple entries (view simple entries calm) reader
      ≡ going r')
    × ((n : ℕ)
        → (r'.producer.services n).requests
          ≡ (start.services n).requests ++ filter (λ i. 7 == n) (4 ∷ []))
    × ((j : ℕ)
        → entry r'.store.1 j
          ≡ (if elem j (4 ∷ []) then some processing else entry reader.store.1 j))
read_items_lem_example = read_items_lem simple entries calm (3 ∷ 4 ∷ []) [] reader refl refl

abbrev after_round : Reader simple entries
after_round = record reader {
  last = some 4;
  store = (false, (4, processing) ∷ reader.store.1);
  producer = append_request simple 7 4 reader.producer;
  queued = 4 ∷ [];
}

round_runs : read_items simple entries (view simple entries calm) reader ≡ going after_round
unfolding read_items scan scan_both handle scan_created scan_processing queue_item check_item
    send_item append_item
round_runs = refl

-- Two rounds, and between them a service has done item 4.
two_rounds :
    Reach simple entries reader
      (record after_round { store = (true, (4, completed) ∷ reader.store.1) })
two_rounds =
    next (next here (round (view simple entries calm) round_runs)) (
      others (true, (4, completed) ∷ reader.store.1) after_round.producer (λ j. inl (ground arith)))

queued_once_example :
    count 4 (4 ∷ []) + waits simple entries (true, (4, completed) ∷ reader.store.1) 4 ≤ 1
queued_once_example = queued_once simple entries reader _ refl two_rounds 4

-- The next query fails, and the handler makes item 4 ERRORED.
abbrev stale : Reader simple entries
stale = record after_round { store = (true, (4, completed) ∷ reader.store.1) }

read_items-stale_at_work :
    (read_items simple entries (view simple entries calm) stale
      ≡ going (record stale { store = (true, (4, errored) ∷ stale.store.1) }))
    × (entry ((4, errored) ∷ stale.store.1) 4 ≡ some errored)
read_items-stale_at_work =
    read_items_stale simple entries (view simple entries calm) 4 stale
      (true, (4, errored) ∷ stale.store.1) refl refl refl

-- Job 30 with the process 400, which is to run its item on server 2.
abbrev item : Item
item = record { status = created; resolved = false; server_uid = none; result = none }

abbrev job : Job
job = record {
  status = job_created;
  resolved = false;
  server_uid = none;
  result = none;
  job_worker_id = none;
  job_pid = some 400;
  parent_job_id = none;
  subjobs = [];
}

abbrev one_job : ℕ → Option Job
one_job k = if k == 30 then some job else none

abbrev tables : Tables
tables = record { item = some item; jobs = one_job }

one_job-unfinished :
    (k : ℕ) (j : Job) → one_job k ≡ some j → is_final_job j.status ≡ true → j.resolved ≡ true
one_job-unfinished k j e = cases (k == 30) e
  where
    cases :
        (t : Bool)
        → (if t then some job else none) ≡ some j
        → is_final_job j.status ≡ true
        → j.resolved ≡ true
    cases true h = let same : j ≡ job = cc in rw same (λ r. ground (arith, r))
    cases false h = ground arith

tables-IsSettled : IsSettled tables
tables-IsSettled = record {
  item = λ q e r. let same : q ≡ item = cc in ground (arith, r, same);
  jobs = one_job-unfinished;
}

-- The run is started and killed, and yet ends.
all_happen-IsSettled_example : IsSettled (
    all_happen
      (started 2 none item 30
        ∷ killed 30
        ∷ monitored item 30
        ∷ finished_run 2 item 30 (returned 9) true
        ∷ [])
      tables)
all_happen-IsSettled_example =
    all_happen-IsSettled _ tables (refl, (tt, (tt, (tt, tt)))) tables-IsSettled

handle_message_lem_example :
    ((handle_message 2 none item 30 (returned 9) true tables).0 ≡ ok tt)
    × ((handle_message 2 none item 30 (returned 9) true tables).1.item
        ≡ some (replied_item 2 (returned 9)))
    × ((handle_message 2 none item 30 (returned 9) true tables).1.jobs 30
        ≡ some (replied_job 2 (returned 9) (started_job 2 none job)))
    × ((i : ℕ)
        → (30 == i) ≡ false
        → (handle_message 2 none item 30 (returned 9) true tables).1.jobs i ≡ one_job i)
handle_message_lem_example =
    handle_message_lem 2 none item item 30 (returned 9) job tables refl refl refl
