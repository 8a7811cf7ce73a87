-- ===== src/Broker/Examples.antt =====
-- The broker of zmq_producer.py with two workers of one pool.
use py_syft.Prelude.{
  ℕ, ◌≡◌, ◌≢◌, refl, Bool, true, false, Option, none, some, List, [], ◌∷◌, count, remove, arith,
}
use py_syft.Broker.State.{
  Backend, Producer, request, done, final, Event, round, enqueue, message, ready, heartbeat_command,
  invalid,
}
use py_syft.Broker.Purging.{delete_worker, purge_worker, purge_workers, purge_from, delete_expired}
use py_syft.Broker.Dispatching.{
  hand_over, serve_loop, serve, dispatch, append_request, mark_waiting, worker_waiting,
}
use py_syft.Broker.Protocol.{require_worker, attach, process_worker}
use py_syft.Broker.Loop.{new, run, step, receive, dispatch_all, send_heartbeats}
use py_syft.Broker.Lists.{IsConsistent}
use py_syft.Broker.Delete.{delete_worker_gone}
use py_syft.Broker.Expiry.{purge_workers_keeps_live, purge_workers_skips}
use py_syft.Broker.Serve.{Served, serve_lem}
use py_syft.Broker.Runs.{process_worker-IsConsistent, run-IsConsistent}
use py_syft.Broker.Handling.{EndsWell}
use py_syft.Broker.Safety.{run-EndsWell}
use py_syft.Broker.Stuck.{Raises, heartbeat-Raises}

-- Every worker is in the table and unmarked, a deletion succeeds, and each worker has a timer.
abbrev find_any : Unit {0} → Option ℕ → Option Bool
find_any st none = none
find_any st (some i) = some false

abbrev pub simple : Backend
simple = record {
  Store = Unit {0};
  find = find_any;
  set_state = λ st i c. st;
  delete = λ st i. (st, false);
  decode = λ f. some f;
  parse_uid = λ t. some t;
  fresh = λ w. w;
}

abbrev pub start : Producer simple
start = new simple 0 (λ _. 0) tt

-- Workers 1 and 2 announce themselves for pool 7; requests 100 and 101 arrive.
abbrev arrivals : List Event
arrivals =
    round 0 (message 1 true ready (7 ∷ 11 ∷ []))
    ∷ round 1 (message 2 true ready (7 ∷ 12 ∷ []))
    ∷ enqueue 7 100
    ∷ enqueue 7 101
    ∷ []

abbrev two_workers : Producer simple
two_workers = final simple (run simple arrivals start)

two_workers_wait : two_workers.waiting ≡ 1 ∷ 2 ∷ []
unfolding run step dispatch_all dispatch receive process_worker worker_waiting mark_waiting
    require_worker attach new purge_workers purge_from purge_worker delete_expired delete_worker
    send_heartbeats serve serve_loop append_request
two_workers_wait = refl

two_workers-IsConsistent : IsConsistent simple two_workers
two_workers-IsConsistent = run-IsConsistent simple 0 (λ _. 0) tt arrivals

-- The next round hands the two requests out.
requests_go_out :
    (final simple (dispatch simple 2 (some 7) two_workers)).sent
    ≡ request 1 100 ∷ request 2 101 ∷ []
unfolding run step dispatch_all dispatch receive process_worker worker_waiting mark_waiting
    require_worker attach new purge_workers purge_from purge_worker delete_expired delete_worker
    send_heartbeats serve serve_loop append_request hand_over remove
requests_go_out = refl

delete_worker_gone_at_work :
    let t = delete_worker simple 1 true two_workers in
    (t.known 2 ≡ two_workers.known 2)
    × (count 2 t.waiting ≡ count 2 two_workers.waiting)
    × (count 2 (t.services 7).waiting ≡ count 2 (two_workers.services 7).waiting)
delete_worker_gone_at_work =
    delete_worker_gone simple 1 true two_workers 2 7 two_workers-IsConsistent

-- At second 70 worker 1 has expired, and worker 2, whose timer stands at 61, too.
purge_workers_skips_at_work :
    (r : List ℕ) × ((final simple (purge_workers simple 70 two_workers)).waiting ≡ 2 ∷ r)
unfolding run step dispatch_all dispatch receive process_worker worker_waiting mark_waiting
    require_worker attach new purge_workers purge_from purge_worker delete_expired delete_worker
    send_heartbeats serve serve_loop append_request
purge_workers_skips_at_work =
    purge_workers_skips simple 70 two_workers 1 2 [] false two_workers-IsConsistent refl refl refl

-- At second 60 worker 1 has expired, and worker 2 has not.
purge_workers_keeps_live_at_work :
    let t = final simple (purge_workers simple 60 two_workers) in
    (t.known 2 ≡ two_workers.known 2)
    × (count 2 t.waiting ≡ count 2 two_workers.waiting)
    × (count 2 (t.services 7).waiting ≡ count 2 (two_workers.services 7).waiting)
unfolding run step dispatch_all dispatch receive process_worker worker_waiting mark_waiting
    require_worker attach new purge_workers purge_from purge_worker delete_expired delete_worker
    send_heartbeats serve serve_loop append_request
purge_workers_keeps_live_at_work =
    purge_workers_keeps_live simple 60 two_workers 2 7 refl never_marked
  where
    never_marked : (st : Unit {0}) → find_any st (two_workers.objects 2).syft_worker_id ≢ some true
    never_marked st e = ground arith

serve_lem_example :
    (t : Producer simple) × (serve simple 7 two_workers ≡ done t)
    × Served simple 7
        (two_workers.services 7).waiting
        (two_workers.services 7).requests
        two_workers
        t
unfolding run step dispatch_all dispatch receive process_worker worker_waiting mark_waiting
    require_worker attach new purge_workers purge_from purge_worker delete_expired delete_worker
    send_heartbeats append_request serve serve_loop
serve_lem_example = serve_lem simple 7 two_workers two_workers-IsConsistent refl

process_worker-IsConsistent_example :
    IsConsistent simple (final simple (process_worker simple 3 1 invalid [] two_workers))
process_worker-IsConsistent_example =
    process_worker-IsConsistent simple 3 1 invalid [] two_workers two_workers-IsConsistent

run-IsConsistent_example : IsConsistent simple (final simple (run simple arrivals start))
run-IsConsistent_example = run-IsConsistent simple 0 (λ _. 0) tt arrivals

run-EndsWell_example : EndsWell simple (run simple arrivals start)
run-EndsWell_example =
    run-EndsWell simple 0 (λ _. 0) tt arrivals
      ((7, 11, 11, refl, refl, refl), ((7, 12, 12, refl, refl, refl), (tt, (tt, tt))))

heartbeat-Raises_at_work :
    (t : Producer simple) × (process_worker simple 0 9 invalid [] start ≡ done t)
    × Raises simple (process_worker simple 1 9 heartbeat_command [] t)
heartbeat-Raises_at_work = heartbeat-Raises simple 0 1 9 [] [] start (unfold new in refl)
