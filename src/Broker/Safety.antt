-- ===== src/Broker/Safety.antt =====
-- The broker's loop (zmq_producer.py) survives every message that its workers send.
use py_syft.Prelude.{ℕ, ◌≡◌, refl, true, false, some, List, [], ◌∷◌, arith, leb, if_both, elem, All}
use py_syft.Broker.State.{
  Backend, Producer, Sent, heartbeat, Poll, quiet, short, three_frames, message, Event, round,
  enqueue,
}
use py_syft.Broker.Purging.{send_to_worker}
use py_syft.Broker.Dispatching.{append_request, dispatch}
use py_syft.Broker.Protocol.{process_worker}
use py_syft.Broker.Loop.{send_each, send_heartbeats, dispatch_all, tidy, receive, step, run, new}
use py_syft.Broker.Lists.{IsConsistent-send}
use py_syft.Broker.Runs.{new-IsConsistent, append_request-IsConsistent}
use py_syft.Broker.Handling.{
  IsSound, EndsWell, IsWorkerMessage, EndsWell-and_then, dispatch-EndsWell, purge_workers-EndsWell,
  process_worker-EndsWell,
}

module _ (b : Backend) where
  dispatch_all-EndsWell :
      (now : ℕ) (ns : List ℕ) (s : Producer b) → IsSound b s → EndsWell b (dispatch_all b now ns s)
  unfolding dispatch_all
  dispatch_all-EndsWell now [] s h = h
  dispatch_all-EndsWell now (n ∷ ns) s h =
      EndsWell-and_then b (dispatch b now (some n) s) (dispatch_all b now ns)
        (dispatch-EndsWell b now (some n) s refl h) (dispatch_all-EndsWell now ns)

  same-send :
      (m : Sent) (s : Producer b)
      → ((send_to_worker b m s).objects ≡ s.objects) × ((send_to_worker b m s).known ≡ s.known)
  unfolding send_to_worker
  same-send m s = (ground arith, ground arith)

  send_each-IsSound : (ws : List ℕ) (s : Producer b) → IsSound b s → IsSound b (send_each b ws s)
  unfolding send_each
  send_each-IsSound [] s h = h
  send_each-IsSound (w ∷ ws) s h = send_each-IsSound ws (send_to_worker b (heartbeat w) s) (record {
    consistent = IsConsistent-send b (heartbeat w) s h.consistent;
    served = λ j e.
        rw ((same-send (heartbeat w) s).0) (h.served j (rw ((same-send (heartbeat w) s).1) at e));
  })

  send_heartbeats-IsSound :
      (now : ℕ) (s : Producer b) → IsSound b s → IsSound b (send_heartbeats b now s)
  unfolding send_heartbeats
  send_heartbeats-IsSound now s h =
      let k : IsSound b (send_each b s.waiting s) = send_each-IsSound s.waiting s h in
      if_both (IsSound b) (leb s.heartbeat_at now)
        (record {
          consistent = record {
            once = k.consistent.once;
            listed = k.consistent.listed;
            are_known = k.consistent.are_known;
            unnamed = k.consistent.unnamed;
            named = k.consistent.named;
          };
          served = k.served;
        })
        h

  tidy-EndsWell : (now : ℕ) (s : Producer b) → IsSound b s → EndsWell b (tidy b now s)
  unfolding tidy
  tidy-EndsWell now s h =
      purge_workers-EndsWell b now (send_heartbeats b now s) (send_heartbeats-IsSound now s h)

  -- A poll that brings what workers send, or less than three frames, or another header.
  abbrev pub FromWorkers : Poll → Type 0
  FromWorkers three_frames = ⊥
  FromWorkers (message w true c frames) = IsWorkerMessage b c frames
  FromWorkers _ = Unit

  abbrev pub IsUsual : Event → Type 0
  IsUsual (round now p) = FromWorkers p
  IsUsual (enqueue n m) = Unit

  receive-EndsWell :
      (now : ℕ) (p : Poll) (s : Producer b)
      → FromWorkers p
      → IsSound b s
      → EndsWell b (receive b now p s)
  unfolding receive
  receive-EndsWell now quiet s f h = tidy-EndsWell now s h
  receive-EndsWell now short s f h = h
  receive-EndsWell now three_frames s f h = elim f [ ]
  receive-EndsWell now (message w false c frames) s f h = tidy-EndsWell now s h
  receive-EndsWell now (message w true c frames) s f h =
      EndsWell-and_then b (process_worker b now w c frames s) (tidy b now)
        (process_worker-EndsWell b now w c frames s f h) (tidy-EndsWell now)

  step-EndsWell : (e : Event) (s : Producer b) → IsUsual e → IsSound b s → EndsWell b (step b e s)
  unfolding step
  step-EndsWell (round now p) s f h =
      EndsWell-and_then b (dispatch_all b now s.names s) (receive b now p)
        (dispatch_all-EndsWell now s.names s h) (λ t. receive-EndsWell now p t f)
  step-EndsWell (enqueue n m) s f h =
      if_both (IsSound b) (elem n s.names)
        (record {
          consistent = append_request-IsConsistent b n m s h.consistent;
          served = unfold append_request in h.served;
        })
        h

  run_from-EndsWell :
      (es : List Event) (s : Producer b) → All IsUsual es → IsSound b s → EndsWell b (run b es s)
  unfolding run
  run_from-EndsWell [] s f h = h
  run_from-EndsWell (e ∷ es) s f h =
      EndsWell-and_then b (step b e s) (run b es) (step-EndsWell e s f.0 h)
        (λ t. run_from-EndsWell es t f.1)

  new-IsSound :
      (now : ℕ) (timeouts : ℕ → ℕ) (store : b.Store) → IsSound b (new b now timeouts store)
  unfolding new
  new-IsSound now timeouts store = record {
    consistent = new-IsConsistent b now timeouts store;
    served = λ w e. ground arith;
  }

  -- From its start, through any rounds that bring what workers send and any requests, the loop of the
  -- broker stays in a sound state, and only the deletion of a worker can end it by an exception.
  pub run-EndsWell :
      (now : ℕ) (timeouts : ℕ → ℕ) (store : b.Store) (es : List Event)
      → All IsUsual es
      → EndsWell b (run b es (new b now timeouts store))
  run-EndsWell now timeouts store es f =
      run_from-EndsWell es (new b now timeouts store) f (new-IsSound now timeouts store)
