-- ===== src/Broker/Runs.antt =====
-- Whole runs of the broker's loop (`_run` and `process_worker` of zmq_producer.py).
use py_syft.Prelude.{
  ℕ, true, false, some, List, [], ◌∷◌, arith, leb, ==_iff, if_both, elem, count-nil,
}
use py_syft.Broker.State.{
  Backend, Producer, heartbeat, final, Command, ready, heartbeat_command, disconnect_command,
  invalid, Poll, quiet, short, three_frames, message, Event, round, enqueue,
}
use py_syft.Broker.Purging.{send_to_worker}
use py_syft.Broker.Dispatching.{dispatch, append_request}
use py_syft.Broker.Protocol.{require_worker, process_worker}
use py_syft.Broker.Loop.{dispatch_all, send_each, send_heartbeats, tidy, receive, step, run, new}
use py_syft.Broker.Lists.{IsConsistent, IsConsistent-send}
use py_syft.Broker.Delete.{delete_worker-IsConsistent}
use py_syft.Broker.Purge.{final-and_then, purge_workers-IsConsistent}
use py_syft.Broker.Invariant.{
  dispatch-IsConsistent, worker_waiting-IsConsistent, known-require, waiting-require,
  require_worker-IsConsistent, fresh_worker, ready_frames-IsConsistent,
}

module _ (b : Backend) where
  -- Whatever a peer sends, whether the command raises or not, the lists of the broker are consistent
  -- afterwards if they were before.
  pub process_worker-IsConsistent :
      (now w : ℕ) (c : Command) (frames : List ℕ) (s : Producer b)
      → IsConsistent b s
      → IsConsistent b (final b (process_worker b now w c frames s))
  unfolding process_worker
  process_worker-IsConsistent now w ready frames s h =
      ready_frames-IsConsistent b now (s.known w) w frames (require_worker b w s)
        (known-require b w s) (λ e. rw waiting-require (fresh_worker b w s e h))
        (require_worker-IsConsistent b w s h)
  process_worker-IsConsistent now w heartbeat_command frames s h =
      let h' = require_worker-IsConsistent b w s h in
      if_both (λ o. IsConsistent b (final b o)) (s.known w)
        (worker_waiting-IsConsistent b now w (require_worker b w s) (known-require b w s) h')
        (delete_worker-IsConsistent b w true (require_worker b w s) h')
  process_worker-IsConsistent now w disconnect_command frames s h =
      delete_worker-IsConsistent b w false (require_worker b w s)
        (require_worker-IsConsistent b w s h)
  process_worker-IsConsistent now w invalid frames s h = require_worker-IsConsistent b w s h

  dispatch_all-IsConsistent :
      (now : ℕ) (ns : List ℕ) (s : Producer b)
      → IsConsistent b s
      → IsConsistent b (final b (dispatch_all b now ns s))
  unfolding dispatch_all
  dispatch_all-IsConsistent now [] s h = h
  dispatch_all-IsConsistent now (n ∷ ns) s h =
      final-and_then b (IsConsistent b) (dispatch b now (some n) s) (dispatch_all b now ns)
        (dispatch-IsConsistent b now (some n) s h) (λ t. dispatch_all-IsConsistent now ns t)

  pub send_each-IsConsistent :
      (ws : List ℕ) (s : Producer b) → IsConsistent b s → IsConsistent b (send_each b ws s)
  unfolding send_each
  send_each-IsConsistent [] s h = h
  send_each-IsConsistent (w ∷ ws) s h =
      send_each-IsConsistent ws (send_to_worker b (heartbeat w) s)
        (IsConsistent-send b (heartbeat w) s h)

  tidy-IsConsistent :
      (now : ℕ) (s : Producer b) → IsConsistent b s → IsConsistent b (final b (tidy b now s))
  unfolding tidy send_heartbeats
  tidy-IsConsistent now s h =
      let k = send_each-IsConsistent s.waiting s h in
      purge_workers-IsConsistent b now (send_heartbeats b now s) (
        if_both (IsConsistent b) (leb s.heartbeat_at now)
          (record {
            once = k.once;
            listed = k.listed;
            are_known = k.are_known;
            unnamed = k.unnamed;
            named = k.named;
          })
          h)

  receive-IsConsistent :
      (now : ℕ) (p : Poll) (s : Producer b)
      → IsConsistent b s
      → IsConsistent b (final b (receive b now p s))
  unfolding receive
  receive-IsConsistent now quiet s h = tidy-IsConsistent now s h
  receive-IsConsistent now short s h = h
  receive-IsConsistent now three_frames s h = h
  receive-IsConsistent now (message w false c frames) s h = tidy-IsConsistent now s h
  receive-IsConsistent now (message w true c frames) s h =
      final-and_then b (IsConsistent b) (process_worker b now w c frames s) (tidy b now)
        (process_worker-IsConsistent now w c frames s h) (λ t. tidy-IsConsistent now t)

  pub append_request-IsConsistent :
      (n m : ℕ) (s : Producer b) → IsConsistent b s → IsConsistent b (append_request b n m s)
  unfolding append_request
  append_request-IsConsistent n m s h = record {
    once = h.once;
    listed = λ j k. ground (arith, h.listed j k, h.listed j n, ==_iff n k);
    are_known = h.are_known;
    unnamed = λ j k u. ground (arith, h.unnamed j k, ==_iff n k);
    named = h.named;
  }

  step-IsConsistent :
      (e : Event) (s : Producer b) → IsConsistent b s → IsConsistent b (final b (step b e s))
  unfolding step
  step-IsConsistent (round now p) s h =
      final-and_then b (IsConsistent b) (dispatch_all b now s.names s) (receive b now p)
        (dispatch_all-IsConsistent now s.names s h) (λ t. receive-IsConsistent now p t)
  step-IsConsistent (enqueue n m) s h =
      if_both (IsConsistent b) (elem n s.names) (append_request-IsConsistent n m s h) h

  pub new-IsConsistent :
      (now : ℕ) (timeouts : ℕ → ℕ) (store : b.Store) → IsConsistent b (new b now timeouts store)
  unfolding new
  new-IsConsistent now timeouts store = record {
    once = λ w. rw (count-nil w) (omega arith);
    listed = λ w n. count-nil w;
    are_known = λ w pos. absurd (omega (arith, count-nil w));
    unnamed = λ w n _. count-nil w;
    named = λ w n f. ground arith;
  }

  run_from-IsConsistent :
      (es : List Event) (s : Producer b) → IsConsistent b s → IsConsistent b (final b (run b es s))
  unfolding run
  run_from-IsConsistent [] s h = h
  run_from-IsConsistent (e ∷ es) s h =
      final-and_then b (IsConsistent b) (step b e s) (run b es) (step-IsConsistent e s h)
        (λ t. run_from-IsConsistent es t)

  -- In every state that the broker reaches from its start, through any messages, requests and
  -- readings of the clock, its lists of workers are consistent.
  pub run-IsConsistent :
      (now : ℕ) (timeouts : ℕ → ℕ) (store : b.Store) (es : List Event)
      → IsConsistent b (final b (run b es (new b now timeouts store)))
  run-IsConsistent now timeouts store es =
      run_from-IsConsistent es (new b now timeouts store) (new-IsConsistent now timeouts store)
