-- ===== src/Broker/Stuck.antt =====
-- How a peer that is no worker ends the broker's loop (zmq_producer.py, lines 408 to 447).
use py_syft.Prelude.{ℕ, ◌≡◌, refl, false, none, List, arith, Option}
use py_syft.Broker.State.{
  Backend, Producer, Outcome, done, raised, and_then, Failure, heartbeat_command, invalid,
  attribute_error,
}
use py_syft.Broker.Purging.{purge_workers}
use py_syft.Broker.Dispatching.{dispatch, worker_waiting, mark_waiting}
use py_syft.Broker.Protocol.{process_worker, require_worker}
use py_syft.Broker.Invariant.{same-mark, known-require}

module _ (b : Backend) where
  abbrev pub Raises : Outcome b → Type 0
  Raises o = (e : Failure) × (s : Producer b) × (o ≡ raised e s)

  and_then-Raises : (o : Outcome b) (e : Failure) → Raises (and_then b o (raised e))
  and_then-Raises (done s) e = (e, s, refl)
  and_then-Raises (raised f s) e = (f, s, refl)

  dispatch-Raises :
      (now : ℕ) (v : Option ℕ) (s : Producer b) → v ≡ none → Raises (dispatch b now v s)
  unfolding dispatch
  dispatch-Raises now v s e =
      rw (e, dispatch) (and_then-Raises (purge_workers b now s) attribute_error)

  no_service :
      (w : ℕ) (s : Producer b)
      → s.known w ≡ false
      → ((require_worker b w s).objects w).service ≡ none
  unfolding require_worker
  no_service w s e = ground arith

  -- A peer that is not known and sends an unknown command is entered as a worker without a service,
  -- without an exception; its heartbeat in the state that this leaves raises.
  pub heartbeat-Raises :
      (now later w : ℕ) (frames frames' : List ℕ) (s : Producer b)
      → s.known w ≡ false
      → (t : Producer b) × (process_worker b now w invalid frames s ≡ done t)
        × Raises (process_worker b later w heartbeat_command frames' t)
  unfolding process_worker worker_waiting
  heartbeat-Raises now later w frames frames' s e =
      let t : Producer b = require_worker b w s in
      let same : require_worker b w t ≡ t = unfold require_worker in ground arith in
      (
        t,
        refl,
        rw (known-require b w s) (
            rw same (
              dispatch-Raises later _ (mark_waiting b later w t)
                (rw ((same-mark b later w t).1) (no_service w s e)))),
      )
