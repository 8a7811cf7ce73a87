-- ===== src/Broker/Loop.antt =====
-- `send_heartbeats`, `_run` and `post_init` of zmq_producer.py.
use py_syft.Prelude.{ℕ, ◌+◌, true, false, none, some, List, [], ◌∷◌, leb, if◌then◌else◌, elem}
use py_syft.Broker.State.{
  Backend, Event, Outcome, Poll, Producer, and_then, done, enqueue, heartbeat, heartbeat_interval,
  message, quiet, raised, round, short, three_frames, value_error,
}
use py_syft.Broker.Purging.{purge_workers, send_to_worker}
use py_syft.Broker.Dispatching.{append_request, dispatch}
use py_syft.Broker.Protocol.{process_worker}

module _ (b : Backend) where
  open b use {Store}

  unfoldable pub send_each : List ℕ → Producer b → Producer b
  unfolding send_to_worker
  send_each [] s = s
  send_each (w ∷ ws) s = send_each ws (send_to_worker b (heartbeat w) s)

  unfoldable pub send_heartbeats : ℕ → Producer b → Producer b
  unfolding send_each
  send_heartbeats now s =
      if leb s.heartbeat_at now
      then record (send_each s.waiting s) { heartbeat_at = now + heartbeat_interval }
      else s

  -- `for service in self.services.values(): self.dispatch(service, None)`
  unfoldable pub dispatch_all : ℕ → List ℕ → Producer b → Outcome b
  dispatch_all now [] s = done s
  dispatch_all now (n ∷ ns) s = and_then b (dispatch b now (some n) s) (dispatch_all now ns)

  unfoldable pub tidy : ℕ → Producer b → Outcome b
  unfolding send_heartbeats
  tidy now s = purge_workers b now (send_heartbeats now s)

  -- The rest of a round of `_run`, by what the poll brought. The guard is on fewer than three
  -- frames, and the assignment takes four.
  unfoldable pub receive : ℕ → Poll → Producer b → Outcome b
  unfolding tidy
  receive now quiet s = tidy now s
  receive now short s = done s
  receive now three_frames s = raised value_error s
  receive now (message w false c frames) s = tidy now s
  receive now (message w true c frames) s =
      and_then b (process_worker b now w c frames s) (tidy now)

  -- A request from `read_items`, which skips a pool that is not registered.
  unfoldable pub enqueue_request : ℕ → ℕ → Producer b → Producer b
  unfolding append_request
  enqueue_request n m s = if elem n s.names then append_request b n m s else s

  unfoldable pub step : Event → Producer b → Outcome b
  unfolding enqueue_request
  step (round now p) s = and_then b (dispatch_all now s.names s) (receive now p)
  step (enqueue n m) s = done (enqueue_request n m s)

  -- `_run`, whose loop an exception ends, with the requests that arrive between its rounds.
  unfoldable pub run : List Event → Producer b → Outcome b
  run [] s = done s
  run (e ∷ es) s = and_then b (step e s) (run es)

  -- `post_init`
  unfoldable pub new : ℕ → (ℕ → ℕ) → Store → Producer b
  new now timeouts store = record {
    known = λ _. false;
    objects = λ _. record { service = none; syft_worker_id = none; timeout = 0 };
    waiting = [];
    names = [];
    services = λ _. record { requests = []; waiting = [] };
    timeouts = timeouts;
    heartbeat_at = now + heartbeat_interval;
    store = store;
    sent = [];
    closed = false;
  }
