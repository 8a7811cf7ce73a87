-- ===== src/Broker/Protocol.antt =====
-- `require_worker` and `process_worker` of zmq_producer.py.
use py_syft.Prelude.{
  ℕ, Bool, true, false, Option, none, some, List, [], ◌∷◌, ◌++◌, if◌then◌else◌, elem, update,
}
use py_syft.Broker.State.{
  Backend, Command, Outcome, Producer, decode_error, disconnect_command, done, heartbeat_command,
  index_error, invalid, raised, ready, syft_exception,
}
use py_syft.Broker.Purging.{delete_worker}
use py_syft.Broker.Dispatching.{worker_waiting}

module _ (b : Backend) where
  open b use {decode, parse_uid, fresh}

  unfoldable pub require_worker : ℕ → Producer b → Producer b
  require_worker w s = if s.known w then s else record s {
    known = update s.known w true;
    objects =
        update s.objects w (record { service = none; syft_worker_id = none; timeout = fresh w });
  }

  -- `self.services[service_name] = Service(service_name)`, where the name is new.
  unfoldable pub register_service : ℕ → Producer b → Producer b
  register_service n s = if elem n s.names then s else record s {
    names = s.names ++ n ∷ [];
    services = update s.services n (record { requests = []; waiting = [] });
  }

  unfoldable pub attach : ℕ → ℕ → Producer b → Producer b
  unfolding register_service
  attach w n s =
      let s1 = register_service n s in
      let o = s1.objects w in
      record s1 { objects = update s1.objects w (record o { service = some n }) }

  unfoldable pub set_id : ℕ → ℕ → Producer b → Producer b
  set_id w i s =
      let o = s.objects w in
      record s { objects = update s.objects w (record o { syft_worker_id = some i }) }

  -- W_READY of a worker that was not known; the last argument is its id, if `UID(_)` accepts it.
  unfoldable pub admit : ℕ → ℕ → ℕ → Option ℕ → Producer b → Outcome b
  unfolding set_id
  admit now w n none s = raised syft_exception (attach w n s)
  admit now w n (some i) s = worker_waiting b now w (set_id w i (attach w n s))

  -- Behind the service's name stands the worker's id.
  unfoldable pub id_frame : ℕ → Bool → ℕ → ℕ → Option ℕ → Producer b → Outcome b
  unfolding admit
  id_frame now was_known w n none s = raised decode_error s
  id_frame now was_known w n (some text) s =
      if was_known then done (delete_worker b w true s) else admit now w n (parse_uid text) s

  unfoldable pub name_frame : ℕ → Bool → ℕ → Option ℕ → List ℕ → Producer b → Outcome b
  unfolding id_frame
  name_frame now was_known w none rest s = raised decode_error s
  name_frame now was_known w (some n) [] s = raised index_error s
  name_frame now was_known w (some n) (g ∷ rest) s = id_frame now was_known w n (decode g) s

  unfoldable pub ready_frames : ℕ → Bool → ℕ → List ℕ → Producer b → Outcome b
  unfolding name_frame
  ready_frames now was_known w [] s = raised index_error s
  ready_frames now was_known w (f ∷ rest) s = name_frame now was_known w (decode f) rest s

  unfoldable pub run_command : ℕ → Bool → ℕ → Command → List ℕ → Producer b → Outcome b
  unfolding ready_frames
  run_command now was_known w ready frames s = ready_frames now was_known w frames s
  run_command now was_known w heartbeat_command frames s =
      if was_known then worker_waiting b now w s else done (delete_worker b w true s)
  run_command now was_known w disconnect_command frames s = done (delete_worker b w false s)
  run_command now was_known w invalid frames s = done s

  unfoldable pub process_worker : ℕ → ℕ → Command → List ℕ → Producer b → Outcome b
  unfolding run_command
  process_worker now w c frames s = run_command now (s.known w) w c frames (require_worker w s)
