-- ===== src/Broker/Dispatching.antt =====
-- `dispatch` and `worker_waiting` of zmq_producer.py.
use py_syft.Prelude.{
  ℕ, zero, suc, ◌+◌, Option, none, some, List, [], ◌∷◌, ◌++◌, if◌then◌else◌, elem, remove, update,
  length,
}
use py_syft.Broker.State.{
  Backend, Outcome, Producer, and_then, attribute_error, done, idle, raised, request, value_error,
  worker_timeout,
}
use py_syft.Broker.Purging.{purge_workers, send_to_worker, update_consumer_state}

module _ (b : Backend) where
  -- The body of the loop of `dispatch`, with the first worker and the first request of the service.
  unfoldable pub hand_over : ℕ → ℕ → List ℕ → ℕ → List ℕ → Producer b → Outcome b
  unfolding send_to_worker
  hand_over n w ws m ms s =
      let s1 = record s {
        services = update s.services n (record { requests = ms; waiting = ws });
      } in
      if elem w s1.waiting
      then done (send_to_worker b (request w m) (record s1 { waiting = remove w s1.waiting }))
      else raised value_error s1

  -- `while service.waiting and service.requests`
  unfoldable pub serve_loop : ℕ → ℕ → Producer b → Outcome b
  serve_loop n zero s = done s
  serve_loop n (suc rounds) s = elim (s.services n).waiting [
    | [] ↦ done s
    | w ∷ ws ↦ elim (s.services n).requests [
      | [] ↦ done s
      | m ∷ ms ↦ and_then b (hand_over n w ws m ms s) (serve_loop n rounds)
    ]
  ]

  unfoldable pub serve : ℕ → Producer b → Outcome b
  serve n s = serve_loop n (length (s.services n).requests) s

  unfoldable pub append_request : ℕ → ℕ → Producer b → Producer b
  append_request n m s =
      let v = s.services n in
      record s { services = update s.services n (record v { requests = v.requests ++ m ∷ [] }) }

  -- `dispatch(service, None)`; without a service, `service.waiting` raises after the purge.
  unfoldable pub dispatch : ℕ → Option ℕ → Producer b → Outcome b
  dispatch now none s = and_then b (purge_workers b now s) (raised attribute_error)
  dispatch now (some n) s = and_then b (purge_workers b now s) (serve n)

  unfoldable pub join_service : ℕ → Option ℕ → Producer b → Producer b
  join_service w none s = s
  join_service w (some n) s =
      let v = s.services n in
      if elem w v.waiting
      then s
      else record s { services = update s.services n (record v { waiting = v.waiting ++ w ∷ [] }) }

  unfoldable pub join_waiting : ℕ → Producer b → Producer b
  join_waiting w s = if elem w s.waiting then s else record s { waiting = s.waiting ++ w ∷ [] }

  unfoldable pub reset_expiry : ℕ → ℕ → Producer b → Producer b
  reset_expiry now w s = record s {
    timeouts = update s.timeouts (s.objects w).timeout (now + worker_timeout);
  }

  -- `worker_waiting` up to its call of `dispatch`.
  unfoldable pub mark_waiting : ℕ → ℕ → Producer b → Producer b
  unfolding join_service join_waiting reset_expiry update_consumer_state
  mark_waiting now w s =
      let s1 = join_waiting w s in
      let s2 = join_service w (s1.objects w).service s1 in
      let s3 = reset_expiry now w s2 in
      update_consumer_state b (s3.objects w).syft_worker_id idle s3

  unfoldable pub worker_waiting : ℕ → ℕ → Producer b → Outcome b
  worker_waiting now w s = let s1 = mark_waiting now w s in dispatch now (s1.objects w).service s1
