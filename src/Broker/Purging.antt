-- ===== src/Broker/Purging.antt =====
-- `delete_worker` and `purge_workers` of zmq_producer.py.
use py_syft.Prelude.{
  ℕ, zero, suc, Bool, false, ◌||◌, Option, none, some, [], ◌∷◌, ◌++◌, leb, if◌then◌else◌, elem,
  remove, get_elem?, update, length,
}
use py_syft.Broker.State.{
  Backend, ConsumerState, Outcome, Producer, Sent, and_then, backend_error, detached, disconnect,
  done, raise_when,
}

module _ (b : Backend) where
  open b use {find, set_state, delete}

  unfoldable pub send_to_worker : Sent → Producer b → Producer b
  send_to_worker m s = if s.closed then s else record s { sent = s.sent ++ m ∷ [] }

  -- `update_consumer_state_for_worker`, which lets no exception out.
  unfoldable pub update_consumer_state : Option ℕ → ConsumerState → Producer b → Producer b
  update_consumer_state none c s = s
  update_consumer_state (some i) c s = record s { store = set_state s.store i c }

  unfoldable pub leave_service : ℕ → Option ℕ → Producer b → Producer b
  leave_service w none s = s
  leave_service w (some n) s =
      let v = s.services n in
      if elem w v.waiting
      then record s { services = update s.services n (record v { waiting = remove w v.waiting }) }
      else s

  unfoldable pub leave_waiting : ℕ → Producer b → Producer b
  leave_waiting w s = if elem w s.waiting then record s { waiting = remove w s.waiting } else s

  unfoldable pub delete_worker : ℕ → Bool → Producer b → Producer b
  unfolding send_to_worker leave_service leave_waiting update_consumer_state
  delete_worker w disc s =
      let s1 = if disc then send_to_worker (disconnect w) s else s in
      let s2 = leave_service w (s1.objects w).service s1 in
      let s3 = leave_waiting w s2 in
      let s4 = record s3 { known = update s3.known w false } in
      update_consumer_state (s4.objects w).syft_worker_id detached s4

  -- `Worker.has_expired`
  abbrev pub has_expired : ℕ → ℕ → Producer b → Bool
  has_expired now w s = leb (s.timeouts (s.objects w).timeout) now

  -- The tail of one round of `purge_workers`.
  unfoldable pub delete_expired : ℕ → Bool → Producer b → Outcome b
  delete_expired w marked s =
      let s1 = delete_worker w marked s in
      let (store', failed) = delete s1.store (s1.objects w).syft_worker_id in
      let s2 = record s1 { store = store' } in raise_when b failed backend_error s2

  unfoldable pub purge_found : ℕ → ℕ → Option Bool → Producer b → Outcome b
  purge_found now w none s = done s
  purge_found now w (some marked) s =
      if has_expired now w s || marked then delete_expired w marked s else done s

  -- One round of the loop of `purge_workers`.
  unfoldable pub purge_worker : ℕ → ℕ → Producer b → Outcome b
  unfolding purge_found
  purge_worker now w s = purge_found now w (find s.store (s.objects w).syft_worker_id) s

  -- `for worker in self.waiting`, by position, over the list as the rounds before left it.
  unfoldable pub purge_from : ℕ → ℕ → ℕ → Producer b → Outcome b
  purge_from now zero i s = done s
  purge_from now (suc rounds) i s = elim (get_elem? s.waiting i) [
    | none ↦ done s
    | some w ↦ and_then b (purge_worker now w s) (purge_from now rounds (suc i))
  ]

  unfoldable pub purge_workers : ℕ → Producer b → Outcome b
  purge_workers now s = purge_from now (length s.waiting) 0 s
