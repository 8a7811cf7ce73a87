-- ===== src/Broker/Delete.antt =====
-- `delete_worker` of zmq_producer.py takes a worker out of every list.
use py_syft.Prelude.{
  ℕ, ◌-◌, ◌≡◌, [], ◌∷◌, Bool, false, ◌&&◌, arith, ◌==◌, ==_iff, if◌then◌else◌, elem, remove, count,
  count-remove, elem_iff,
}
use py_syft.Broker.State.{disconnect, Backend, Producer}
use py_syft.Broker.Purging.{delete_worker}
use py_syft.Broker.Lists.{serves, IsConsistent, requests_sent, requests_sent-append}
use mathlib.Core.List.{append-nil}

module _ (b : Backend) where
  pub waiting-delete :
      (w : ℕ) (d : Bool) (s : Producer b) (j : ℕ)
      → count j (delete_worker b w d s).waiting
        ≡ (if w == j then count j s.waiting - 1 else count j s.waiting)
  unfolding delete_worker
  waiting-delete w d s j = ground (arith, count-remove j w s.waiting, elem_iff w s.waiting)

  pub list-delete :
      (w : ℕ) (d : Bool) (s : Producer b)
      → (delete_worker b w d s).waiting
        ≡ (if elem w s.waiting then remove w s.waiting else s.waiting)
  unfolding delete_worker
  list-delete w d s = ground arith

  pub service_waiting-delete :
      (w : ℕ) (d : Bool) (s : Producer b) (j n : ℕ)
      → count j ((delete_worker b w d s).services n).waiting ≡ (
          if (w == j) && serves b s w n
          then count j (s.services n).waiting - 1
          else count j (s.services n).waiting)
  unfolding delete_worker
  service_waiting-delete w d s j n =
      ground (arith, count-remove j w (s.services n).waiting, elem_iff w (s.services n).waiting)

  pub known-delete :
      (w : ℕ) (d : Bool) (s : Producer b) (j : ℕ)
      → (delete_worker b w d s).known j ≡ (if w == j then false else s.known j)
  unfolding delete_worker
  known-delete w d s j = ground arith

  pub objects-delete :
      (w : ℕ) (d : Bool) (s : Producer b) → (delete_worker b w d s).objects ≡ s.objects
  unfolding delete_worker
  objects-delete w d s = ground arith

  pub names-delete : (w : ℕ) (d : Bool) (s : Producer b) → (delete_worker b w d s).names ≡ s.names
  unfolding delete_worker
  names-delete w d s = ground arith

  pub requests-delete :
      (w : ℕ) (d : Bool) (s : Producer b) (n : ℕ)
      → ((delete_worker b w d s).services n).requests ≡ (s.services n).requests
  unfolding delete_worker
  requests-delete w d s n = ground arith

  pub timeouts-delete :
      (w : ℕ) (d : Bool) (s : Producer b) → (delete_worker b w d s).timeouts ≡ s.timeouts
  unfolding delete_worker
  timeouts-delete w d s = ground arith

  pub closed-delete :
      (w : ℕ) (d : Bool) (s : Producer b) → (delete_worker b w d s).closed ≡ s.closed
  unfolding delete_worker
  closed-delete w d s = ground arith

  -- A deletion sends no request.
  pub requests_sent-delete :
      (w : ℕ) (d : Bool) (s : Producer b)
      → requests_sent (delete_worker b w d s).sent ≡ requests_sent s.sent
  unfolding delete_worker
  requests_sent-delete w d s =
      ground
        (arith, requests_sent-append s.sent (disconnect w ∷ []), append-nil (requests_sent s.sent))

  -- `delete_worker` keeps the lists consistent.
  pub delete_worker-IsConsistent :
      (w : ℕ) (d : Bool) (s : Producer b)
      → IsConsistent b s
      → IsConsistent b (delete_worker b w d s)
  delete_worker-IsConsistent w d s h = record {
    once = λ j. ground (arith, waiting-delete w d s j, h.once j);
    listed = λ j n.
        rw objects-delete
          (ground (arith, waiting-delete w d s j, service_waiting-delete w d s j n, h.listed j n));
    are_known = λ j pos.
        ground (arith, known-delete w d s j, waiting-delete w d s j, h.once j, h.are_known j);
    unnamed = λ j n e.
        ground (arith, names-delete w d s, service_waiting-delete w d s j n, h.unnamed j n);
    named = λ j n. rw (objects-delete, names-delete) (h.named j n);
  }

  -- `delete_worker` takes the worker from `self.workers` and from every list of waiting workers, and
  -- leaves the entries of every other worker as they were.
  pub delete_worker_gone :
      (w : ℕ) (d : Bool) (s : Producer b) (j n : ℕ)
      → IsConsistent b s
      → let t = delete_worker b w d s in
        (t.known j ≡ (if w == j then false else s.known j))
        × (count j t.waiting ≡ (if w == j then 0 else count j s.waiting))
        × (count j (t.services n).waiting ≡ (if w == j then 0 else count j (s.services n).waiting))
  delete_worker_gone w d s j n h = (
    known-delete w d s j,
    ground (arith, waiting-delete w d s j, h.once j),
    ground
        (arith, service_waiting-delete w d s j n, h.listed j n, h.listed w n, h.once j, ==_iff w j),
  )
