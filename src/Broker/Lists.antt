-- ===== src/Broker/Lists.antt =====
-- The invariant that ties the lists of the broker together: `self.waiting`, each `service.waiting`
-- and the keys of `self.workers` (zmq_producer.py).
use py_syft.Prelude.{
  ℕ, ◌≤◌, ◌<◌, ◌≡◌, Bool, true, false, Option, none, some, List, [], ◌∷◌, ◌++◌, refl, ap, if_both,
  ◌==◌, if◌then◌else◌, elem, count,
}
use py_syft.Broker.State.{Backend, Producer, Sent, request, heartbeat, disconnect}
use py_syft.Broker.Purging.{send_to_worker}

-- The messages among what was sent, in the order of sending.
abbrev pub requests_sent : List Sent → List ℕ
requests_sent [] = []
requests_sent (request w m ∷ l) = m ∷ requests_sent l
requests_sent (_ ∷ l) = requests_sent l

pub requests_sent-append :
    (l k : List Sent) → requests_sent (l ++ k) ≡ requests_sent l ++ requests_sent k
requests_sent-append [] k = refl
requests_sent-append (request w m ∷ l) k = ap (λ (r : List ℕ). m ∷ r) (requests_sent-append l k)
requests_sent-append (heartbeat w ∷ l) k = requests_sent-append l k
requests_sent-append (disconnect w ∷ l) k = requests_sent-append l k

abbrev pub is_service : Option ℕ → ℕ → Bool
is_service none n = false
is_service (some m) n = m == n

module _ (b : Backend) where
  -- The service of a worker is the one that is named.
  abbrev pub serves : Producer b → ℕ → ℕ → Bool
  serves s w n = is_service (s.objects w).service n

  -- No worker waits twice, and each waits for its own service exactly if it waits at all; who waits
  -- is a known worker; the service of a worker has a name, and one without a name holds no worker.
  pub record IsConsistent (s : Producer b) : Type 0 where
    pub once : (w : ℕ) → count w s.waiting ≤ 1
    pub listed :
        (w n : ℕ) → count w (s.services n).waiting ≡ (if serves s w n then count w s.waiting else 0)
    pub are_known : (w : ℕ) → 0 < count w s.waiting → s.known w ≡ true
    pub unnamed : (w n : ℕ) → elem n s.names ≡ false → count w (s.services n).waiting ≡ 0
    pub named : (w n : ℕ) → serves s w n ≡ true → elem n s.names ≡ true

  -- What is sent is no part of the lists.
  pub IsConsistent-sent :
      (s : Producer b) (l : List Sent) → IsConsistent s → IsConsistent (record s { sent = l })
  IsConsistent-sent s l h = record {
    once = h.once;
    listed = h.listed;
    are_known = h.are_known;
    unnamed = h.unnamed;
    named = h.named;
  }

  pub IsConsistent-send :
      (m : Sent) (s : Producer b) → IsConsistent s → IsConsistent (send_to_worker b m s)
  unfolding send_to_worker
  IsConsistent-send m s h = if_both IsConsistent s.closed h (IsConsistent-sent s _ h)
