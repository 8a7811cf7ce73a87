-- ===== src/Broker/Purge.antt =====
-- `purge_workers` of zmq_producer.py.
use py_syft.Prelude.{
  ℕ, zero, suc, ◌≡◌, ◌∙◌, refl, Bool, true, false, ◌||◌, Option, none, some, Bool-cases,
  Option-cases, get_elem?, inl, inr, length,
}
use py_syft.Broker.State.{
  Backend, Producer, Outcome, done, raised, final, and_then, raise_when, Failure, backend_error,
}
use py_syft.Broker.Purging.{
  delete_worker, delete_expired, purge_worker, purge_found, purge_from, purge_workers, has_expired,
}
use py_syft.Broker.Lists.{IsConsistent, requests_sent}
use py_syft.Broker.Delete.{
  delete_worker-IsConsistent, objects-delete, names-delete, requests-delete, closed-delete,
  requests_sent-delete,
}

-- A property that the purge keeps if it survives the deletion of a worker that has expired or is
-- marked, and a change of the worker table.
module _ {ℓ} (b : Backend) (P : Producer b → Type ℓ) where
  pub final-and_then :
      (o : Outcome b) (f : Producer b → Outcome b)
      → P (final b o)
      → ((s : Producer b) → P s → P (final b (f s)))
      → P (final b (and_then b o f))
  final-and_then (done s) f h k = k s h
  final-and_then (raised e s) f h k = h

  pub final-raise_when :
      (c : Bool) (e : Failure) (s : Producer b) → P s → P (final b (raise_when b c e s))
  final-raise_when true e s h = h
  final-raise_when false e s h = h

module _ {ℓ} (b : Backend) (now w : ℕ) (P : Producer b → Type ℓ)
    (keep_delete : (m : Bool) (s : Producer b)
      → P s
      → b.find s.store (s.objects w).syft_worker_id ≡ some m
      → (has_expired b now w s || m) ≡ true
      → P (delete_worker b w m s))
    (keep_store : (s : Producer b) (st : b.Store) → P s → P (record s { store = st })) where
  purge_found_keeps :
      (o : Option Bool) (s : Producer b)
      → b.find s.store (s.objects w).syft_worker_id ≡ o
      → P s
      → P (final b (purge_found b now w o s))
  unfolding purge_found delete_expired
  purge_found_keeps none s e h = h
  purge_found_keeps (some m) s e h = elim (Bool-cases (has_expired b now w s || m)) [
    | inl x ↦ rw x (
        final-raise_when b P _ backend_error _
          (keep_store (delete_worker b w m s) _ (keep_delete m s h e x)))
    | inr x ↦ rw x h
  ]

  pub purge_worker_keeps : (s : Producer b) → P s → P (final b (purge_worker b now w s))
  unfolding purge_worker
  purge_worker_keeps s h = purge_found_keeps _ s refl h

module _ {ℓ} (b : Backend) (now : ℕ) (P : Producer b → Type ℓ)
    (keep_delete : (w : ℕ) (m : Bool) (s : Producer b)
      → P s
      → b.find s.store (s.objects w).syft_worker_id ≡ some m
      → (has_expired b now w s || m) ≡ true
      → P (delete_worker b w m s))
    (keep_store : (s : Producer b) (st : b.Store) → P s → P (record s { store = st })) where
  purge_from_keeps :
      (rounds i : ℕ) (s : Producer b) → P s → P (final b (purge_from b now rounds i s))
  unfolding purge_from
  purge_from_keeps zero i s h = h
  purge_from_keeps (suc rounds) i s h = elim (Option-cases (get_elem? s.waiting i)) [
    | inl e ↦ rw (e, purge_from) h
    | inr (w, e) ↦
        rw (e, purge_from)
          (final-and_then b P (purge_worker b now w s) (purge_from b now rounds (suc i))
            (purge_worker_keeps b now w P (keep_delete w) keep_store s h)
            (λ t. purge_from_keeps rounds (suc i) t))
  ]

  pub purge_workers_keeps : (s : Producer b) → P s → P (final b (purge_workers b now s))
  unfolding purge_workers
  purge_workers_keeps s h = purge_from_keeps (length s.waiting) 0 s h

module _ (b : Backend) where
  -- The worker table is no part of the lists.
  pub IsConsistent-store :
      (s : Producer b) (st : b.Store) → IsConsistent b s → IsConsistent b (record s { store = st })
  IsConsistent-store s st h = record {
    once = h.once;
    listed = h.listed;
    are_known = h.are_known;
    unnamed = h.unnamed;
    named = h.named;
  }

module _ (b : Backend) (now : ℕ) where
  pub purge_workers-IsConsistent :
      (s : Producer b) → IsConsistent b s → IsConsistent b (final b (purge_workers b now s))
  purge_workers-IsConsistent =
      purge_workers_keeps b now (IsConsistent b)
        (λ w m s h e x. delete_worker-IsConsistent b w m s h) (IsConsistent-store b)

  -- What the purge leaves alone: the objects, the services with their requests, the socket's state.
  pub record SameJobs (s t : Producer b) : Type 0 where
    pub objects : t.objects ≡ s.objects
    pub names : t.names ≡ s.names
    pub requests : (n : ℕ) → (t.services n).requests ≡ (s.services n).requests
    pub closed : t.closed ≡ s.closed
    pub sent : requests_sent t.sent ≡ requests_sent s.sent

  SameJobs-delete :
      (s : Producer b) (w : ℕ) (m : Bool) (t : Producer b)
      → SameJobs s t
      → SameJobs s (delete_worker b w m t)
  SameJobs-delete s w m t h = record {
    objects = objects-delete b w m t ∙ h.objects;
    names = names-delete b w m t ∙ h.names;
    requests = λ n. requests-delete b w m t n ∙ h.requests n;
    closed = closed-delete b w m t ∙ h.closed;
    sent = requests_sent-delete b w m t ∙ h.sent;
  }

  pub purge_workers-SameJobs : (s : Producer b) → SameJobs s (final b (purge_workers b now s))
  purge_workers-SameJobs s =
      purge_workers_keeps b now (SameJobs s) (λ w m t h e x. SameJobs-delete s w m t h)
        (λ t st h. record {
          objects = h.objects;
          names = h.names;
          requests = h.requests;
          closed = h.closed;
          sent = h.sent;
        })
        s
        (record { objects = refl; names = refl; requests = λ n. refl; closed = refl; sent = refl })
