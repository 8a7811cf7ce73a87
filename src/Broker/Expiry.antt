-- ===== src/Broker/Expiry.antt =====
-- Which workers `purge_workers` of zmq_producer.py removes, and which it misses.
use py_syft.Prelude.{
  ℕ, zero, suc, ◌<◌, ◌≤◌, ◌≡◌, ◌≢◌, ◌∙◌, refl, ap, Bool, true, false, ◌||◌, Option, none, some,
  List, ◌∷◌, arith, leb, ◌==◌, ==_iff, if◌then◌else◌, Bool-cases, Option-cases, elem, remove, count,
  get_elem?, get_elem?→count, inl, inr, length, count-cons,
}
use py_syft.Broker.State.{
  Backend, Producer, Outcome, done, raised, final, and_then, raise_when, backend_error,
}
use py_syft.Broker.Purging.{
  delete_worker, delete_expired, purge_worker, purge_found, purge_from, purge_workers, has_expired,
}
use py_syft.Broker.Lists.{IsConsistent}
use py_syft.Broker.Delete.{
  list-delete, waiting-delete, service_waiting-delete, known-delete, objects-delete,
  timeouts-delete, delete_worker-IsConsistent,
}
use py_syft.Broker.Purge.{
  purge_worker_keeps, purge_workers_keeps, final-and_then, final-raise_when, IsConsistent-store,
}

module _ (b : Backend) where
  -- A method that raises nothing but what `WorkerService._delete` raised.
  abbrev pub RaisesBackend : Outcome b → Type 0
  RaisesBackend (done s) = Unit
  RaisesBackend (raised e s) = e ≡ backend_error

  pub RaisesBackend-and_then :
      (o : Outcome b) (f : Producer b → Outcome b)
      → RaisesBackend o
      → ((s : Producer b) → o ≡ done s → RaisesBackend (f s))
      → RaisesBackend (and_then b o f)
  RaisesBackend-and_then (done s) f h k = k s refl
  RaisesBackend-and_then (raised e s) f h k = h

  RaisesBackend-raise_when :
      (c : Bool) (s : Producer b) → RaisesBackend (raise_when b c backend_error s)
  RaisesBackend-raise_when true s = refl
  RaisesBackend-raise_when false s = tt

  RaisesBackend-purge_found :
      (now w : ℕ) (o : Option Bool) (s : Producer b) → RaisesBackend (purge_found b now w o s)
  unfolding purge_found delete_expired
  RaisesBackend-purge_found now w none s = tt
  RaisesBackend-purge_found now w (some m) s = elim (Bool-cases (has_expired b now w s || m)) [
    | inl e ↦ rw e (RaisesBackend-raise_when _ _)
    | inr e ↦ rw e tt
  ]

  RaisesBackend-purge_from :
      (now rounds i : ℕ) (s : Producer b) → RaisesBackend (purge_from b now rounds i s)
  unfolding purge_from
  RaisesBackend-purge_from now zero i s = tt
  RaisesBackend-purge_from now (suc rounds) i s = elim (Option-cases (get_elem? s.waiting i)) [
    | inl e ↦ rw (e, purge_from) tt
    | inr (w, e) ↦
        rw (e, purge_from)
          (RaisesBackend-and_then (purge_worker b now w s) (purge_from b now rounds (suc i))
            (unfold purge_worker in RaisesBackend-purge_found now w _ s)
            (λ t _. RaisesBackend-purge_from now rounds (suc i) t))
  ]

  pub RaisesBackend-purge_workers :
      (now : ℕ) (s : Producer b) → RaisesBackend (purge_workers b now s)
  unfolding purge_workers
  RaisesBackend-purge_workers now s = RaisesBackend-purge_from now (length s.waiting) 0 s

  -- The entries of one worker, and what its expiry is read from, are as they were.
  record Kept (s : Producer b) (j : ℕ) (t : Producer b) : Type 0 where
    objects : t.objects ≡ s.objects
    timeouts : t.timeouts ≡ s.timeouts
    known : t.known j ≡ s.known j
    waiting : count j t.waiting ≡ count j s.waiting
    listed : (n : ℕ) → count j (t.services n).waiting ≡ count j (s.services n).waiting

  Kept-delete :
      (s : Producer b) (j w : ℕ) (m : Bool) (t : Producer b)
      → (w == j) ≡ false
      → Kept s j t
      → Kept s j (delete_worker b w m t)
  Kept-delete s j w m t ne h = record {
    objects = objects-delete b w m t ∙ h.objects;
    timeouts = timeouts-delete b w m t ∙ h.timeouts;
    known = ground (arith, known-delete b w m t j, h.known);
    waiting = ground (arith, waiting-delete b w m t j, h.waiting);
    listed = λ n. ground (arith, service_waiting-delete b w m t j n, h.listed n);
  }

  not_purged :
      (now : ℕ) (s : Producer b) (j : ℕ) (m : Bool) (t : Producer b)
      → has_expired b now j s ≡ false
      → ((st : b.Store) → b.find st (s.objects j).syft_worker_id ≢ some true)
      → Kept s j t
      → b.find t.store (t.objects j).syft_worker_id ≡ some m
      → (has_expired b now j t || m) ≡ true
      → ⊥
  not_purged now s j true t live unmarked h e x = unmarked t.store (rw h.objects at e)
  not_purged now s j false t live unmarked h e x =
      let same : has_expired b now j t ≡ has_expired b now j s =
        λ i. leb (h.timeouts i (h.objects i j).timeout) now in
      ground arith

  -- A worker that has not expired, and that the worker table at no time marks for deletion, is as
  -- much in every list after the purge as before.
  pub purge_workers_keeps_live :
      (now : ℕ) (s : Producer b) (j n : ℕ)
      → has_expired b now j s ≡ false
      → ((st : b.Store) → b.find st (s.objects j).syft_worker_id ≢ some true)
      → let t = final b (purge_workers b now s) in
        (t.known j ≡ s.known j)
        × (count j t.waiting ≡ count j s.waiting)
        × (count j (t.services n).waiting ≡ count j (s.services n).waiting)
  purge_workers_keeps_live now s j n live unmarked =
      let k : Kept s j (final b (purge_workers b now s)) =
        purge_workers_keeps b now (Kept s j)
          (λ w m t h e x. elim (Bool-cases (w == j)) [
            | inr ne ↦ Kept-delete s j w m t ne h
            | inl p ↦
                let q : w ≡ j = (==_iff w j).0 p in
                absurd (not_purged now s j m t live unmarked h (rw q at e) (rw q at x))
          ])
          (λ t st h. record {
            objects = h.objects;
            timeouts = h.timeouts;
            known = h.known;
            waiting = h.waiting;
            listed = h.listed;
          })
          s
          (record {
            objects = refl;
            timeouts = refl;
            known = refl;
            waiting = refl;
            listed = λ n. refl;
          }) in
      (k.known, k.waiting, k.listed n)

  -- The list of waiting workers begins with the worker.
  abbrev pub Leads : ℕ → List ℕ → Type 0
  Leads c xs = (r : List ℕ) × (xs ≡ c ∷ r)

  Leads-remove :
      (c w : ℕ) (xs : List ℕ)
      → (w == c) ≡ false
      → Leads c xs
      → Leads c (if elem w xs then remove w xs else xs)
  unfolding remove
  Leads-remove c w xs ne (r, e) = rw e (elim (Bool-cases (elem w r)) [
    | inl m ↦ (remove w r, ground arith)
    | inr m ↦ (r, ground arith)
  ])

  -- What the purge does to the rest of the list while `c` stands first and has been passed.
  record Passed (c : ℕ) (t : Producer b) : Type 0 where
    consistent : IsConsistent b t
    leads : Leads c t.waiting

  Passed-delete :
      (c w : ℕ) (m : Bool) (t : Producer b)
      → (w == c) ≡ false
      → Passed c t
      → Passed c (delete_worker b w m t)
  Passed-delete c w m t ne h = record {
    consistent = delete_worker-IsConsistent b w m t h.consistent;
    leads = rw (list-delete b w m t) (Leads-remove c w t.waiting ne h.leads);
  }

  Passed-store :
      (c : ℕ) (t : Producer b) (st : b.Store) → Passed c t → Passed c (record t { store = st })
  Passed-store c t st h = record {
    consistent = IsConsistent-store b t st h.consistent;
    leads = h.leads;
  }

  later_differs :
      (c w i : ℕ) (xs : List ℕ)
      → count c xs ≤ 1
      → Leads c xs
      → get_elem? xs (suc i) ≡ some w
      → (w == c) ≡ false
  later_differs c w i xs once (r, e) g = elim (Bool-cases (w == c)) [
    | inr ne ↦ ne
    | inl p ↦
        let q : w ≡ c = (==_iff w c).0 p in
        let later : 0 < count w r = get_elem?→count r i (rw e at g) in
        absurd (ground (arith, count-cons c c r, rw e at once))
  ]

  Passed-purge_from :
      (now c rounds i : ℕ) (t : Producer b)
      → Passed c t
      → Passed c (final b (purge_from b now rounds (suc i) t))
  unfolding purge_from
  Passed-purge_from now c zero i t h = h
  Passed-purge_from now c (suc rounds) i t h = elim (Option-cases (get_elem? t.waiting (suc i))) [
    | inl e ↦ rw (e, purge_from) h
    | inr (w, e) ↦
        let ne : (w == c) ≡ false = later_differs c w i t.waiting (h.consistent.once c) h.leads e in
        rw (e, purge_from)
          (final-and_then b (Passed c) (purge_worker b now w t)
            (purge_from b now rounds (suc (suc i)))
            (purge_worker_keeps b now w (Passed c) (λ m u k _ _. Passed-delete c w m u ne k)
              (Passed-store c) t h)
            (λ u. Passed-purge_from now c rounds (suc i) u))
  ]

  first_deleted :
      (a c : ℕ) (m : Bool) (s : Producer b) (rest : List ℕ)
      → IsConsistent b s
      → s.waiting ≡ a ∷ c ∷ rest
      → Passed c (delete_worker b a m s)
  first_deleted a c m s rest h e = record {
    consistent = delete_worker-IsConsistent b a m s h;
    leads = rw (list-delete b a m s) (rw e (rest, (unfold remove in ground arith)));
  }

  first_round :
      (now a c : ℕ) (s : Producer b) (rest : List ℕ) (m : Bool)
      → IsConsistent b s
      → s.waiting ≡ a ∷ c ∷ rest
      → b.find s.store (s.objects a).syft_worker_id ≡ some m
      → (has_expired b now a s || m) ≡ true
      → Passed c (final b (purge_worker b now a s))
  unfolding purge_worker purge_found delete_expired
  first_round now a c s rest m h e f x =
      rw (f, purge_found)
        (rw x (
          final-raise_when b (Passed c) _ backend_error _
            (Passed-store c (delete_worker b a m s) _ (first_deleted a c m s rest h e))))

  -- The loop runs over the list that it shortens: where it deletes the first worker it does not look
  -- at the second, which stands first afterwards, whether it has expired or not.
  pub purge_workers_skips :
      (now : ℕ) (s : Producer b) (a c : ℕ) (rest : List ℕ) (m : Bool)
      → IsConsistent b s
      → s.waiting ≡ a ∷ c ∷ rest
      → b.find s.store (s.objects a).syft_worker_id ≡ some m
      → (has_expired b now a s || m) ≡ true
      → (r : List ℕ) × ((final b (purge_workers b now s)).waiting ≡ c ∷ r)
  unfolding purge_workers purge_from
  purge_workers_skips now s a c rest m h e f x =
      let run : Passed c (final b (purge_from b now (suc (suc (length rest))) 0 s)) =
        rw (e, purge_from)
          (final-and_then b (Passed c) (purge_worker b now a s)
            (purge_from b now (suc (length rest)) 1) (first_round now a c s rest m h e f x)
            (λ u. Passed-purge_from now c (suc (length rest)) 0 u)) in
      rw (ap length e) run.leads
