-- ===== src/Project/Chain.antt =====
-- What a valid log says of its events (project.py).
use py_syft.Prelude.{
  ℕ, ◌≡◌, refl, sym, ap, ◌∙◌, Bool, true, false, not, Option, none, some, List, [], ◌∷◌, length,
  map, arith, ◌⊎◌, inl, inr, Bool-cases,
}
use py_syft.Prelude.Result.{Result, ok, err, raise_if, ◌>>◌}
use py_syft.Project.Deciding.{true-false, some-injective, hashed_eq?}
use py_syft.Project.Log.{
  Hashed, Crypto, ProjectError, Event, Project, same_hash, hashed, create_project_event_hash,
  prev_hash, check_signature, valid, check_parent, valid_descendant, validate_from, validate_events,
}

pub then-ok : (m n : Result ProjectError (Unit {0})) → (m >> n) ≡ ok tt → (m ≡ ok tt) × (n ≡ ok tt)
then-ok (ok tt) n h = (refl, h)
then-ok (err x) n h = ground arith

raise_if-ok : (t : Bool) (x : ProjectError) → raise_if (not t) x ≡ ok tt → t ≡ true
raise_if-ok true x h = refl
raise_if-ok false x h = ground arith

module _ (c : Crypto) where
  same_hash-eq : (a b : Option c.Digest) → same_hash c a b ≡ true → a ≡ b
  same_hash-eq none none h = refl
  same_hash-eq (some a) (some b) h = ap some ((c.digest_eq_iff a b).0 h)
  same_hash-eq none (some b) h = ground arith
  same_hash-eq (some a) none h = ground arith

  digest_eq? : (a b : c.Digest) → Dec (a ≡ b)
  digest_eq? a b = elim (Bool-cases (c.digest_eq a b)) [
    | inl t ↦ yes ((c.digest_eq_iff a b).0 t)
    | inr f ↦ no (λ e. true-false ((c.digest_eq_iff a b).1 e) f)
  ]

  -- The hash of a valid event is the hash of its fields.
  valid-hash :
      (e : Event c) (s k : Option ℕ)
      → check_signature c e s k ≡ ok tt
      → some (create_project_event_hash c e) ≡ e.event_hash
  unfolding check_signature
  valid-hash e none k h = ground arith
  valid-hash e (some s) none h = ground arith
  valid-hash e (some s) (some k) h =
      same_hash-eq (some (create_project_event_hash c e)) e.event_hash
        (raise_if-ok _ _ (then-ok _ _ h).0)

  -- What `valid_descendant` says of an event and the one before it.
  valid_descendant-ok :
      (p : Project c) (prev : Option (Event c)) (e : Event c)
      → valid_descendant c p prev e ≡ ok tt
      → (some (create_project_event_hash c e) ≡ e.event_hash)
        × (e.prev_event_hash ≡ prev_hash c p prev)
  unfolding valid_descendant valid
  valid_descendant-ok p prev e h =
      let (h1, _) = then-ok _ (check_parent c p e e.parent_event_id) h in
      let (h2, _) = then-ok _ (raise_if _ _) h1 in
      let (h3, _) = then-ok _ (raise_if _ _) h2 in
      let (h4, b) = then-ok _ (raise_if _ _) h3 in
      let (a, _) = then-ok (valid c e) (raise_if _ _) h4 in
      (
        valid-hash e e.signature e.creator_verify_key a,
        same_hash-eq e.prev_event_hash (prev_hash c p prev) (raise_if-ok _ _ b),
      )

  -- The hash behind which the log goes on.
  abbrev pub head_from : Option c.Digest → List (Event c) → Option c.Digest
  head_from d [] = d
  head_from d (e ∷ l) = head_from e.event_hash l

  -- Two events at the same position differ in a hashed field and have the same hash.
  abbrev pub Collide : List (Event c) → List (Event c) → Type 0
  Collide [] l' = ⊥
  Collide (e ∷ l) [] = ⊥
  Collide (e ∷ l) (e' ∷ l') =
      ((create_project_event_hash c e ≡ create_project_event_hash c e')
        × ¬ (hashed c e ≡ hashed c e'))
      ⊎ Collide l l'

  -- Two valid ends of logs with the same last hash agree, but for a collision.
  validate_from-agree :
      (p q : Project c) (prev prev' : Option (Event c)) (l l' : List (Event c))
      → validate_from c p prev l ≡ ok tt
      → validate_from c q prev' l' ≡ ok tt
      → length l ≡ length l'
      → head_from (prev_hash c p prev) l ≡ head_from (prev_hash c q prev') l'
      → ((prev_hash c p prev ≡ prev_hash c q prev') × (map (hashed c) l ≡ map (hashed c) l'))
        ⊎ Collide l l'
  unfolding validate_from
  validate_from-agree p q prev prev' [] [] v v' n h = inl (h, refl)
  validate_from-agree p q prev prev' [] (e' ∷ l') v v' n h = ground arith
  validate_from-agree p q prev prev' (e ∷ l) [] v v' n h = ground arith
  validate_from-agree p q prev prev' (e ∷ l) (e' ∷ l') v v' n h =
      let (d, rest) = then-ok _ _ v in
      let (d', rest') = then-ok _ _ v' in
      let (own, before) = valid_descendant-ok p prev e d in
      let (own', before') = valid_descendant-ok q prev' e' d' in
      elim (validate_from-agree p q (some e) (some e') l l' rest rest' (omega arith) h) [
        | inr collision ↦ inr (inr collision)
        | inl (same_own, tails) ↦ elim (hashed_eq? c.Digest digest_eq? (hashed c e) (hashed c e')) [
          | yes fields ↦
              inl
                (sym before ∙ ap (λ (x : Hashed c.Digest). x.prev_event_hash) fields ∙ before', cc)
          | no differ ↦ inr (inl (some-injective (own ∙ same_own ∙ sym own'), differ))
        ]
      ]

  -- Two valid logs that have the same length and end in the same hash agree in every hashed field of
  -- every event, and in the hash that they start from; or else two of their events, at the same
  -- position, collide: they differ in a hashed field and have the same hash.
  pub validate_events-agree :
      (p q : Project c)
      → validate_events c p ≡ ok tt
      → validate_events c q ≡ ok tt
      → length p.events ≡ length q.events
      → head_from p.start_hash p.events ≡ head_from q.start_hash q.events
      → ((p.start_hash ≡ q.start_hash) × (map (hashed c) p.events ≡ map (hashed c) q.events))
        ⊎ Collide p.events q.events
  unfolding validate_events
  validate_events-agree p q v v' n h = validate_from-agree p q none none p.events q.events v v' n h
