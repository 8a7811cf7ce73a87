-- ===== src/Project/Growing.antt =====
-- Events that `rebase` and `sign` prepare, behind a log (project.py).
use py_syft.Prelude.{
  ℕ, ◌+◌, ◌≡◌, refl, Bool, true, false, not, Option, none, some, List, [], ◌∷◌, ◌++◌, ◌==◌, ==_refl,
  inl, inr, Bool-cases, Option-cases, arith,
}
use py_syft.Prelude.Result.{Result, ok, raise_if, ◌>>◌}
use py_syft.Project.Log.{
  Crypto, ProjectError, Event, Project, same_hash, hashed, create_project_event_hash, prev_id,
  prev_hash, prev_seq_no, wrong_number, check_signature, valid, check_parent, valid_descendant,
  validate_from, validate_events, last_event, numbered, with_number, number_after, next_seq_no,
  rebase, sign_event, find_event, put_event, append_event,
}
use py_syft.Project.Service.{has_event}
use py_syft.Project.Chain.{then-ok}

both-ok : {m n : Result ProjectError (Unit {0})} → m ≡ ok tt → n ≡ ok tt → (m >> n) ≡ ok tt
both-ok h g = rw h g

raise_if-true : {t : Bool} (x : ProjectError) → t ≡ true → raise_if (not t) x ≡ ok tt
raise_if-true x h = rw h refl

module _ (c : Crypto) where
  digest_eq_refl : (d : c.Digest) → c.digest_eq d d ≡ true
  digest_eq_refl d = (c.digest_eq_iff d d).1 refl

  same_hash_refl : (d : Option c.Digest) → same_hash c d d ≡ true
  same_hash_refl none = refl
  same_hash_refl (some d) = digest_eq_refl d

  -- The event that the signing key signs, behind a last event that has a number.
  abbrev pub prepared : ℕ → Project c → Event c → Event c
  prepared k p e =
      let e0 = rebase c p (record e { creator_verify_key = some (c.verify_key k) }) in
      record e0 {
        event_hash = some (create_project_event_hash c e0);
        signature = some (c.sign k (create_project_event_hash c e0));
      }

  pub sign-prepared :
      (k : ℕ) (p : Project c) (e : Event c)
      → sign_event c k (rebase c p (record e { creator_verify_key = some (c.verify_key k) }))
        ≡ ok (prepared k p e)
  unfolding sign_event rebase
  sign-prepared k p e = rw (==_refl (c.verify_key k)) refl

  prepared-valid : (k : ℕ) (p : Project c) (e : Event c) → valid c (prepared k p e) ≡ ok tt
  unfolding valid check_signature rebase create_project_event_hash
  prepared-valid k p e =
      rw (digest_eq_refl (c.hash (hashed c (prepared k p e))))
        (rw (c.verify-sign k (c.hash (hashed c (prepared k p e)))) refl)

  -- The number of the next event is one more, where the last event has a number.
  number-right :
      (f : Event c) (n : Option ℕ)
      → with_number c f n ≡ some f
      → wrong_number c n (some (number_after c n)) ≡ false
  number-right f none h = ground arith
  number-right f (some n) h = rw (==_refl (n + 1)) refl

  next-right :
      (prev : Option (Event c))
      → numbered c prev ≡ prev
      → wrong_number c (prev_seq_no c prev) (some (next_seq_no c prev)) ≡ false
  next-right none h = refl
  next-right (some f) h = number-right f f.seq_no h

  pub prepared-descends :
      (k : ℕ) (p : Project c) (e : Event c)
      → numbered c (last_event c p.events) ≡ last_event c p.events
      → e.parent_event_id ≡ none
      → valid_descendant c p (last_event c p.events) (prepared k p e) ≡ ok tt
  unfolding valid_descendant rebase check_parent
  prepared-descends k p e h n =
      both-ok
        (both-ok
          (both-ok
            (both-ok
              (both-ok (prepared-valid k p e)
                (raise_if-true _ (rw h (==_refl (prev_id c p (last_event c p.events))))))
              (raise_if-true _ (rw h (same_hash_refl (prev_hash c p (last_event c p.events))))))
            (rw h (rw (next-right (last_event c p.events) h) refl)))
          (raise_if-true _ (==_refl p.id)))
        (rw n refl)

  find-put :
      (i : ℕ) (x f : Event c) (l : List (Event c))
      → has_event c x.id l ≡ false
      → find_event c i l ≡ some f
      → find_event c i (put_event c x l) ≡ some f
  find-put i x f [] h g = ground arith
  find-put i x f (y ∷ l) h g = elim (Bool-cases (y.id == x.id)) [
    | inl t ↦ ground (arith, t)
    | inr t ↦ rw t (elim (Bool-cases (y.id == i)) [
      | inl u ↦ rw u (rw u at g)
      | inr u ↦ rw u (find-put i x f l (rw t at h) (rw u at g))
    ])
  ]

  -- Parents are found in a larger map as well.
  check_parent-grows :
      (p : Project c) (x e : Event c) (o : Option ℕ)
      → has_event c x.id p.event_id_hashmap ≡ false
      → check_parent c p e o ≡ ok tt
      → check_parent c (append_event c x p) e o ≡ ok tt
  unfolding check_parent
  check_parent-grows p x e none h g = refl
  check_parent-grows p x e (some i) h g = elim (Option-cases (find_event c i p.event_id_hashmap)) [
    | inl z ↦ let bad = rw z at g in ground arith
    | inr (f, z) ↦ rw (find-put i x f p.event_id_hashmap h z) (rw z at g)
  ]

  descends-grows :
      (p : Project c) (x : Event c) (prev : Option (Event c)) (e : Event c)
      → has_event c x.id p.event_id_hashmap ≡ false
      → valid_descendant c p prev e ≡ ok tt
      → valid_descendant c (append_event c x p) prev e ≡ ok tt
  unfolding valid_descendant
  descends-grows p x none e h g =
      let (first, parents) = then-ok _ (check_parent c p e e.parent_event_id) g in
      both-ok first (check_parent-grows p x e e.parent_event_id h parents)
  descends-grows p x (some f) e h g =
      let (first, parents) = then-ok _ (check_parent c p e e.parent_event_id) g in
      both-ok first (check_parent-grows p x e e.parent_event_id h parents)

  abbrev last_from : Option (Event c) → List (Event c) → Option (Event c)
  last_from prev [] = prev
  last_from prev (e ∷ l) = last_from (some e) l

  last_from-last : (e : Event c) (l : List (Event c)) → last_from (some e) l ≡ last_event c (e ∷ l)
  last_from-last e [] = refl
  last_from-last e (f ∷ l) = last_from-last f l

  validate_from-grows :
      (p : Project c) (x : Event c) (prev : Option (Event c)) (l : List (Event c))
      → has_event c x.id p.event_id_hashmap ≡ false
      → validate_from c p prev l ≡ ok tt
      → valid_descendant c p (last_from prev l) x ≡ ok tt
      → validate_from c (append_event c x p) prev (l ++ x ∷ []) ≡ ok tt
  unfolding validate_from
  validate_from-grows p x prev [] h v d = both-ok (descends-grows p x prev x h d) refl
  validate_from-grows p x prev (e ∷ l) h v d =
      let (first, rest) = then-ok _ _ v in
      both-ok (descends-grows p x prev e h first) (validate_from-grows p x (some e) l h rest d)

  append_event-valid :
      (p : Project c) (x : Event c) (l : List (Event c))
      → p.events ≡ l
      → has_event c x.id p.event_id_hashmap ≡ false
      → validate_from c p none l ≡ ok tt
      → valid_descendant c p (last_event c l) x ≡ ok tt
      → validate_from c (append_event c x p) none (l ++ x ∷ []) ≡ ok tt
  append_event-valid p x [] g h v d = validate_from-grows p x none [] h v d
  append_event-valid p x (e ∷ l) g h v d =
      validate_from-grows p x none (e ∷ l) h v (rw (last_from-last e l) d)

  pub prepared-validates :
      (k : ℕ) (p : Project c) (e : Event c)
      → validate_events c p ≡ ok tt
      → numbered c (last_event c p.events) ≡ last_event c p.events
      → e.parent_event_id ≡ none
      → has_event c e.id p.event_id_hashmap ≡ false
      → validate_events c (append_event c (prepared k p e) p) ≡ ok tt
  unfolding validate_events rebase
  prepared-validates k p e v h n i =
      append_event-valid p (prepared k p e) p.events refl i v (prepared-descends k p e h n)
