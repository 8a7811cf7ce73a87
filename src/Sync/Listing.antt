-- ===== src/Sync/Listing.antt =====
-- `ListDiff.from_lists` of service/sync/diff_state.py.
use py_syft.Prelude.{
  ℕ, zero, suc, ◌+◌, ◌-◌, ◌<◌, ◌≡◌, ◌↔◌, inl, inr, refl, sym, ◌∙◌, Bool, true, false, ◌&&◌, List,
  [], ◌∷◌, length, elem, ◌==◌, leb, ltb, if◌then◌else◌, Bool-cases, &&_parts, arith,
}
use py_syft.Sync.Objects.{range, is_nil, is_empty, diff_ids_from, from_lists}

elem-range : (i a n : ℕ) → elem i (range a n) ≡ leb a i && ltb i (a + n)
unfolding range
elem-range i a zero = ground arith
elem-range i a (suc n) = ground (arith, elem-range i (suc a) n)

is_nil-range : (a n : ℕ) → is_nil (range a n) ≡ (n == 0)
unfolding range
is_nil-range a zero = ground arith
is_nil-range a (suc n) = ground arith

module _ (equal : ℕ → ℕ → Bool) where
  -- Whether both lists have an index, with values that are not equal.
  abbrev pub differ_at : List ℕ → List ℕ → ℕ → Bool
  differ_at (x ∷ low_list) (y ∷ high_list) zero = if equal x y then false else true
  differ_at (x ∷ low_list) (y ∷ high_list) (suc i) = differ_at low_list high_list i
  differ_at low_list high_list i = false

  diff_ids_from-low :
      (k i : ℕ) (low_list high_list : List ℕ)
      → i < k
      → elem i (diff_ids_from equal k low_list high_list) ≡ false
  unfolding diff_ids_from
  diff_ids_from-low k i [] h b = refl
  diff_ids_from-low k i (x ∷ l) [] b = refl
  diff_ids_from-low k i (x ∷ l) (y ∷ h) b = ground (arith, diff_ids_from-low (suc k) i l h)

  elem-diff_ids_from :
      (k i j : ℕ) (low_list high_list : List ℕ)
      → j ≡ k + i
      → elem j (diff_ids_from equal k low_list high_list) ≡ differ_at low_list high_list i
  unfolding diff_ids_from
  elem-diff_ids_from k i j [] h e = refl
  elem-diff_ids_from k i j (x ∷ l) [] e = refl
  elem-diff_ids_from k zero j (x ∷ l) (y ∷ h) e = ground (arith, diff_ids_from-low (suc k) j l h)
  elem-diff_ids_from k (suc i) j (x ∷ l) (y ∷ h) e =
      let next : j ≡ suc k + i = omega (arith, e) in
      ground (arith, elem-diff_ids_from (suc k) i j l h next)

  -- `from_lists` lists exactly the indices at which both lists have values that are not equal, and
  -- those that one list has and the other has not.
  pub from_lists_lem :
      (low_list high_list : List ℕ) (i : ℕ)
      → (elem i (from_lists equal low_list high_list).diff_ids ≡ differ_at low_list high_list i)
        × (elem i (from_lists equal low_list high_list).new_low_ids
            ≡ leb (length high_list) i && ltb i (length low_list))
        × (elem i (from_lists equal low_list high_list).new_high_ids
            ≡ leb (length low_list) i && ltb i (length high_list))
  unfolding from_lists
  from_lists_lem l h i = (
    elem-diff_ids_from 0 i i l h (omega arith),
    ground (arith, elem-range i (length h) (length l - length h)),
    ground (arith, elem-range i (length l) (length h - length l)),
  )

  -- An index at which two values differ is one of both lists.
  pub differ_at-lt :
      (low_list high_list : List ℕ) (i : ℕ)
      → differ_at low_list high_list i ≡ true
      → (i < length low_list) × (i < length high_list)
  differ_at-lt [] h i d = absurd (ground arith)
  differ_at-lt (x ∷ l) [] zero d = absurd (ground arith)
  differ_at-lt (x ∷ l) [] (suc i) d = absurd (ground arith)
  differ_at-lt (x ∷ l) (y ∷ h) zero d = ground arith
  differ_at-lt (x ∷ l) (y ∷ h) (suc i) d = ground (arith, differ_at-lt l h i d)

  is_nil-same :
      (k : ℕ) (l h : List ℕ)
      → ((x y : ℕ) → (equal x y ≡ true) ↔ (x ≡ y))
      → length l ≡ length h
      → is_nil (diff_ids_from equal k l h) ≡ true
      → l ≡ h
  unfolding diff_ids_from
  is_nil-same k [] [] q n e = refl
  is_nil-same k [] (y ∷ h) q n e = absurd (ground arith)
  is_nil-same k (x ∷ l) [] q n e = absurd (ground arith)
  is_nil-same k (x ∷ l) (y ∷ h) q n e = elim (Bool-cases (equal x y)) [
    | inl m ↦
        let at : x ≡ y = (q x y).0 m in
        let rest : l ≡ h = is_nil-same (suc k) l h q (omega (arith, n)) (sym (rw m refl) ∙ e) in cc
    | inr m ↦ absurd (ground arith)
  ]

  is_nil_refl :
      (k : ℕ) (l : List ℕ)
      → ((x y : ℕ) → (equal x y ≡ true) ↔ (x ≡ y))
      → is_nil (diff_ids_from equal k l l) ≡ true
  unfolding diff_ids_from
  is_nil_refl k [] q = refl
  is_nil_refl k (x ∷ l) q = rw ((q x x).1 refl) (is_nil_refl (suc k) l q)

  -- Where `equal` decides equality, there is no difference exactly where the lists are equal.
  pub is_empty-from_lists :
      (low_list high_list : List ℕ)
      → ((x y : ℕ) → (equal x y ≡ true) ↔ (x ≡ y))
      → (is_empty (from_lists equal low_list high_list) ≡ true) ↔ (low_list ≡ high_list)
  unfolding from_lists is_empty
  is_empty-from_lists l h q = (to, from)
    where
      to : is_empty (from_lists equal l h) ≡ true → l ≡ h
      to e =
          let d = from_lists equal l h in
          let (a, b) =
            &&_parts (is_nil d.diff_ids) (is_nil d.new_low_ids && is_nil d.new_high_ids) e in
          let (b', c) = &&_parts (is_nil d.new_low_ids) (is_nil d.new_high_ids) b in
          is_nil-same 0 l h q
            (ground (
              arith,
              b',
              c,
              is_nil-range (length h) (length l - length h),
              is_nil-range (length l) (length h - length l),
            ))
            a

      from : l ≡ h → is_empty (from_lists equal l h) ≡ true
      from e =
          rw e (ground (arith, is_nil_refl 0 h q, is_nil-range (length h) (length h - length h)))
