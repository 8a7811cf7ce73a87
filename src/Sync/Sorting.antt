-- ===== src/Sync/Sorting.antt =====
-- That `_sort_batches` of service/sync/diff_state.py loses no batch.
use py_syft.Prelude.{
  ℕ, ◌+◌, ◌≡◌, inl, inr, refl, sym, ap, ◌∙◌, true, Option, none, some, List, [], ◌∷◌, ◌++◌, count,
  count-cons, count-nil, ◌==◌, if◌then◌else◌, Bool-cases, arith,
}
use py_syft.Prelude.Result.{Result, ok, err, Result-cases}
use py_syft.Sync.Objects.{DiffError}
use py_syft.Sync.Batch.{Shared, Batch, diff_at, get_dependencies}
use py_syft.Sync.Ignore.{roots}
use py_syft.Sync.Sort.{
  usercode_id, Groups, add_to_group, add_batch, Keyed, comes_before, insert, sort, batches_of,
  group_from, key_of, with_keys, sort_groups, sort_batches,
}

-- How often a root occurs.
abbrev pub occurs : ℕ → List Batch → ℕ
occurs r bs = count r (roots bs)

one : ℕ → Batch → ℕ
one r b = if b.root_id == r then 1 else 0

occurs-cons : (r : ℕ) (b : Batch) (bs : List Batch) → occurs r (b ∷ bs) ≡ one r b + occurs r bs
unfolding one
occurs-cons r b bs = ground (arith, count-cons r b.root_id (roots bs))

occurs-append : (r : ℕ) (bs cs : List Batch) → occurs r (bs ++ cs) ≡ occurs r bs + occurs r cs
occurs-append r [] cs = ground (arith, count-nil r)
occurs-append r (b ∷ bs) cs =
    ground (arith, occurs-cons r b (bs ++ cs), occurs-cons r b bs, occurs-append r bs cs)

occurs-snoc :
    (r : ℕ) (bs : List Batch) (b : Batch) → occurs r (bs ++ b ∷ []) ≡ occurs r bs + one r b
occurs-snoc r bs b = ground (arith, occurs-append r bs (b ∷ []), occurs-cons r b [], count-nil r)

in_groups : ℕ → Groups → ℕ
in_groups r [] = 0
in_groups r ((k, bs) ∷ groups) = occurs r bs + in_groups r groups

in_groups-add :
    (r k : ℕ) (b : Batch) (groups : Groups)
    → in_groups r (add_to_group k b groups) ≡ in_groups r groups + one r b
unfolding in_groups add_to_group
in_groups-add r k b [] = ground (arith, occurs-cons r b [], count-nil r)
in_groups-add r k b ((j, bs) ∷ groups) =
    ground (arith, occurs-snoc r bs b, in_groups-add r k b groups)

occurs-insert :
    (r : ℕ) (x : Keyed) (ys : List Keyed)
    → occurs r (batches_of (insert x ys)) ≡ one r x.1 + occurs r (batches_of ys)
unfolding insert
occurs-insert r (n, b) [] = ground (arith, occurs-cons r b [], count-nil r)
occurs-insert r (n, b) ((m, c) ∷ ys) = elim (Bool-cases (comes_before (m, c) (n, b))) [
  | inl e ↦ rw e (
      ground (
        arith,
        occurs-cons r c (batches_of (insert (n, b) ys)),
        occurs-cons r c (batches_of ys),
        occurs-insert r (n, b) ys,
      ))
  | inr e ↦ rw e (occurs-cons r b (c ∷ batches_of ys))
]

occurs-sort : (r : ℕ) (xs : List Keyed) → occurs r (batches_of (sort xs)) ≡ occurs r (batches_of xs)
unfolding sort
occurs-sort r [] = refl
occurs-sort r ((n, b) ∷ xs) =
    ground
      (arith, occurs-insert r (n, b) (sort xs), occurs-cons r b (batches_of xs), occurs-sort r xs)

module _ (sh : Shared) (r : ℕ) where
  occurs-group_from :
      (bs : List Batch) (groups after : Groups) (others left : List Batch)
      → group_from sh bs (groups, others) ≡ ok (after, left)
      → in_groups r after + occurs r left ≡ (in_groups r groups + occurs r others) + occurs r bs
  unfolding group_from add_batch
  occurs-group_from [] groups after others left e =
      let eq : ◌≡◌ {A = Groups × List Batch} (groups, others) (after, left) = cc in
      let e1 : groups ≡ after = ap (λ (m : Groups × List Batch). m.0) eq in
      let e2 : others ≡ left = ap (λ (m : Groups × List Batch). m.1) eq in
      rw (← e1) (rw (← e2) (ground (arith, count-nil r)))
  occurs-group_from (b ∷ bs) groups after others left e =
      elim (Result-cases (get_dependencies sh b.root_id true true)) [
        | inr (x, f) ↦
            let at : ◌≡◌ {A = Result DiffError (Groups × List Batch)} (err x) (ok (after, left)) =
              sym (rw f refl) ∙ e in
            absurd (ground arith)
        | inl (ds, f) ↦
            let rest : group_from sh bs (add_batch (usercode_id ds) b (groups, others))
                ≡ ok (after, left) =
              sym (rw f refl) ∙ e in
            by_code (usercode_id ds) (λ g o. occurs-group_from bs g after o left) rest
      ]
    where
      by_code :
          (k : Option ℕ)
          → ((g : Groups) (o : List Batch)
              → group_from sh bs (g, o) ≡ ok (after, left)
              → in_groups r after + occurs r left ≡ (in_groups r g + occurs r o) + occurs r bs)
          → group_from sh bs (add_batch k b (groups, others)) ≡ ok (after, left)
          → in_groups r after + occurs r left
            ≡ (in_groups r groups + occurs r others) + occurs r (b ∷ bs)
      by_code none go h =
          ground (arith, go groups (others ++ b ∷ []) h, occurs-snoc r others b, occurs-cons r b bs)
      by_code (some k) go h = ground (
        arith,
        go (add_to_group k b groups) others h,
        in_groups-add r k b groups,
        occurs-cons r b bs,
      )

  occurs-with_keys :
      (bs : List Batch) (xs : List Keyed)
      → with_keys sh bs ≡ ok xs
      → occurs r (batches_of xs) ≡ occurs r bs
  unfolding with_keys
  occurs-with_keys [] xs e = let eq : [] ≡ xs = cc in rw (← eq) refl
  occurs-with_keys (b ∷ bs) xs e =
      elim (Result-cases (key_of sh (diff_at b.root_id sh.global_diffs))) [
        | inr (x, f) ↦ let at : err x ≡ ok xs = sym (rw f refl) ∙ e in absurd (ground arith)
        | inl (n, f) ↦ elim (Result-cases (with_keys sh bs)) [
          | inr (x, g) ↦
              let at : err x ≡ ok xs = sym (rw f (rw g refl)) ∙ e in absurd (ground arith)
          | inl (ys, g) ↦
              let at : ok ((n, b) ∷ ys) ≡ ok xs = sym (rw f (rw g refl)) ∙ e in
              let eq : (n, b) ∷ ys ≡ xs = cc in
              rw (← eq) (
                ground (
                  arith,
                  occurs-cons r b (batches_of ys),
                  occurs-cons r b bs,
                  occurs-with_keys bs ys g,
                ))
        ]
      ]

  occurs-sort_groups :
      (groups : Groups) (sorted : List Batch)
      → sort_groups sh groups ≡ ok sorted
      → occurs r sorted ≡ in_groups r groups
  unfolding sort_groups in_groups
  occurs-sort_groups [] sorted e = let eq : [] ≡ sorted = cc in rw (← eq) (count-nil r)
  occurs-sort_groups ((k, bs) ∷ groups) sorted e = elim (Result-cases (with_keys sh bs)) [
    | inr (x, f) ↦ let at : err x ≡ ok sorted = sym (rw f refl) ∙ e in absurd (ground arith)
    | inl (xs, f) ↦ elim (Result-cases (sort_groups sh groups)) [
      | inr (x, g) ↦
          let at : err x ≡ ok sorted = sym (rw f (rw g refl)) ∙ e in absurd (ground arith)
      | inl (rest, g) ↦
          let at : ok (batches_of (sort xs) ++ rest) ≡ ok sorted = sym (rw f (rw g refl)) ∙ e in
          let eq : batches_of (sort xs) ++ rest ≡ sorted = cc in
          rw (← eq) (
            ground (
              arith,
              occurs-append r (batches_of (sort xs)) rest,
              occurs-sort r xs,
              occurs-with_keys bs xs f,
              occurs-sort_groups groups rest g,
            ))
    ]
  ]

  -- Where `_sort_batches` does not raise, each batch is in its result as often as among the batches.
  pub occurs-sort_batches :
      (bs sorted : List Batch) → sort_batches sh bs ≡ ok sorted → occurs r sorted ≡ occurs r bs
  unfolding sort_batches in_groups
  occurs-sort_batches bs sorted e = elim (Result-cases (group_from sh bs ([], []))) [
    | inr (x, f) ↦ let at : err x ≡ ok sorted = sym (rw f refl) ∙ e in absurd (ground arith)
    | inl ((groups, others), f) ↦ elim (Result-cases (sort_groups sh groups)) [
      | inr (x, g) ↦
          let at : err x ≡ ok sorted = sym (rw f (rw g refl)) ∙ e in absurd (ground arith)
      | inl (ss, g) ↦
          let at : ok (ss ++ others) ≡ ok sorted = sym (rw f (rw g refl)) ∙ e in
          let eq : ss ++ others ≡ sorted = cc in
          rw (← eq) (
            ground (
              arith,
              occurs-append r ss others,
              occurs-sort_groups groups ss g,
              occurs-group_from bs [] groups [] others f,
              count-nil r,
              start,
            ))
    ]
  ]
    where
      start : in_groups r [] ≡ 0
      start = refl
