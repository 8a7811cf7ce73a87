-- ===== src/Prelude/Ids.antt =====
-- Lists of numbers that stand for identities: membership, occurrences, removal.
use Prim.Native.Nat.{ℕ, zero, suc, ◌+◌, ◌-◌, ◌<◌}
use mathlib.Core.Path.{◌≡◌, refl}
use mathlib.Core.Bool.{Bool, true, false, ◌||◌}
use mathlib.Core.Option.{Option, none, some}
use mathlib.Core.List.{List, [], ◌∷◌, ◌++◌}
use native.Mathlib.Omega.{arith}
use py_syft.Prelude.Tests.{◌==◌, if◌then◌else◌}

-- `a in xs`
abbrev pub elem : ℕ → List ℕ → Bool
elem a [] = false
elem a (x ∷ xs) = (x == a) || elem a xs

-- `xs.remove(a)` where `a in xs`: the first occurrence goes.
unfoldable pub remove : ℕ → List ℕ → List ℕ
remove a [] = []
remove a (x ∷ xs) = let rest = remove a xs in if x == a then xs else x ∷ rest

unfoldable pub count : ℕ → List ℕ → ℕ
count a [] = 0
count a (x ∷ xs) = if x == a then suc (count a xs) else count a xs

pub count-remove :
    (j a : ℕ) (xs : List ℕ)
    → count j (remove a xs) ≡ (if a == j then count j xs - 1 else count j xs)
unfolding count remove
count-remove j a [] = ground arith
count-remove j a (x ∷ xs) = ground (arith, count-remove j a xs)

pub count-append : (j : ℕ) (xs ys : List ℕ) → count j (xs ++ ys) ≡ count j xs + count j ys
unfolding count
count-append j [] ys = omega arith
count-append j (x ∷ xs) ys = ground (arith, count-append j xs ys)

pub count-nil : (j : ℕ) → count j [] ≡ 0
unfolding count
count-nil j = refl

pub count-cons :
    (j x : ℕ) (xs : List ℕ) → count j (x ∷ xs) ≡ (if x == j then suc (count j xs) else count j xs)
unfolding count
count-cons j x xs = refl

pub elem→count : (a : ℕ) (xs : List ℕ) → elem a xs ≡ true → 0 < count a xs
unfolding count
elem→count a [] h = ground arith
elem→count a (x ∷ xs) h = ground (arith, elem→count a xs)

pub not_elem→count : (a : ℕ) (xs : List ℕ) → elem a xs ≡ false → count a xs ≡ 0
unfolding count
not_elem→count a [] h = refl
not_elem→count a (x ∷ xs) h = ground (arith, not_elem→count a xs)

-- The two together, for a split by `ground`.
pub elem_iff : (a : ℕ) (xs : List ℕ) → elem a xs ≡ (if 0 == count a xs then false else true)
unfolding count
elem_iff a [] = refl
elem_iff a (x ∷ xs) = ground (arith, elem_iff a xs)

abbrev pub get_elem? : List ℕ → ℕ → Option ℕ
get_elem? [] i = none
get_elem? (x ∷ xs) zero = some x
get_elem? (x ∷ xs) (suc i) = get_elem? xs i

pub get_elem?→count : (xs : List ℕ) (i : ℕ) {a : ℕ} → get_elem? xs i ≡ some a → 0 < count a xs
unfolding count
get_elem?→count [] i h = ground arith
get_elem?→count (x ∷ xs) zero h = ground arith
get_elem?→count (x ∷ xs) (suc i) h = ground (arith, get_elem?→count xs i h)

-- A map as a function: `f[k] = v`.
abbrev pub update {ℓ} : {A : Type ℓ} → (ℕ → A) → ℕ → A → ℕ → A
update f k v j = if k == j then v else f j

pub elem-append : (k : ℕ) (xs ys : List ℕ) → elem k (xs ++ ys) ≡ elem k xs || elem k ys
elem-append k [] ys = refl
elem-append k (x ∷ xs) ys = ground (arith, elem-append k xs ys)
