-- ===== src/Request/History.antt =====
-- The state of the changes of a request after its history (request.py, `current_change_state`).
use py_syft.Prelude.{
  ℕ, suc, ◌≤◌, ◌<◌, ◌≡◌, refl, sym, ap, ◌∙◌, Bool, true, false, List, [], ◌∷◌, ◌++◌, length, arith,
  ◌==◌, ==_refl, ==_iff, if◌then◌else◌, count, count-cons, count-nil, remove, count-remove, elem,
  elem_iff,
}
use py_syft.Request.{ChangeStatus, set_key, all_applied, state_from}

abbrev pub keys : List (ℕ × Bool) → List ℕ
keys [] = []
keys ((c, b) ∷ d) = c ∷ keys d

-- The keys that are not applied.
open_keys : List (ℕ × Bool) → List ℕ
open_keys [] = []
open_keys ((c, true) ∷ d) = open_keys d
open_keys ((c, false) ∷ d) = c ∷ open_keys d

state_from-++ :
    (d : List (ℕ × Bool)) (h l : List ChangeStatus)
    → state_from d (h ++ l) ≡ state_from (state_from d h) l
state_from-++ d [] l = refl
state_from-++ d ((c, b) ∷ h) l = state_from-++ (set_key c b d) h l

count-keys-set_key :
    (j c : ℕ) (b : Bool) (d : List (ℕ × Bool))
    → count j (keys (set_key c b d)) ≡ (
        if c == j
        then (if count j (keys d) == 0 then 1 else count j (keys d))
        else count j (keys d))
count-keys-set_key j c b [] = ground (arith, count-cons j c [], count-nil j)
count-keys-set_key j c b ((e, x) ∷ d) = ground (
  arith,
  ==_iff e c,
  ==_iff c j,
  count-cons j e (keys d),
  count-cons j e (keys (set_key c b d)),
  count-keys-set_key j c b d,
)

count-state_from :
    (j : ℕ) (d : List (ℕ × Bool)) (l : List ChangeStatus)
    → count j (keys d) ≤ 1
    → count j (keys (state_from d l)) ≡ (if elem j (keys l) then 1 else count j (keys d))
count-state_from j d [] h = refl
count-state_from j d ((c, b) ∷ l) h =
    let step = count-keys-set_key j c b d in
    count-state_from j (set_key c b d) l (ground arith) ∙ ground arith

open_keys≤keys : (j : ℕ) (d : List (ℕ × Bool)) → count j (open_keys d) ≤ count j (keys d)
unfolding open_keys
open_keys≤keys j [] = omega arith
open_keys≤keys j ((c, true) ∷ d) = ground (arith, count-cons j c (keys d), open_keys≤keys j d)
open_keys≤keys j ((c, false) ∷ d) =
    ground (arith, count-cons j c (keys d), count-cons j c (open_keys d), open_keys≤keys j d)

open_keys-set_key :
    (j c : ℕ) (d : List (ℕ × Bool))
    → count j (keys d) ≤ 1
    → count j (open_keys (set_key c true d)) ≤ (if c == j then 0 else count j (open_keys d))
unfolding open_keys
open_keys-set_key j c [] h = ground (arith, count-nil j)
open_keys-set_key j c ((e, true) ∷ d) h = ground (
  arith,
  ==_iff e c,
  ==_iff c j,
  count-cons j e (keys d),
  open_keys≤keys j d,
  open_keys-set_key j c d,
)
open_keys-set_key j c ((e, false) ∷ d) h = ground (
  arith,
  ==_iff e c,
  ==_iff c j,
  count-cons j e (keys d),
  count-cons j e (open_keys d),
  count-cons j e (open_keys (set_key c true d)),
  open_keys≤keys j d,
  open_keys-set_key j c d,
)

all_applied-open_keys :
    (d : List (ℕ × Bool)) → ((j : ℕ) → count j (open_keys d) ≡ 0) → all_applied d ≡ true
unfolding open_keys
all_applied-open_keys [] h = refl
all_applied-open_keys ((c, true) ∷ d) h = all_applied-open_keys d h
all_applied-open_keys ((c, false) ∷ d) h =
    ground (arith, h c, count-cons c c (open_keys d), ==_refl c)

-- Lists with the same elements as often have the same length.
length-remove : (x : ℕ) (ys : List ℕ) → 0 < count x ys → length ys ≡ suc (length (remove x ys))
unfolding remove
length-remove x [] h = ground (arith, count-nil x)
length-remove x (y ∷ ys) h = ground (arith, count-cons x y ys, length-remove x ys)

length-count : (xs ys : List ℕ) → ((j : ℕ) → count j xs ≡ count j ys) → length xs ≡ length ys
length-count [] [] h = refl
length-count [] (y ∷ ys) h = ground (arith, h y, count-nil y, count-cons y y ys, ==_refl y)
length-count (x ∷ xs) ys h =
    let here = h x in
    let more : 0 < count x ys = ground (arith, count-cons x x xs, ==_refl x) in
    let rest =
      length-count xs (remove x ys)
        (λ j. ground (arith, h j, count-cons j x xs, count-remove j x ys)) in
    let shorter = length-remove x ys more in omega arith

abbrev pub tag : List ℕ → List ChangeStatus
tag [] = []
tag (c ∷ cs) = (c, true) ∷ tag cs

keys-tag : (cs : List ℕ) → keys (tag cs) ≡ cs
keys-tag [] = refl
keys-tag (c ∷ cs) = ap (λ l. c ∷ l) (keys-tag cs)

length-keys : (d : List (ℕ × Bool)) → length (keys d) ≡ length d
length-keys [] = refl
length-keys ((c, b) ∷ d) = ap suc (length-keys d)

open_keys-tag :
    (j : ℕ) (d : List (ℕ × Bool)) (cs : List ℕ)
    → count j (keys d) ≤ 1
    → count j (open_keys (state_from d (tag cs))) ≤ (if elem j cs then 0 else count j (open_keys d))
open_keys-tag j d [] h = omega arith
open_keys-tag j d (c ∷ cs) h = ground (
  arith,
  count-keys-set_key j c true d,
  open_keys-set_key j c d,
  open_keys-tag j (set_key c true d) cs,
)

-- Where the history speaks of the changes only, no two of which are the same, their application
-- leaves all of them applied, and nothing else.
pub state_from-applied :
    (h : List ChangeStatus) (cs : List ℕ)
    → ((j : ℕ) → count j cs ≤ 1)
    → ((j : ℕ) → elem j (keys h) ≡ true → elem j cs ≡ true)
    → (all_applied (state_from [] (h ++ tag cs)) ≡ true)
      × (length (state_from [] (h ++ tag cs)) ≡ length cs)
unfolding open_keys
state_from-applied h cs u s =
    let d = state_from [] h in
    let before : (j : ℕ) → count j (keys d) ≡ (if elem j (keys h) then 1 else 0) =
      λ j. count-state_from j [] h (ground (arith, count-nil j)) ∙ rw (count-nil j) refl in
    let after : (j : ℕ) → count j (keys (state_from d (tag cs))) ≡ count j cs = λ j.
      ground
        (arith, before j, s j, u j, elem_iff j cs, keys-tag cs, count-state_from j d (tag cs)) in
    let none_open : (j : ℕ) → count j (open_keys (state_from d (tag cs))) ≡ 0 =
      λ j. ground (arith, before j, s j, open_keys≤keys j d, open_keys-tag j d cs) in
    rw (state_from-++ [] h (tag cs)) (
      all_applied-open_keys (state_from d (tag cs)) none_open,
      sym (length-keys (state_from d (tag cs)))
          ∙ length-count (keys (state_from d (tag cs))) cs after,
    )
