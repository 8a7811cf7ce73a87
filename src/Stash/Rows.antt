-- ===== src/Stash/Rows.antt =====
-- Rows that are found by their id (stash.py).
use py_syft.Prelude.{
  ℕ, ◌+◌, ◌≤◌, ◌≡◌, refl, ==_iff, Bool, true, false, not, ◌&&◌, Option, none, some, List, [], ◌∷◌,
  ◌++◌, map, length, filter, arith, ltb, ◌==◌, if◌then◌else◌, if_cases, count, count-nil,
  count-cons,
}
use mathlib.Core.Path.{ap₂}
use mathlib.Core.Option
use py_syft.Stash.Env.{Row}

module _ {J : Type 0} where
  abbrev pub ids : List (Row J) → List ℕ
  ids [] = []
  ids (r ∷ rs) = r.id ∷ ids rs

  -- The first row of an id.
  abbrev pub find_row : ℕ → List (Row J) → Option (Row J)
  find_row uid [] = none
  find_row uid (r ∷ rs) = if r.id == uid then some r else find_row uid rs

  -- The primary key: no id stands twice.
  abbrev pub UniqueIds : List (Row J) → Type 0
  UniqueIds rs = (uid : ℕ) → count uid (ids rs) ≤ 1

  abbrev pub pick : (Row J → Bool) → Option (Row J) → List (Row J)
  pick p none = []
  pick p (some r) = if p r then r ∷ [] else []

  filter-absent :
      (p : Row J → Bool) (uid : ℕ) (rs : List (Row J))
      → count uid (ids rs) ≡ 0
      → filter (λ r. p r && (r.id == uid)) rs ≡ []
  filter-absent p uid [] h = refl
  filter-absent p uid (r ∷ rs) h =
      ground (arith, count-cons uid r.id (ids rs), filter-absent p uid rs)

  -- A query by id has the one row of that id, if the condition holds of it.
  pub filter-id :
      (p : Row J → Bool) (uid : ℕ) (rs : List (Row J))
      → count uid (ids rs) ≤ 1
      → filter (λ r. p r && (r.id == uid)) rs ≡ pick p (find_row uid rs)
  filter-id p uid [] h = refl
  filter-id p uid (r ∷ rs) h =
      ground (arith, count-cons uid r.id (ids rs), filter-absent p uid rs, filter-id p uid rs)

  pub filter-id_first :
      (p : Row J → Bool) (uid : ℕ) (rs : List (Row J))
      → filter (λ r. (r.id == uid) && p r) rs ≡ filter (λ r. p r && (r.id == uid)) rs
  filter-id_first p uid [] = refl
  filter-id_first p uid (r ∷ rs) = ground (arith, filter-id_first p uid rs)

  pub exists-find :
      (uid : ℕ) (rs : List (Row J))
      → ltb 0 (length (filter (λ r. r.id == uid) rs)) ≡ false
      → (find_row uid rs ≡ none) × (count uid (ids rs) ≡ 0)
  exists-find uid [] h = (refl, count-nil uid)
  exists-find uid (r ∷ rs) h = ground (arith, count-cons uid r.id (ids rs), exists-find uid rs)

  -- A row whose id is new, put at the end.
  pub find_row-append :
      (uid : ℕ) (rs : List (Row J)) (x : Row J)
      → find_row x.id rs ≡ none
      → find_row uid (rs ++ x ∷ []) ≡ (if x.id == uid then some x else find_row uid rs)
  find_row-append uid [] x h = refl
  find_row-append uid (r ∷ rs) x h = ground (arith, find_row-append uid rs x)

  count-ids-append :
      (uid : ℕ) (rs : List (Row J)) (x : Row J)
      → count uid (ids (rs ++ x ∷ [])) ≡ count uid (ids rs) + (if x.id == uid then 1 else 0)
  count-ids-append uid [] x = ground (arith, count-cons uid x.id [], count-nil uid)
  count-ids-append uid (r ∷ rs) x = ground (
    arith,
    count-cons uid r.id (ids rs),
    count-cons uid r.id (ids (rs ++ x ∷ [])),
    count-ids-append uid rs x,
  )

  pub UniqueIds-append :
      (rs : List (Row J)) (x : Row J)
      → count x.id (ids rs) ≡ 0
      → UniqueIds rs
      → UniqueIds (rs ++ x ∷ [])
  UniqueIds-append rs x a h uid = ground (arith, count-ids-append uid rs x, h uid, ==_iff x.id uid)

  -- A change of rows that leaves their ids.
  abbrev pub changed : (Row J → Bool) → (Row J → Row J) → List (Row J) → List (Row J)
  changed p f rs = map (λ r. if p r then f r else r) rs

  pub ids-changed :
      (p : Row J → Bool) (f : Row J → Row J) (rs : List (Row J))
      → ((r : Row J) → (f r).id ≡ r.id)
      → ids (changed p f rs) ≡ ids rs
  ids-changed p f [] h = refl
  ids-changed p f (r ∷ rs) h =
      ap₂ (λ (i : ℕ) (l : List ℕ). i ∷ l)
        (if_cases (λ (x : Row J). x.id ≡ r.id) (p r) (λ _. h r) (λ _. refl)) (ids-changed p f rs h)

  pub count-ids-filter :
      (p : Row J → Bool) (uid : ℕ) (rs : List (Row J))
      → count uid (ids (filter p rs)) ≤ count uid (ids rs)
  count-ids-filter p uid [] = omega arith
  count-ids-filter p uid (r ∷ rs) = ground (
    arith,
    count-cons uid r.id (ids rs),
    count-cons uid r.id (ids (filter p rs)),
    count-ids-filter p uid rs,
  )

  -- The row of an id after a change of the rows of that id that meet a condition.
  pub find_row-changed :
      (p : Row J → Bool) (f : Row J → Row J) (uid : ℕ) (rs : List (Row J))
      → ((r : Row J) → (f r).id ≡ r.id)
      → find_row uid (changed (λ r. (r.id == uid) && p r) f rs)
        ≡ Option.map (λ r. if p r then f r else r) (find_row uid rs)
  find_row-changed p f uid [] h = refl
  find_row-changed p f uid (r ∷ rs) h = ground (arith, find_row-changed p f uid rs h, h r)

  -- The condition holds of the row that was found.
  abbrev pub meets : (Row J → Bool) → Option (Row J) → Bool
  meets p none = false
  meets p (some r) = p r

  filter-none :
      (p : Row J → Bool) (uid : ℕ) (rs : List (Row J))
      → count uid (ids rs) ≡ 0
      → filter (λ r. not ((r.id == uid) && p r)) rs ≡ filter (λ r. not (r.id == uid)) rs
  filter-none p uid [] h = refl
  filter-none p uid (r ∷ rs) h = ground (arith, count-cons uid r.id (ids rs), filter-none p uid rs)

  -- The rows but that of an id, where the condition holds of it.
  pub filter-not :
      (p : Row J → Bool) (uid : ℕ) (rs : List (Row J))
      → count uid (ids rs) ≤ 1
      → meets p (find_row uid rs) ≡ true
      → filter (λ r. not ((r.id == uid) && p r)) rs ≡ filter (λ r. not (r.id == uid)) rs
  filter-not p uid [] h m = refl
  filter-not p uid (r ∷ rs) h m =
      ground (arith, count-cons uid r.id (ids rs), filter-none p uid rs, filter-not p uid rs)

  changed-none :
      (p : Row J → Bool) (f : Row J → Row J) (uid : ℕ) (rs : List (Row J))
      → count uid (ids rs) ≡ 0
      → changed (λ r. (r.id == uid) && p r) f rs ≡ changed (λ r. r.id == uid) f rs
  changed-none p f uid [] h = refl
  changed-none p f uid (r ∷ rs) h =
      ground (arith, count-cons uid r.id (ids rs), changed-none p f uid rs)

  pub changed-id :
      (p : Row J → Bool) (f : Row J → Row J) (uid : ℕ) (rs : List (Row J))
      → count uid (ids rs) ≤ 1
      → meets p (find_row uid rs) ≡ true
      → changed (λ r. (r.id == uid) && p r) f rs ≡ changed (λ r. r.id == uid) f rs
  changed-id p f uid [] h m = refl
  changed-id p f uid (r ∷ rs) h m =
      ground (arith, count-cons uid r.id (ids rs), changed-none p f uid rs, changed-id p f uid rs)

  pub find_row-map :
      (f : Row J → Row J) (uid v : ℕ) (rs : List (Row J))
      → ((r : Row J) → (f r).id ≡ r.id)
      → find_row uid (changed (λ r. r.id == v) f rs)
        ≡ Option.map (λ r. if v == uid then f r else r) (find_row uid rs)
  find_row-map f uid v [] h = refl
  find_row-map f uid v (r ∷ rs) h = ground (arith, find_row-map f uid v rs h, h r)
