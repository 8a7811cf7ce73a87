-- ===== src/Network/Picking.antt =====
-- Which route `pick_highest_priority_route` of server_peer.py picks.
use py_syft.Prelude.{
  ◌≤◌, ◌≡◌, refl, Bool, true, false, List, [], ◌∷◌, ltb, if◌then◌else◌, ◌⊎◌, inl, inr, All, arith,
  Bool-cases,
}
use py_syft.Prelude.Result.{ok}
use py_syft.Network.{Route, pick_from, split_last, pick_highest_priority_route}

abbrev pub OneOf : Route → List Route → Type 0
OneOf p [] = ⊥
OneOf p (r ∷ rs) = (p ≡ r) ⊎ OneOf p rs

-- `p` comes before `q` or ties with it, by the order asked for.
abbrev pub Leads : Bool → Route → Route → Type 0
Leads true p q = p.priority ≤ q.priority
Leads false p q = q.priority ≤ p.priority

-- A route of the list that leads them all.
abbrev pub IsPick : Bool → Route → List Route → Type 0
IsPick oldest p routes = OneOf p routes × All (Leads oldest p) routes

Leads-trans : (o : Bool) (p q r : Route) → Leads o p q → Leads o q r → Leads o p r
Leads-trans true p q r a b = omega arith
Leads-trans false p q r a b = omega arith

Leads-refl : (o : Bool) (p : Route) → Leads o p p
Leads-refl true p = omega arith
Leads-refl false p = omega arith

abbrev choose : Bool → Route → Route → Route
choose o best r =
    if (if o then ltb r.priority best.priority else ltb best.priority r.priority) then r else best

choose-IsPick : (o : Bool) (best r : Route) → IsPick o (choose o best r) (best ∷ r ∷ [])
choose-IsPick true best r = elim (Bool-cases (ltb r.priority best.priority)) [
  | inl h ↦ rw h (inr (inl refl), (ground arith, (ground arith, tt)))
  | inr h ↦ rw h (inl refl, (ground arith, (ground arith, tt)))
]
choose-IsPick false best r = elim (Bool-cases (ltb best.priority r.priority)) [
  | inl h ↦ rw h (inr (inl refl), (ground arith, (ground arith, tt)))
  | inr h ↦ rw h (inl refl, (ground arith, (ground arith, tt)))
]

pick_from-IsPick :
    (o : Bool) (best : Route) (rs : List Route) → IsPick o (pick_from o best rs) (best ∷ rs)
unfolding pick_from
pick_from-IsPick o best [] = (inl refl, (Leads-refl o best, tt))
pick_from-IsPick o best (r ∷ rs) =
    let best' = choose o best r in
    let (one, (leads, all)) = pick_from-IsPick o best' rs in
    let (chosen, (over_best, (over_r, _))) = choose-IsPick o best r in
    let p = pick_from o best' rs in
    (
      elim one [
        | inl e ↦ elim chosen [
          | inl e' ↦ inl (cc)
          | inr (inl e') ↦ inr (inl (cc))
          | inr (inr x) ↦ elim x [ ]
        ]
        | inr m ↦ inr (inr m)
      ],
      (Leads-trans o p best' best leads over_best, (Leads-trans o p best' r leads over_r, all)),
    )

-- What holds of the last route and of all before it, holds of all.
split_last-All {ℓ} :
    (P : Route → Type ℓ) (r : Route) (rs : List Route)
    → P (split_last r rs).1
    → All P (split_last r rs).0
    → All P (r ∷ rs)
unfolding split_last
split_last-All P r [] l a = (l, tt)
split_last-All P r (s ∷ rs) l a = (a.0, split_last-All P s rs l a.1)

split_last-OneOf :
    (p r : Route) (rs : List Route)
    → OneOf p ((split_last r rs).1 ∷ (split_last r rs).0)
    → OneOf p (r ∷ rs)
unfolding split_last
split_last-OneOf p r [] m = m
split_last-OneOf p r (s ∷ rs) (inl e) = inr (split_last-OneOf p s rs (inl e))
split_last-OneOf p r (s ∷ rs) (inr (inl e)) = inl e
split_last-OneOf p r (s ∷ rs) (inr (inr m)) = inr (split_last-OneOf p s rs (inr m))

-- Where there is a route, `pick_highest_priority_route` picks one of the routes, whose priority
-- number is the least of all if the oldest is asked for, and the greatest of all otherwise.
pub pick_highest_priority_route_lem :
    (oldest : Bool) (r : Route) (rs : List Route)
    → (p : Route) × (pick_highest_priority_route oldest (r ∷ rs) ≡ ok p) × IsPick oldest p (r ∷ rs)
unfolding pick_highest_priority_route
pick_highest_priority_route_lem oldest r rs =
    let (before, last) = split_last r rs in
    let (one, (leads, all)) = pick_from-IsPick oldest last before in
    (
      pick_from oldest last before,
      refl,
      (split_last-OneOf _ r rs one, split_last-All _ r rs leads all),
    )
