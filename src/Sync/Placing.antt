-- ===== src/Sync/Placing.antt =====
-- One step of `ResolvedSyncState.add_sync_instruction` of service/sync/diff_state.py.
use py_syft.Prelude.{
  ℕ, ◌≤◌, ◌≡◌, ◌⊎◌, inl, inr, refl, sym, ap, ◌∙◌, Bool, true, ◌&&◌, ◌||◌, Option, none, some, List,
  [], ◌∷◌, ◌++◌, elem, elem-append, All, count, count-append, count-cons, count-nil, elem_iff, ◌==◌,
  if◌then◌else◌, Bool-cases, arith,
}
use py_syft.Prelude.Result.{Result, ok, err, Result-cases}
use py_syft.Sync.Objects.{is_ignore, is_skip, Side, SyncObject, Attr, Status, new, modified, status}
use py_syft.Sync.Resolved.{
  ResolvedSyncState, ids, append_new, is_other_side, is_same, is_empty_dict, place, my_obj,
  other_obj, add_permissions, shareable, add_sync_instruction,
}
use py_syft.Sync.Instructions.{SyncInstruction, SyncError}
use py_syft.Sync.Handle.{add_all}

ids-append : (os : List SyncObject) (o : SyncObject) → ids (os ++ o ∷ []) ≡ ids os ++ o.id ∷ []
ids-append [] o = refl
ids-append (p ∷ os) o = ap (λ l. p.id ∷ l) (ids-append os o)

pub elem-append_new :
    (j : ℕ) (o : SyncObject) (os : List SyncObject)
    → elem j (ids (append_new o os)) ≡ elem j (ids os) || (o.id == j)
unfolding append_new
elem-append_new j o os = elim (Bool-cases (elem o.id (ids os))) [
  | inl m ↦ rw m (elim (Bool-cases (o.id == j)) [
    | inl q ↦ let at : o.id ≡ j = ground arith in ground (arith, ap (λ v. elem v (ids os)) at)
    | inr q ↦ ground arith
  ])
  | inr m ↦
      rw m (ap (elem j) (ids-append os o) ∙ ground (arith, elem-append j (ids os) (o.id ∷ [])))
]

count-append_new :
    (j : ℕ) (o : SyncObject) (os : List SyncObject)
    → count j (ids os) ≤ 1
    → count j (ids (append_new o os)) ≤ 1
unfolding append_new
count-append_new j o os h = elim (Bool-cases (elem o.id (ids os))) [
  | inl m ↦ rw m h
  | inr m ↦ rw m (
      rw (ids-append os o) (elim (Bool-cases (o.id == j)) [
        | inl q ↦
            let at : o.id ≡ j = ground arith in
            ground (
              arith,
              count-append j (ids os) (o.id ∷ []),
              count-cons j o.id [],
              count-nil j,
              elem_iff j (ids os),
              ap (λ v. elem v (ids os)) at,
            )
        | inr q ↦
            ground (arith, count-append j (ids os) (o.id ∷ []), count-cons j o.id [], count-nil j)
      ]))
]

-- The four outcomes of `place`: nothing, or an object appended to one of the lists.
abbrev pub Unchanged :
    Status → Option SyncObject → Option SyncObject → ResolvedSyncState → ResolvedSyncState → Type 0
Unchanged st mine others s p = s ≡ p

abbrev pub Updates :
    Status → Option SyncObject → Option SyncObject → ResolvedSyncState → ResolvedSyncState → Type 0
Updates st mine others s p =
    (o : SyncObject) × (st ≡ modified)
    × (others ≡ some o)
    × (record s { update_objs = append_new o s.update_objs } ≡ p)

abbrev pub Creates :
    Status → Option SyncObject → Option SyncObject → ResolvedSyncState → ResolvedSyncState → Type 0
Creates st mine others s p =
    (o : SyncObject) × (mine ≡ none)
    × (others ≡ some o)
    × (record s { create_objs = append_new o s.create_objs } ≡ p)

abbrev pub Deletes :
    Status → Option SyncObject → Option SyncObject → ResolvedSyncState → ResolvedSyncState → Type 0
Deletes st mine others s p =
    (o : SyncObject) × (mine ≡ some o)
    × (others ≡ none)
    × (record s { delete_objs = append_new o s.delete_objs } ≡ p)

pub place-cases :
    (st : Status) (mine others : Option SyncObject) (s p : ResolvedSyncState)
    → place st mine others s ≡ ok p
    → (Unchanged st mine others s p ⊎ Updates st mine others s p)
      ⊎ (Creates st mine others s p ⊎ Deletes st mine others s p)
unfolding place
place-cases modified mine none s p e = absurd (ground arith)
place-cases modified mine (some o) s p e = inl (inr (o, refl, refl, cc))
place-cases new none none s p e = absurd (ground arith)
place-cases new none (some o) s p e = inr (inl (o, refl, refl, cc))
place-cases new (some o) none s p e = inr (inr (o, refl, refl, cc))
place-cases new (some o) (some u) s p e = inl (inl cc)
place-cases Status.same mine others s p e = inl (inl cc)

module _ (mocks : ℕ → List (ℕ × Attr)) where
  abbrev pub placed : SyncInstruction → ResolvedSyncState → Result SyncError ResolvedSyncState
  placed i s =
      if is_other_side i.decision s.alias
      then place (status i.diff) (my_obj s.alias i.diff)
          (shareable mocks i.mockify (other_obj s.alias i.diff)) s
      else ok s

  -- Whether a step adds nothing.
  abbrev pub is_idle : SyncInstruction → Bool
  is_idle i = (is_ignore i.decision || is_skip i.decision) || is_same (status i.diff)

  -- A step leaves the state, or places an object and adds the permissions.
  pub add_step :
      (i : SyncInstruction) (s t : ResolvedSyncState)
      → add_sync_instruction mocks i s ≡ ok t
      → ((is_idle i ≡ true) × (s ≡ t))
        ⊎ ((p : ResolvedSyncState) × (placed i s ≡ ok p) × (add_permissions s.alias i p ≡ t))
  unfolding add_sync_instruction
  add_step i s t e = elim (Bool-cases (is_ignore i.decision || is_skip i.decision)) [
    | inl a ↦ let at : ok s ≡ ok t = sym (rw a refl) ∙ e in inl (rw a refl, cc)
    | inr a ↦ elim (Bool-cases i.unignore) [
      | inl u ↦
          let at : err SyncError.attribute_error ≡ ok t = sym (rw a (rw u refl)) ∙ e in
          absurd (ground arith)
      | inr u ↦
          elim (Bool-cases (is_same (status i.diff) && is_empty_dict i.new_permissions_highside)) [
            | inl n ↦
                let at : ok s ≡ ok t = sym (rw a (rw u (rw n refl))) ∙ e in inl (ground arith, cc)
            | inr n ↦ elim (Result-cases (placed i s)) [
              | inr (x, f) ↦
                  let at : err x ≡ ok t = sym (rw a (rw u (rw n (rw f refl)))) ∙ e in
                  absurd (ground arith)
              | inl (p, f) ↦
                  let at : ok (add_permissions s.alias i p) ≡ ok t =
                    sym (rw a (rw u (rw n (rw f refl)))) ∙ e in
                  inr (p, f, cc)
            ]
          ]
    ]
  ]

  -- What each step keeps, for the instructions of a kind, all steps keep.
  pub add_all-keeps :
      (P : ResolvedSyncState → Type 0) (Q : SyncInstruction → Type 0)
      → ((i : SyncInstruction) (s t : ResolvedSyncState)
          → Q i
          → add_sync_instruction mocks i s ≡ ok t
          → P s
          → P t)
      → (is : List SyncInstruction) (s t : ResolvedSyncState) → All Q is
      → add_all mocks is s ≡ ok t
      → P s
      → P t
  unfolding add_all
  add_all-keeps P Q keep [] s t q e h = let same : s ≡ t = cc in rw (← same) h
  add_all-keeps P Q keep (i ∷ is) s t (q, qs) e h =
      elim (Result-cases (add_sync_instruction mocks i s)) [
        | inr (x, f) ↦ absurd (ground arith)
        | inl (m, f) ↦ add_all-keeps P Q keep is m t qs (sym (rw f refl) ∙ e) (keep i s m q f h)
      ]

  -- What `placed` keeps.
  pub placed-keeps :
      (P : ResolvedSyncState → Type 0) (i : SyncInstruction) (s p : ResolvedSyncState)
      → ((o : SyncObject) → P (record s { update_objs = append_new o s.update_objs }))
      → ((o : SyncObject) → P (record s { create_objs = append_new o s.create_objs }))
      → ((o : SyncObject) → P (record s { delete_objs = append_new o s.delete_objs }))
      → P s
      → placed i s ≡ ok p
      → P p
  placed-keeps P i s p u c d h e = elim (Bool-cases (is_other_side i.decision s.alias)) [
    | inr n ↦ let at : ok s ≡ ok p = sym (rw n refl) ∙ e in let same : s ≡ p = cc in rw (← same) h
    | inl n ↦
        elim (place-cases (status i.diff) (my_obj s.alias i.diff)
          (shareable mocks i.mockify (other_obj s.alias i.diff)) s p (sym (rw n refl) ∙ e)) [
            | inl (inl same) ↦ rw (← same) h
            | inl (inr (o, _, _, same)) ↦ rw (← same) (u o)
            | inr (inl (o, _, _, same)) ↦ rw (← same) (c o)
            | inr (inr (o, _, _, same)) ↦ rw (← same) (d o)
          ]
  ]

-- The lists of a state hold no two objects with one id.
abbrev pub IsUnique : ResolvedSyncState → Type 0
IsUnique s =
    (j : ℕ)
    → (count j (ids s.create_objs) ≤ 1)
      × (count j (ids s.update_objs) ≤ 1)
      × (count j (ids s.delete_objs) ≤ 1)

-- The permissions leave the rest of a state.
pub add_permissions-rest :
    (side : Side) (i : SyncInstruction) (s : ResolvedSyncState)
    → ((add_permissions side i s).alias ≡ s.alias)
      × ((add_permissions side i s).create_objs ≡ s.create_objs)
      × ((add_permissions side i s).update_objs ≡ s.update_objs)
      × ((add_permissions side i s).delete_objs ≡ s.delete_objs)
unfolding add_permissions
add_permissions-rest Side.low_side i s = (refl, refl, refl, refl)
add_permissions-rest Side.high_side i s = (refl, refl, refl, refl)

add_permissions-IsUnique :
    (side : Side) (i : SyncInstruction) (s : ResolvedSyncState)
    → IsUnique s
    → IsUnique (add_permissions side i s)
unfolding add_permissions
add_permissions-IsUnique Side.low_side i s h = h
add_permissions-IsUnique Side.high_side i s h = h

-- `add_sync_instruction` keeps the lists of the objects that a server is to create, update and delete
-- free of two objects with one id.
pub add_sync_instruction-IsUnique :
    (mocks : ℕ → List (ℕ × Attr)) (i : SyncInstruction) (s t : ResolvedSyncState)
    → add_sync_instruction mocks i s ≡ ok t
    → IsUnique s
    → IsUnique t
add_sync_instruction-IsUnique mocks i s t e h = elim (add_step mocks i s t e) [
  | inl (idle, same) ↦ rw (← same) h
  | inr (p, f, same) ↦ rw (← same) (
      add_permissions-IsUnique s.alias i p (
        placed-keeps mocks IsUnique i s p
          (λ o j. ((h j).0, count-append_new j o s.update_objs (h j).1, (h j).2))
          (λ o j. (count-append_new j o s.create_objs (h j).0, (h j).1, (h j).2))
          (λ o j. ((h j).0, (h j).1, count-append_new j o s.delete_objs (h j).2)) h f))
]
