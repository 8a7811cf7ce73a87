-- ===== src/Sync/Placement.antt =====
-- Where `add_sync_instruction` of service/sync/diff_state.py puts an object.
use py_syft.Prelude.{ℕ, ◌≡◌, Bool, true, false, Option, none, some, List, elem, ==_refl, arith}
use py_syft.Prelude.Result.{ok}
use py_syft.Sync.Objects.{SyncObject, Attr, Status, new, modified}
use py_syft.Sync.Resolved.{
  ResolvedSyncState, ids, append_new, place, shareable, create_shareable_sync_copy,
}
use py_syft.Sync.Placing.{elem-append_new}

-- Where an object that is not on the target, or differs, is to be found in what is sent.
abbrev pub IsPlaced : Status → Option SyncObject → Option SyncObject → ResolvedSyncState → Type 0
IsPlaced new none (some o) t = elem o.id (ids t.create_objs) ≡ true
IsPlaced modified mine (some o) t = elem o.id (ids t.update_objs) ≡ true
IsPlaced st mine others t = Unit

pub place-IsPlaced :
    (mocks : ℕ → List (ℕ × Attr)) (st : Status) (mine others : Option SyncObject) (m : Bool)
    (s p : ResolvedSyncState)
    → place st mine (shareable mocks m others) s ≡ ok p
    → IsPlaced st mine others p
unfolding place shareable create_shareable_sync_copy
place-IsPlaced mocks new none (some o) true s p e =
    let eq : record s {
      create_objs = append_new (create_shareable_sync_copy mocks o) s.create_objs;
    }
        ≡ p =
      cc in
    rw (← eq) (
      ground (
        arith,
        elem-append_new o.id (create_shareable_sync_copy mocks o) s.create_objs,
        ==_refl o.id,
      ))
place-IsPlaced mocks new none (some o) false s p e =
    let eq : record s { create_objs = append_new o s.create_objs } ≡ p = cc in
    rw (← eq) (ground (arith, elem-append_new o.id o s.create_objs, ==_refl o.id))
place-IsPlaced mocks modified mine (some o) true s p e =
    let eq : record s {
      update_objs = append_new (create_shareable_sync_copy mocks o) s.update_objs;
    }
        ≡ p =
      cc in
    rw (← eq) (
      ground (
        arith,
        elem-append_new o.id (create_shareable_sync_copy mocks o) s.update_objs,
        ==_refl o.id,
      ))
place-IsPlaced mocks modified mine (some o) false s p e =
    let eq : record s { update_objs = append_new o s.update_objs } ≡ p = cc in
    rw (← eq) (ground (arith, elem-append_new o.id o s.update_objs, ==_refl o.id))
place-IsPlaced mocks new none none m s p e = tt
place-IsPlaced mocks new (some u) others m s p e = tt
place-IsPlaced mocks modified mine none m s p e = tt
place-IsPlaced mocks Status.same mine others m s p e = tt

-- What is in the lists stays there.
pub IsPlaced-keeps :
    (st : Status) (mine others : Option SyncObject) (s t : ResolvedSyncState)
    → ((j : ℕ) → elem j (ids s.create_objs) ≡ true → elem j (ids t.create_objs) ≡ true)
    → ((j : ℕ) → elem j (ids s.update_objs) ≡ true → elem j (ids t.update_objs) ≡ true)
    → IsPlaced st mine others s
    → IsPlaced st mine others t
IsPlaced-keeps new none (some o) s t c u h = c o.id h
IsPlaced-keeps modified mine (some o) s t c u h = u o.id h
IsPlaced-keeps new none none s t c u h = tt
IsPlaced-keeps new (some v) others s t c u h = tt
IsPlaced-keeps modified mine none s t c u h = tt
IsPlaced-keeps Status.same mine others s t c u h = tt
