-- ===== src/Sync/Making.antt =====
-- The instructions that `handle_sync_batch` of client/syncing.py makes.
use py_syft.Prelude.{
  ◌≡◌, inl, inr, refl, sym, ◌∙◌, Bool, true, false, some, List, [], ◌∷◌, All, Option-cases, arith,
}
use py_syft.Prelude.Result.{ok, err, Result-cases}
use py_syft.Permission.{VerifyKey}
use py_syft.Sync.Objects.{
  SyncDirection, low_to_high, high_to_low, to_sync_decision, Side, low_side, high_side, SyncObject,
  ObjectDiff, object_id, non_empty_object,
}
use py_syft.Sync.Resolved.{is_other_side}
use py_syft.Sync.Instructions.{
  SyncInstruction, SyncError, Permissions, from_batch_decision, read_permissions,
  storage_permissions,
}
use py_syft.Sync.Handle.{Choices, instruction, instructions}

-- The side of the source and of the target.
abbrev pub source_side : SyncDirection → Side
source_side low_to_high = low_side
source_side high_to_low = high_side

abbrev pub target_side : SyncDirection → Side
target_side low_to_high = high_side
target_side high_to_low = low_side

pub own-decision :
    (direction : SyncDirection)
    → is_other_side (some (to_sync_decision direction)) (source_side direction) ≡ false
own-decision low_to_high = refl
own-decision high_to_low = refl

pub other-decision :
    (direction : SyncDirection)
    → is_other_side (some (to_sync_decision direction)) (target_side direction) ≡ true
other-decision low_to_high = refl
other-decision high_to_low = refl

pub All-trivial : {A : Type 0} (xs : List A) → All (λ v. Unit {0}) xs
All-trivial [] = tt
All-trivial (x ∷ xs) = (tt, All-trivial xs)

-- The instruction for a diff of the object `o`, with the read permissions of the two sides.
abbrev pub made :
    SyncDirection → ObjectDiff → SyncObject → Bool → Permissions × Permissions → SyncInstruction
made direction d o mockify granted = record {
  diff = d;
  decision = some (to_sync_decision direction);
  new_permissions_lowside = granted.0;
  new_permissions_highside = granted.1;
  new_storage_permissions_lowside = storage_permissions d o.id direction mockify;
  new_storage_permissions_highside = storage_permissions d o.id direction mockify;
  unignore = false;
  mockify = mockify;
}

module _ (c : Choices) where
  -- What an instruction of the loop is made from.
  pub instruction-parts :
      (direction : SyncDirection) (user : VerifyKey) (d : ObjectDiff) (i : SyncInstruction)
      → instruction c direction user d ≡ ok i
      → (o : SyncObject) × (share : Bool) × (mockify : Bool) × (granted : Permissions × Permissions)
        × (non_empty_object d ≡ some o)
        × (c.share_private_data o.id ≡ some share)
        × (read_permissions o direction share (some user) ≡ ok granted)
        × (made direction d o mockify granted ≡ i)
  unfolding instruction from_batch_decision object_id
  instruction-parts direction user d i e = elim (Option-cases (non_empty_object d)) [
    | inl n ↦
        let at : err SyncError.attribute_error ≡ ok i = sym (rw n refl) ∙ e in absurd (ground arith)
    | inr (o, n) ↦ elim (Option-cases (c.share_private_data o.id)) [
      | inl f ↦
          let at : err (SyncError.share_missing o.id) ≡ ok i = sym (rw n (rw f refl)) ∙ e in
          absurd (ground arith)
      | inr (share, f) ↦ elim (Option-cases (c.mockify o.id)) [
        | inl g ↦
            let at : err (SyncError.share_missing o.id) ≡ ok i =
              sym (rw n (rw f (rw g refl))) ∙ e in
            absurd (ground arith)
        | inr (mockify, g) ↦ elim (Result-cases (read_permissions o direction share (some user))) [
          | inr (x, h) ↦
              let at : err x ≡ ok i = sym (rw n (rw f (rw g (rw h refl)))) ∙ e in
              absurd (ground arith)
          | inl (granted, h) ↦ (
            o,
            share,
            mockify,
            granted,
            n,
            f,
            h,
            let at : ok (made direction d o mockify granted) ≡ ok i =
                  sym (rw n (rw f (rw g (rw h refl)))) ∙ e in
                cc,
          )
        ]
      ]
    ]
  ]

  -- What holds of the instruction of each diff holds of all.
  pub instructions-All :
      (R : ObjectDiff → Type 0) (Q : SyncInstruction → Type 0) (direction : SyncDirection)
      (user : VerifyKey)
      → ((d : ObjectDiff) (i : SyncInstruction) → R d → instruction c direction user d ≡ ok i → Q i)
      → (ds : List ObjectDiff) (is : List SyncInstruction) → All R ds
      → instructions c direction user ds ≡ ok is
      → All Q is
  unfolding instructions
  instructions-All R Q direction user each [] is r e = let at : [] ≡ is = cc in rw (← at) tt
  instructions-All R Q direction user each (d ∷ ds) is (r, rs) e =
      elim (Result-cases (instruction c direction user d)) [
        | inr (x, f) ↦ let at : err x ≡ ok is = sym (rw f refl) ∙ e in absurd (ground arith)
        | inl (i, f) ↦ elim (Result-cases (instructions c direction user ds)) [
          | inr (x, g) ↦
              let at : err x ≡ ok is = sym (rw f (rw g refl)) ∙ e in absurd (ground arith)
          | inl (more, g) ↦
              let at : ok (i ∷ more) ≡ ok is = sym (rw f (rw g refl)) ∙ e in
              let eq : i ∷ more ≡ is = cc in
              rw (← eq) (each d i r f, instructions-All R Q direction user each ds more rs g)
        ]
      ]
