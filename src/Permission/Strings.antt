-- ===== src/Permission/Strings.antt =====
-- The stored strings of action_permissions.py determine the permissions that they stand for.
use py_syft.Prelude.{
  ℕ, ◌≡◌, refl, inl, inr, true, false, Option, none, some, [], ◌∷◌, ◌++◌, arith, All, if◌then◌else◌,
  Bool-cases, Text, codes, starts_with,
}
use py_syft.Prelude.Result.{ok}
use py_syft.Permission.{
  VerifyKey, is_hex_digit, KeyCodec, ActionPermission, owner, is_compound, name, by_name,
  Permission, new, for_key, split_once, permission_string, from_permission_string,
}

by_name-name : (p : ActionPermission) → by_name (name p) ≡ some p
unfolding by_name name
by_name-name owner = refl
by_name-name _ = refl

split_once-append :
    (s t : Text) → All (λ c. is_hex_digit c ≡ true) s → split_once (s ++ b'_' ∷ t) ≡ some (s, t)
unfolding split_once
split_once-append [] t h = refl
split_once-append (c ∷ s) t h = rw (split_once-append s t h.1) (ground (arith, h.0))

no_prefix :
    (s t : Text)
    → All (λ c. is_hex_digit c ≡ true) s
    → starts_with (s ++ b'_' ∷ t) (codes "ALL_") ≡ false
no_prefix [] t h = refl
no_prefix (c ∷ s) t h = ground (arith, h.0)

-- What is stored of a permission: a compound permission is for every key.
abbrev pub stored : Permission → Permission
stored p = if is_compound p.permission then record p { credentials = none } else p

module _ (keys : KeyCodec) where
  parse-prefixed :
      (uid : ℕ) (p : ActionPermission) (k : VerifyKey)
      → from_permission_string keys uid (keys.encode k ++ b'_' ∷ name p) ≡ ok (for_key p uid k)
  unfolding from_permission_string
  parse-prefixed uid p k =
      rw
        (
          no_prefix (keys.encode k) (name p) (keys.encode_hex k),
          split_once-append (keys.encode k) (name p) (keys.encode_hex k),
        )
        (rw (by_name-name p, keys.decode-encode k))

  parse-compound :
      (uid : ℕ) (p : ActionPermission)
      → is_compound p ≡ true
      → from_permission_string keys uid (name p)
        ≡ ok (record { uid = uid; permission = p; credentials = none })
  unfolding from_permission_string
  parse-compound uid owner h = ground arith
  parse-compound uid _ h = ground arith

  -- A permission that the constructor accepts is read back from its string: as it was if it is for
  -- one key, and without any key it was given if it is a compound permission.
  pub from_permission_string-permission_string :
      (uid : ℕ) (ap : ActionPermission) (credentials : Option VerifyKey) {p : Permission}
      → new uid ap credentials ≡ ok p
      → from_permission_string keys uid (permission_string keys p) ≡ ok (stored p)
  unfolding new permission_string
  from_permission_string-permission_string uid ap none h = elim (Bool-cases (is_compound ap)) [
    | inl c ↦ ground (arith, parse-compound uid ap c)
    | inr c ↦ ground arith
  ]
  from_permission_string-permission_string uid ap (some k) h = elim (Bool-cases (is_compound ap)) [
    | inl c ↦ ground (arith, parse-compound uid ap c)
    | inr c ↦ ground (arith, parse-prefixed uid ap k)
  ]

  moved_uid :
      (u v : ℕ) (ap : ActionPermission) (k : Option VerifyKey) {p : Permission}
      → new u ap k ≡ ok p
      → new v ap k ≡ ok (record p { uid = v })
  unfolding new
  moved_uid u v ap none h = ground arith
  moved_uid u v ap (some k) h = ground arith

  -- Two accepted permissions, for objects that may differ, have the same string only if they are the
  -- same permission, and for the same key unless it is a compound one.
  pub permission_string_injective :
      (u v : ℕ) (ap bp : ActionPermission) (j k : Option VerifyKey) {p q : Permission}
      → new u ap j ≡ ok p
      → new v bp k ≡ ok q
      → permission_string keys p ≡ permission_string keys q
      → (p.permission ≡ q.permission) × ((stored p).credentials ≡ (stored q).credentials)
  unfolding permission_string
  permission_string_injective u v ap bp j k {p} {q} hp hq h =
      let p' : Permission = record p { uid = v } in
      let same : stored p' ≡ stored q = cc (
        h,
        from_permission_string-permission_string v ap j (moved_uid u v ap j hp),
        from_permission_string-permission_string v bp k hq,
      ) in
      ground arith
