-- ===== src/Permission/Examples.antt =====
-- The permission strings at concrete keys.
use py_syft.Prelude.{ℕ, zero, suc, ◌≡◌, refl, ap, true, some, [], ◌∷◌, All, Text, codes}
use py_syft.Prelude.Result.{ok}
use py_syft.Permission.{
  KeyCodec, VerifyKey, is_hex_digit, read, all_write, for_key, new, permission_string,
  from_permission_string,
}
use py_syft.Permission.Strings.{
  stored, from_permission_string-permission_string, permission_string_injective,
}

-- A codec that meets the assumptions: a key as a run of the digit 0.
abbrev zeros : VerifyKey → Text
zeros zero = []
zeros (suc k) = b'0' ∷ zeros k

abbrev count_zeros : Text → ℕ
count_zeros [] = 0
count_zeros (c ∷ s) = suc (count_zeros s)

pub count_zeros-zeros : (k : ℕ) → count_zeros (zeros k) ≡ k
count_zeros-zeros zero = refl
count_zeros-zeros (suc k) = ap suc (count_zeros-zeros k)

pub zeros_hex : (k : ℕ) → All (λ c. is_hex_digit c ≡ true) (zeros k)
zeros_hex zero = tt
zeros_hex (suc k) = (refl, zeros_hex k)

abbrev pub unary_keys : KeyCodec
unary_keys = record {
  encode = zeros;
  decode = λ s. some (count_zeros s);
  decode-encode = λ k. ap some (count_zeros-zeros k);
  encode_hex = zeros_hex;
}

string_of_read : permission_string unary_keys (for_key read 7 3) ≡ codes "000_READ"
unfolding permission_string
string_of_read = refl

from_permission_string-permission_string_example :
    from_permission_string unary_keys 7 (permission_string unary_keys (for_key read 7 3))
    ≡ ok (for_key read 7 3)
from_permission_string-permission_string_example =
    from_permission_string-permission_string unary_keys 7 read (some 3) {p = for_key read 7 3}
      (unfold new in refl)

-- The strings of ALL_WRITE for two keys agree.
permission_string_injective_example :
    (all_write ≡ all_write)
    × ((stored (record { uid = 1; permission = all_write; credentials = some 3 })).credentials
        ≡ (stored (record { uid = 2; permission = all_write; credentials = some 5 })).credentials)
permission_string_injective_example =
    permission_string_injective unary_keys 1 2 all_write all_write (some 3) (some 5)
      {p = record { uid = 1; permission = all_write; credentials = some 3 }}
      {q = record { uid = 2; permission = all_write; credentials = some 5 }} (unfold new in refl)
      (unfold new in refl) (unfold permission_string in refl)
