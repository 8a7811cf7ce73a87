-- ===== src/Sync/Objects.antt =====
-- service/sync/diff_state.py, `ListDiff` and `ObjectDiff`; types/syft_object.py, `syft_get_diffs`;
-- client/sync_decision.py.
use py_syft.Prelude.{
  ℕ, zero, suc, ◌-◌, Bool, true, false, not, ◌&&◌, ◌||◌, Option, none, some, List, [], ◌∷◌, ◌++◌,
  length, elem, ◌==◌, ltb, if◌then◌else◌,
}
use py_syft.Prelude.Result.{Result, ok, err, ◌>>=◌}

pub data SyncDirection : Type 0 where
  low_to_high high_to_low : SyncDirection

pub data SyncDecision : Type 0 where
  low high skip ignore : SyncDecision

abbrev pub to_sync_decision : SyncDirection → SyncDecision
to_sync_decision low_to_high = low
to_sync_decision high_to_low = high

-- `d == SyncDecision.IGNORE`, `d == SyncDecision.SKIP`
abbrev pub is_ignore : Option SyncDecision → Bool
is_ignore (some ignore) = true
is_ignore _ = false

abbrev pub is_skip : Option SyncDecision → Bool
is_skip (some skip) = true
is_skip _ = false

-- The two servers of a comparison, `"low"` and `"high"`.
pub data Side : Type 0 where
  low_side high_side : Side

abbrev pub side_eq : Side → Side → Bool
side_eq low_side low_side = true
side_eq high_side high_side = true
side_eq _ _ = false

-- The classes that the code tells apart, with the fields that it reads. `job` has its parent job and
-- whether its type is `TWINAPIJOB`, `user_code` has its `origin_server_side_type`.
pub data Kind : Type 0 where
  user_code : Side → Kind
  request twin_api_endpoint syft_log execution_output : Kind
  job : Option ℕ → Bool → Kind
  action_object : ℕ → Kind
  other : ℕ → Kind

-- The value of an attribute: a list, or a value that is not a list. Values are numbers.
pub data Attr : Type 0 where
  value : ℕ → Attr
  values : List ℕ → Attr

-- A syncable object: its id (of a lineage id, the id in it), its class and its `__dict__`.
pub record SyncObject : Type 0 where
  pub id : ℕ
  pub kind : Kind
  pub attrs : List (ℕ × Attr)

-- `range(i, i + n)`
unfoldable pub range : ℕ → ℕ → List ℕ
range i zero = []
range i (suc n) = i ∷ range (suc i) n

pub record ListDiff : Type 0 where
  pub diff_ids : List ℕ
  pub new_low_ids : List ℕ
  pub new_high_ids : List ℕ

abbrev pub is_nil : {A : Type 0} → List A → Bool
is_nil [] = true
is_nil (x ∷ xs) = false

unfoldable pub is_empty : ListDiff → Bool
is_empty d = is_nil d.diff_ids && (is_nil d.new_low_ids && is_nil d.new_high_ids)

pub data AttrDiff : Type 0 where
  attr_diff : ℕ → Attr → Attr → AttrDiff
  list_diff : ℕ → ListDiff → AttrDiff

pub data DiffError : Type 0 where
  both_none not_the_same_id no_attribute key_error value_error no_direction : DiffError

abbrev get_attr : ℕ → List (ℕ × Attr) → Option Attr
get_attr name [] = none
get_attr name ((n, a) ∷ attrs) = if n == name then some a else get_attr name attrs

-- `x.syft_eq(y)` where `x` has it, else `x == y` or `_syft_equals(x, y)`, on the values of attributes.
module _ (equal : ℕ → ℕ → Bool) where
  -- The loop of `from_lists` over the indices that both lists have, from `i`.
  unfoldable pub diff_ids_from : ℕ → List ℕ → List ℕ → List ℕ
  diff_ids_from i [] high_list = []
  diff_ids_from i (x ∷ low_list) [] = []
  diff_ids_from i (x ∷ low_list) (y ∷ high_list) =
      let rest = diff_ids_from (suc i) low_list high_list in if equal x y then rest else i ∷ rest

  -- `from_lists`
  unfoldable pub from_lists : List ℕ → List ℕ → ListDiff
  unfolding range diff_ids_from
  from_lists low_list high_list = record {
    diff_ids = diff_ids_from 0 low_list high_list;
    new_low_ids = range (length high_list) (length low_list - length high_list);
    new_high_ids = range (length low_list) (length high_list - length low_list);
  }

  -- One attribute of `syft_get_diffs`.
  unfoldable pub attr_diffs : ℕ → Attr → Attr → List AttrDiff
  unfolding from_lists is_empty
  attr_diffs name (values l) (values h) =
      let d = from_lists l h in if is_empty d then [] else list_diff name d ∷ []
  attr_diffs name (value a) (value b) =
      if equal a b then [] else attr_diff name (value a) (value b) ∷ []
  attr_diffs name l h = attr_diff name l h ∷ []

  -- The loop of `syft_get_diffs` over the attributes that are not left out (`base_attrs_sync_ignore`,
  -- `__exclude_sync_diff_attrs__`); the other object's attribute is read by its name.
  unfoldable pub attrs_diffs : List (ℕ × Attr) → List (ℕ × Attr) → Result DiffError (List AttrDiff)
  unfolding attr_diffs
  attrs_diffs [] ext = ok []
  attrs_diffs ((name, a) ∷ attrs) ext =
      let rest = attrs_diffs attrs ext in
      elim (get_attr name ext) [
        | none ↦ err no_attribute
        | some b ↦ rest >>= λ ds. ok (attr_diffs name a b ++ ds)
      ]

  -- `syft_get_diffs`
  unfoldable pub syft_get_diffs : SyncObject → SyncObject → Result DiffError (List AttrDiff)
  unfolding attrs_diffs
  syft_get_diffs self ext_obj =
      let diffs = attrs_diffs self.attrs ext_obj.attrs in
      if self.id == ext_obj.id then diffs else err not_the_same_id

-- `ObjectDiff`; the permissions, which no decision reads, and the type of the object are left out.
pub data Status : Type 0 where
  new same modified : Status

pub record ObjectDiff : Type 0 where
  pub low_obj : Option SyncObject
  pub high_obj : Option SyncObject
  pub low_server_uid : ℕ
  pub high_server_uid : ℕ
  pub low_storage_permissions : List ℕ
  pub high_storage_permissions : List ℕ
  pub low_status : Option Status
  pub high_status : Option Status
  pub last_sync_date_low : Option ℕ
  pub last_sync_dat_high : Option ℕ
  pub diff_list : List AttrDiff

abbrev both_exist : Option SyncObject → Option SyncObject → Bool
both_exist (some l) (some h) = true
both_exist _ _ = false

-- `is_mock`
unfoldable pub is_mock : Side → ObjectDiff → Bool
is_mock low_side d =
    both_exist d.low_obj d.high_obj && not (elem d.low_server_uid d.low_storage_permissions)
is_mock high_side d =
    both_exist d.low_obj d.high_obj && not (elem d.high_server_uid d.high_storage_permissions)

abbrev is_same : Option Status → Bool
is_same (some same) = true
is_same _ = false

-- `is_mock("low") and high_status == "SAME"`, or the same with the sides exchanged.
abbrev pub hides_changes : ObjectDiff → Bool
hides_changes d =
    (is_mock low_side d && is_same d.high_status) || (is_mock high_side d && is_same d.low_status)

module _ (equal : ℕ → ℕ → Bool) where
  -- `diff_list` of `from_objects`
  unfoldable pub diff_list_of :
      Option SyncObject → Option SyncObject → Bool → Result DiffError (List AttrDiff)
  unfolding syft_get_diffs
  diff_list_of none none hidden = err both_none
  diff_list_of (some l) (some h) hidden =
      let diffs = syft_get_diffs equal l h in if hidden then ok [] else diffs
  diff_list_of l h hidden = ok []

  -- `from_objects`; the argument is the `ObjectDiff` that it first makes, whose `diff_list` is empty.
  -- `last_sync_date_high` is not the name of a field, so that the value given for it is lost.
  unfoldable pub from_objects : ObjectDiff → Result DiffError ObjectDiff
  unfolding diff_list_of
  from_objects res = diff_list_of res.low_obj res.high_obj (hides_changes res) >>= λ diffs.
      ok (record res { last_sync_dat_high = none; diff_list = diffs })

-- `last_sync_date`
abbrev date_where : Option SyncObject → Option ℕ → Option ℕ
date_where (some o) date = date
date_where none date = none

abbrev latest : Option ℕ → Option ℕ → Option ℕ
latest none date = date
latest (some l) none = some l
latest (some l) (some h) = some (if ltb l h then h else l)

unfoldable pub last_sync_date : ObjectDiff → Option ℕ
last_sync_date d =
    latest (date_where d.low_obj d.last_sync_date_low) (date_where d.high_obj d.last_sync_dat_high)

-- `status`
unfoldable pub status_of : Option SyncObject → Option SyncObject → List AttrDiff → Status
status_of (some l) (some h) [] = same
status_of (some l) (some h) (d ∷ ds) = modified
status_of l h ds = new

unfoldable pub status : ObjectDiff → Status
unfolding status_of
status d = status_of d.low_obj d.high_obj d.diff_list

abbrev first : Option SyncObject → Option SyncObject → Option SyncObject
first (some o) obj = some o
first none obj = obj

abbrev id_of : Option SyncObject → Option ℕ
id_of (some o) = some o.id
id_of none = none

-- `non_empty_object` and `object_id`, which raises `AttributeError` where both are `None`.
abbrev pub non_empty_object : ObjectDiff → Option SyncObject
non_empty_object d = first d.low_obj d.high_obj

unfoldable pub object_id : ObjectDiff → Option ℕ
object_id d = id_of (non_empty_object d)
