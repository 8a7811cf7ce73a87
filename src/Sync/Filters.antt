-- ===== src/Sync/Filters.antt =====
-- service/sync/diff_state.py, the filters of `ServerDiff`; client/syncing.py, `compare_states`.
use py_syft.Prelude.{
  Bool, true, false, not, Option, none, some, List, [], ◌∷◌, ◌++◌, any, filter, Text, codes,
  text_eq, if◌then◌else◌,
}
use py_syft.Sync.Objects.{
  SyncDirection, low_to_high, high_to_low, Side, low_side, high_side, Status, new, same, modified,
  is_ignore,
}
use py_syft.Sync.Batch.{Batch}

pub data FilterProperty : Type 0 where
  user type_name status_of ignored : FilterProperty

-- The value of a filter with its operator: `operator.eq` and `operator.ne` of a string, `operator.ne`
-- of a Boolean, and `operator.contains` of a set of strings.
pub data FilterValue : Type 0 where
  equals differs : Text → FilterValue
  differs_flag : Bool → FilterValue
  among : List Text → FilterValue

pub record ServerDiffFilter : Type 0 where
  pub filter_property : FilterProperty
  pub filter_value : FilterValue

-- What `from_batch` gives, or that it raises.
pub data Property : Type 0 where
  text : Text → Property
  flag : Bool → Property
  raises : Property

-- What the filters read off a batch: `user.email`, which raises without user code, the name of the
-- class of the root, and the status of the batch, which may raise.
pub record View : Type 0 where
  pub email : Batch → Option Text
  pub type_name : Batch → Text
  pub batch_status : Batch → Option Status

abbrev pub lower_status : Status → Text
lower_status new = codes "new"
lower_status same = codes "same"
lower_status modified = codes "modified"

abbrev pub text_or_raises : Option Text → Property
text_or_raises none = raises
text_or_raises (some t) = text t

abbrev pub status_or_raises : Option Status → Property
status_or_raises none = raises
status_or_raises (some s) = text (lower_status s)

-- `str.lower`
module _ (lower : Text → Text) (v : View) where
  -- `FilterProperty.from_batch`
  unfoldable pub from_batch : FilterProperty → Batch → Property
  from_batch user b = text_or_raises (v.email b)
  from_batch type_name b = text (lower (v.type_name b))
  from_batch status_of b = status_or_raises (v.batch_status b)
  from_batch ignored b = flag (is_ignore b.decision)

  -- The comparison; values of two types are not equal, and what raises excludes the batch.
  unfoldable pub holds : FilterValue → Property → Bool
  holds (equals t) (text p) = text_eq p (lower t)
  holds (differs t) (text p) = not (text_eq p (lower t))
  holds (differs t) (flag f) = true
  holds (differs_flag f) (flag g) = if f then not g else g
  holds (differs_flag f) (text p) = true
  holds (among ts) (text p) = any (text_eq p) ts
  holds x p = false

  -- `ServerDiffFilter.__call__`
  unfoldable pub call : ServerDiffFilter → Batch → Bool
  unfolding from_batch holds
  call f b = holds f.filter_value (from_batch f.filter_property b)

  -- `_apply_filters`
  unfoldable pub apply_filters : List ServerDiffFilter → List Batch → List Batch
  unfolding call
  apply_filters [] bs = bs
  apply_filters (f ∷ fs) bs = apply_filters fs (filter (call f) bs)

  -- The filters of `_filter`, by its arguments.
  abbrev pub user_filter : Option Text → List ServerDiffFilter
  user_filter none = []
  user_filter (some t) = record { filter_property = user; filter_value = equals t } ∷ []

  abbrev pub ignored_filter : Bool → List ServerDiffFilter
  ignored_filter true = []
  ignored_filter false = record { filter_property = ignored; filter_value = differs_flag true } ∷ []

  abbrev pub same_filter : Bool → List ServerDiffFilter
  same_filter true = []
  same_filter false =
      record { filter_property = status_of; filter_value = differs (codes "SAME") } ∷ []

  abbrev pub lower_all : List Text → List Text
  lower_all [] = []
  lower_all (t ∷ ts) = lower t ∷ lower_all ts

  abbrev pub include_filter : Option (List Text) → List ServerDiffFilter
  include_filter none = []
  include_filter (some ts) =
      record { filter_property = type_name; filter_value = among (lower_all ts) } ∷ []

  abbrev pub exclude_filters : List Text → List ServerDiffFilter
  exclude_filters [] = []
  exclude_filters (t ∷ ts) =
      record { filter_property = type_name; filter_value = differs t } ∷ exclude_filters ts

  -- `_filter` of all batches.
  unfoldable pub filter_batches :
      Option Text → Bool → Bool → Option (List Text) → List Text → List Batch → List Batch
  unfolding apply_filters
  filter_batches user_email include_ignored include_same include_types exclude_types bs =
      apply_filters
        (user_filter user_email
          ++ (ignored_filter include_ignored
              ++ (same_filter include_same
                  ++ (include_filter include_types ++ exclude_filters exclude_types))))
        bs

-- The low and the high server among two, and the direction, of `compare_states`; `none` is an
-- exception.
unfoldable pub compare_direction : Side → Side → Option SyncDirection
compare_direction low_side high_side = some low_to_high
compare_direction high_side low_side = some high_to_low
compare_direction _ _ = none

-- `exclude_types.append("usercode")`
unfoldable pub exclude_with : Bool → List Text → List Text
exclude_with true ts = ts ++ codes "usercode" ∷ []
exclude_with false ts = ts
