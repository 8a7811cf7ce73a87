-- ===== src/Stash/Env.antt =====
-- What the stash of stash.py stands on: its object type with the serialisation, the statements of
-- SQLAlchemy on the table, and the table of users.
use py_syft.Prelude.{
  ℕ, ◌≡◌, Bool, not, Option, List, [], ◌∷◌, ◌++◌, map, length, filter, if◌then◌else◌, any, Text,
  text_eq,
}
use py_syft.Prelude.Result.{Result}
use py_syft.Permission.{KeyCodec, VerifyKey}
use py_syft.Role.{ServiceRole}

-- One row; `J` are the JSON values.
pub record Row (J : Type 0) : Type 0 where
  pub id : ℕ
  pub fields : J
  pub permissions : List Text
  pub storage_permissions : List Text

-- The attribute of an object, by what `is_unique` asks of it.
pub data Attribute (J : Type 0) : Type 0 where
  null other : Attribute J
  primitive : J → Attribute J

-- `invalid_update` stands for the exceptions of `apply_partial_update`.
pub data StashError : Type 0 where
  not_found stash_exception unique_constraint invalid_update : StashError

-- `Obj` is the object type of the stash, `attr` reads an attribute that `__attr_unique__` lists,
-- `apply_partial` is `apply_partial_update`, and `from_json` gives `none` where `deserialize_json`
-- raises. `State` is what the database holds in the table, `rows` its rows in some order; a
-- statement with WHERE takes the condition, and says how many rows it met. `order` is ORDER BY,
-- `contains` the test on a JSON array, `field_eq` the test on a field, `or_` the disjunction of
-- conditions, `as_set` Python's `list(set(_))`.
-- `get_role` reads the users by `users`, where there is such a table.
pub record Env : Type 1 where
  pub keys : KeyCodec
  pub Obj : Type 0
  pub Json : Type 0
  pub Patch : Type 0
  pub object_id : Obj → ℕ
  pub unique_fields : List ℕ
  pub attr : Obj → ℕ → Attribute Json
  pub to_json : Obj → Json
  pub from_json : Json → Option Obj
  pub apply_partial : Obj → Patch → Result StashError Obj
  pub server_uid : Text
  pub users : Option (List (VerifyKey × ServiceRole))
  pub State : Type 0
  pub rows : State → List (Row Json)
  pub insert : Row Json → State → State
  pub update : (Row Json → Bool) → (Row Json → Row Json) → State → State × ℕ
  pub delete : (Row Json → Bool) → State → State × ℕ
  pub order : List (Row Json) → List (Row Json)
  pub contains : List Text → Text → Bool
  pub field_eq : Json → ℕ → Json → Bool
  pub or_ : List (Row Json → Bool) → Row Json → Bool
  pub as_set : List Text → List Text
  -- What the documentation of SQL and of Python's sets promises of these. `contains_lem` is the test on
  -- a JSON array of PostgreSQL; SQLite compares with LIKE on the text of the array, which part of a
  -- string meets too.
  pub rows-insert : (r : Row Json) (t : State) → rows (insert r t) ≡ rows t ++ r ∷ []
  pub rows-update :
      (p : Row Json → Bool) (f : Row Json → Row Json) (t : State)
      → rows (update p f t).0 ≡ map (λ r. if p r then f r else r) (rows t)
  pub count-update :
      (p : Row Json → Bool) (f : Row Json → Row Json) (t : State)
      → (update p f t).1 ≡ length (filter p (rows t))
  pub rows-delete :
      (p : Row Json → Bool) (t : State) → rows (delete p t).0 ≡ filter (λ r. not (p r)) (rows t)
  pub count-delete : (p : Row Json → Bool) (t : State) → (delete p t).1 ≡ length (filter p (rows t))
  pub order-nil : order [] ≡ []
  pub order-one : (r : Row Json) → order (r ∷ []) ≡ r ∷ []
  pub any-as_set : (s : Text) (ps : List Text) → any (text_eq s) (as_set ps) ≡ any (text_eq s) ps
  pub contains_lem : (ps : List Text) (s : Text) → contains ps s ≡ any (text_eq s) ps
