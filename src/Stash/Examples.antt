-- ===== src/Stash/Examples.antt =====
-- The theorems on the stash of stash.py at concrete tables.
use py_syft.Prelude.{
  ℕ, ◌≡◌, refl, Bool, true, false, not, ◌||◌, some, List, [], ◌∷◌, ◌++◌, map, length, filter, any,
  ◌==◌, if◌then◌else◌, arith, Text, text_eq, count, codes,
}
use py_syft.Prelude.Result.{ok, err}
use py_syft.Permission.{for_key, read, write, permission_string, compound_permission_string}
use py_syft.Permission.Examples.{unary_keys}
use py_syft.Role.{admin}
use py_syft.Stash.Env.{Row, primitive, not_found, unique_constraint, Env}
use py_syft.Stash.Access.{
  get_by_uid, exists, is_unique, get_role, grants, sees_all, find_role, permitted, unique_filters,
  add_filter, only_self, some_fields,
}
use py_syft.Stash.Write.{
  upsert, whole, partial, set, update, delete_by_uid, set_case, taken, updated, update_object,
}
use py_syft.Stash.Rows.{find_row, UniqueIds}
use py_syft.Stash.Grants.{has_permissions, add_permission, remove_permission}
use py_syft.Stash.Reading.{get_by_uid_lem, read_row}
use py_syft.Stash.Writing.{owned_row, set_lem, Inserted}
use py_syft.Stash.Raising.{set_raises, update_raises}
use py_syft.Stash.Deleting.{delete_by_uid_lem}
use py_syft.Stash.Updating.{update_lem}
use py_syft.Stash.Storage.{
  StoragePermission, add_storage_permission, remove_storage_permission, has_storage_permission,
}
use py_syft.Stash.Upserting.{upsert_lem}
use py_syft.Stash.Storing.{add_storage_permission_lem, remove_storage_permission_lem}
use py_syft.Stash.Granting.{has_permissions_apart, add_permission_lem, remove_permission_lem}

-- Objects are an id and a value, and the value is unique.
abbrev pub Thing : Type 0
Thing = ℕ × ℕ

abbrev any_of : {A : Type 0} → List (A → Bool) → A → Bool
any_of [] a = false
any_of (p ∷ ps) a = p a || any_of ps a

abbrev pub things : Env
things = record {
  keys = unary_keys;
  Obj = Thing;
  Json = Thing;
  Patch = ℕ;
  object_id = λ o. o.0;
  unique_fields = 0 ∷ [];
  attr = λ o f. primitive o;
  to_json = λ o. o;
  from_json = λ j. some j;
  apply_partial = λ o v. ok (o.0, v);
  server_uid = codes "server";
  users = some ((9, admin) ∷ []);
  State = List (Row Thing);
  rows = λ t. t;
  insert = λ r t. t ++ r ∷ [];
  update = λ p f t. (map (λ r. if p r then f r else r) t, length (filter p t));
  delete = λ p t. (filter (λ r. not (p r)) t, length (filter p t));
  order = λ l. l;
  contains = λ ps s. any (text_eq s) ps;
  field_eq = λ j f v. j.1 == v.1;
  or_ = any_of;
  as_set = λ ps. ps;
  rows-insert = λ r t. refl;
  rows-update = λ p f t. refl;
  count-update = λ p f t. refl;
  rows-delete = λ p t. refl;
  count-delete = λ p t. refl;
  order-nil = refl;
  order-one = λ r. refl;
  any-as_set = λ s ps. refl;
  contains_lem = λ ps s. refl;
}

abbrev pub row_of : ℕ → ℕ → List Text → Row Thing
row_of uid v ps = record { id = uid; fields = (uid, v); permissions = ps; storage_permissions = [] }

abbrev pub reads : ℕ → Text
unfolding permission_string
reads k = permission_string unary_keys (for_key read 0 k)

abbrev pub writes : ℕ → Text
unfolding permission_string
writes k = permission_string unary_keys (for_key write 0 k)

-- Key 1 may read and write object 5; key 2 may only write it; key 3 may do neither.
abbrev pub table : List (Row Thing)
table = row_of 5 50 (reads 1 ∷ writes 1 ∷ writes 2 ∷ []) ∷ row_of 6 60 [] ∷ []

pub table-UniqueIds : UniqueIds table
unfolding count
table-UniqueIds uid = ground arith

-- Key 1 reads object 5.
get_by_uid_lem_example :
    get_by_uid things 1 5 false table
    ≡ read_row things
        (λ r. (false || sees_all things (get_role things 1)) || grants things (for_key read 0 1) r)
        (find_row 5 table)
get_by_uid_lem_example = get_by_uid_lem things 1 5 false table table-UniqueIds

-- Key 3 stores a new object.
set_lem_example :
    ((set things 3 (7, 70) [] true false table).0 ≡ ok (7, 70))
    × Inserted things
        (owned_row things 3 (7, 70) [] true)
        table
        (set things 3 (7, 70) [] true false table).1
unfolding exists is_unique unique_filters add_filter only_self some_fields
set_lem_example =
    set_lem things 3 (7, 70) [] true false table (7, 70) table-UniqueIds refl refl refl

-- Object 5 is there already.
taken_id_unchanged : (set things 3 (5, 1) [] true false table).1 ≡ table
unfolding set set_case taken exists
taken_id_unchanged = set_raises things 3 (5, 1) [] true false table unique_constraint refl

-- Key 3 may not read object 5, which its update needs.
forbidden_unchanged : (update things 3 (partial 5 51) false table).1 ≡ table
unfolding update updated update_object get_by_uid permitted grants get_role find_role
    permission_string compound_permission_string
forbidden_unchanged = update_raises things 3 (partial 5 51) false table not_found refl

delete_by_uid_lem_example :
    ((delete_by_uid things 2 5 false table).0 ≡ ok 5)
    × ((delete_by_uid things 2 5 false table).1 ≡ row_of 6 60 [] ∷ [])
unfolding grants get_role find_role permission_string
delete_by_uid_lem_example = delete_by_uid_lem things 2 5 false table table-UniqueIds

update_lem_example :
    ((update things 1 (whole (5, 51)) false table).0 ≡ ok (5, 51))
    × ((update things 1 (whole (5, 51)) false table).1
        ≡ row_of 5 51 (reads 1 ∷ writes 1 ∷ writes 2 ∷ []) ∷ row_of 6 60 [] ∷ [])
unfolding grants get_role find_role permission_string is_unique unique_filters add_filter only_self
    some_fields
update_lem_example = update_lem things 1 (5, 51) (5, 51) false table table-UniqueIds refl refl

-- Permissions are waived, but key 2 may not read what it has written.
waived_update : update things 2 (whole (5, 51)) true table ≡ (err not_found, table)
unfolding grants get_role find_role permission_string is_unique unique_filters add_filter only_self
    some_fields compound_permission_string
waived_update = update_lem things 2 (5, 51) (5, 51) true table table-UniqueIds refl refl

apart_is_denied : has_permissions things (for_key write 5 1 ∷ for_key read 6 1 ∷ []) table ≡ false
apart_is_denied =
    has_permissions_apart things (for_key write 5 1 ∷ for_key read 6 1 ∷ []) 5 6 table refl refl
      refl

add_permission_at_work :
    ((add_permission things (for_key read 5 3) false table).0 ≡ ok tt)
    × (has_permissions things
          (for_key read 5 3 ∷ [])
          (add_permission things (for_key read 5 3) false table).1
        ≡ true)
unfolding permission_string grants
add_permission_at_work =
    add_permission_lem things (for_key read 5 3) (for_key read 5 3) false
      (row_of 5 50 (reads 1 ∷ writes 1 ∷ writes 2 ∷ [])) table table-UniqueIds refl

remove_permission_at_work :
    ((remove_permission things (for_key read 5 1) table).0 ≡ ok tt)
    × (has_permissions things
          (for_key read 5 1 ∷ [])
          (remove_permission things (for_key read 5 1) table).1
        ≡ false)
unfolding permission_string grants compound_permission_string
remove_permission_at_work =
    remove_permission_lem things (for_key read 5 1) (for_key read 5 1)
      (row_of 5 50 (reads 1 ∷ writes 1 ∷ writes 2 ∷ [])) table table-UniqueIds refl

abbrev on_server : ℕ → StoragePermission
on_server uid = record { uid = uid; server = codes "server" }

added_holder :
    ((add_storage_permission things (on_server 5) false table).0 ≡ ok tt)
    × (has_storage_permission things
          (on_server 5)
          (add_storage_permission things (on_server 5) false table).1
        ≡ true)
added_holder =
    add_storage_permission_lem things (on_server 5) (on_server 5) false
      (row_of 5 50 (reads 1 ∷ writes 1 ∷ writes 2 ∷ [])) table table-UniqueIds refl

removed_holder :
    ((remove_storage_permission things (on_server 5) table).0 ≡ ok tt)
    × (has_storage_permission things
          (on_server 5)
          (remove_storage_permission things (on_server 5) table).1
        ≡ false)
removed_holder =
    remove_storage_permission_lem things (on_server 5) (on_server 5)
      (row_of 5 50 (reads 1 ∷ writes 1 ∷ writes 2 ∷ [])) table table-UniqueIds refl

-- Object 5 is there, and is updated.
upsert_lem_example : upsert things 1 (5, 51) table ≡ update things 1 (whole (5, 51)) false table
unfolding exists is_unique unique_filters add_filter only_self some_fields
upsert_lem_example = upsert_lem things 1 (5, 51) (5, 51) table table-UniqueIds refl refl
