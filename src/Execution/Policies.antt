-- ===== src/Execution/Policies.antt =====
-- The input and output policies of policy.py.
use py_syft.Prelude.{
  ℕ, Bool, true, false, not, ◌&&◌, ◌||◌, Option, none, some, List, [], ◌∷◌, ltb, ◌==◌,
  if◌then◌else◌,
}
use py_syft.Prelude.Result.{Result, ok, err, raise_if, or_raise, ◌>>=◌, ◌>>◌}

-- `failed_filter` stands for what `MixedInputPolicy.filter_kwargs` raises on any exception.
pub data CallError : Type 0 where
  wrong_server not_allowed not_found failed_filter rule_not_met : CallError
  missing_kwarg not_approved_kwarg no_uid : CallError
  no_input_policy no_mock_permission not_approved denied blocking unreadable run_error : CallError

-- A dict with names for keys; ids and names are numbers.
abbrev pub find_kw {ℓ} : {A : Type ℓ} → ℕ → List (ℕ × A) → Option A
find_kw k [] = none
find_kw k ((j, a) ∷ l) = if j == k then some a else find_kw k l

abbrev pub has_kw {ℓ} : {A : Type ℓ} → ℕ → List (ℕ × A) → Bool
has_kw k [] = false
has_kw k ((j, a) ∷ l) = (j == k) || has_kw k l

abbrev pub put_kw {ℓ} : {A : Type ℓ} → ℕ → A → List (ℕ × A) → List (ℕ × A)
put_kw k a [] = (k, a) ∷ []
put_kw k a ((j, b) ∷ l) = if j == k then (k, a) ∷ l else (j, b) ∷ put_kw k a l

-- The action service: `_get` as the server itself, `none` where it raises; for the id of a link it
-- gives the object behind the link, which has another id; the type of an object's
-- data; and whether a key has the OWNER permission on an object.
pub record Actions : Type 1 where
  pub Obj : Type 0
  pub get : ℕ → Option Obj
  pub id : Obj → ℕ
  pub type : Obj → ℕ
  pub owned : ℕ → ℕ → Bool

-- The rules `Matches`, `Constant` and `UserOwned`.
pub data Rule : Type 0 where
  matches constant user_owned : ℕ → Rule

pub record Server : Type 0 where
  pub id : ℕ
  pub is_datasite : Bool

-- `_.items()` of the inputs or rules of all servers, by the server's id.
abbrev pub ByServer {ℓ} : Type ℓ → Type ℓ
ByServer A = List (ℕ × List (ℕ × A))

-- Every key of every server is among those.
abbrev pub has_keys {ℓ ℓ'} : {A : Type ℓ} {B : Type ℓ'} → List (ℕ × A) → List (ℕ × B) → Bool
has_keys [] r = true
has_keys ((k, a) ∷ l) r = has_kw k r && has_keys l r

abbrev pub all_keys {ℓ ℓ'} : {A : Type ℓ} {B : Type ℓ'} → ByServer A → List (ℕ × B) → Bool
all_keys [] r = true
all_keys ((s, l) ∷ ls) r = has_keys l r && all_keys ls r

-- The inputs that are allowed for a server.
abbrev pub inputs_of : ℕ → ByServer ℕ → List (ℕ × ℕ)
inputs_of s [] = []
inputs_of s ((t, l) ∷ ls) = if t == s then l else inputs_of s ls

-- The loop of `allowed_ids_only`; the keys of a dict differ, so that each is added at the end.
abbrev pub keep_allowed :
    ℕ → ℕ → Option ℕ → Result CallError (List (ℕ × ℕ)) → Result CallError (List (ℕ × ℕ))
keep_allowed k i none rest = rest
keep_allowed k i (some u) rest = if u == i then (rest >>= λ r. ok ((k, u) ∷ r)) else err not_allowed

unfoldable pub allowed_loop : List (ℕ × ℕ) → List (ℕ × ℕ) → Result CallError (List (ℕ × ℕ))
allowed_loop [] kwargs = ok []
allowed_loop ((k, i) ∷ l) kwargs = keep_allowed k i (find_kw k kwargs) (allowed_loop l kwargs)

unfoldable pub allowed_ids_only :
    Server → ByServer ℕ → List (ℕ × ℕ) → Result CallError (List (ℕ × ℕ))
unfolding allowed_loop
allowed_ids_only server inputs kwargs =
    raise_if (not server.is_datasite) wrong_server
    >> allowed_loop (inputs_of server.id inputs) kwargs

module _ (a : Actions) where
  open a use {Obj, get}

  -- What the code gets for an argument.
  pub data Input : Type 0 where
    object : Obj → Input
    value : ℕ → Input

  -- `is_met`, for the caller.
  unfoldable pub is_met : ℕ → Rule → Obj → Bool
  is_met caller (matches i) o = a.id o == i
  is_met caller (constant v) o = true
  is_met caller (user_owned t) o = (a.type o == t) && a.owned caller (a.id o)

  unfoldable pub checked_input : ℕ → Rule → Option Obj → Result CallError Input
  unfolding is_met
  checked_input caller rule none = err failed_filter
  checked_input caller rule (some o) =
      if is_met caller rule o then ok (object o) else err failed_filter

  -- `kwargs[kw]` and `retrieve_item_from_db`
  abbrev pub get_passed : Option ℕ → Option Obj
  get_passed none = none
  get_passed (some i) = get i

  -- The body of the loop of `MixedInputPolicy.filter_kwargs`.
  unfoldable pub filter_rule : ℕ → List (ℕ × ℕ) → ℕ → Rule → Result CallError Input
  unfolding checked_input
  filter_rule caller kwargs kw (constant v) = ok (value v)
  filter_rule caller kwargs kw (matches i) =
      checked_input caller (matches i) (get_passed (find_kw kw kwargs))
  filter_rule caller kwargs kw (user_owned t) =
      checked_input caller (user_owned t) (get_passed (find_kw kw kwargs))

  unfoldable pub filter_rules :
      ℕ → List (ℕ × ℕ) → List (ℕ × Rule) → List (ℕ × Input) → Result CallError (List (ℕ × Input))
  unfolding filter_rule
  filter_rules caller kwargs [] res = ok res
  filter_rules caller kwargs ((kw, rule) ∷ rules) res =
      filter_rule caller kwargs kw rule >>= λ i. filter_rules caller kwargs rules (put_kw kw i res)

  unfoldable pub filter_servers :
      ℕ → List (ℕ × ℕ) → ByServer Rule → List (ℕ × Input) → Result CallError (List (ℕ × Input))
  unfolding filter_rules
  filter_servers caller kwargs [] res = ok res
  filter_servers caller kwargs ((s, rules) ∷ ls) res =
      filter_rules caller kwargs rules res >>= filter_servers caller kwargs ls

  -- `MixedInputPolicy.filter_kwargs`
  unfoldable pub mixed_filter_kwargs :
      ℕ → ByServer Rule → List (ℕ × ℕ) → Result CallError (List (ℕ × Input))
  unfolding filter_servers
  mixed_filter_kwargs caller rules kwargs = filter_servers caller kwargs rules []

  abbrev pub missing {ℓ} : {A : Type ℓ} → List (ℕ × A) → List (ℕ × ℕ) → List (ℕ × Input) → Bool
  missing [] kwargs res = false
  missing ((k, x) ∷ l) kwargs res =
      (not (has_kw k kwargs) && not (has_kw k res)) || missing l kwargs res

  abbrev pub any_missing {ℓ} : {A : Type ℓ} → ByServer A → List (ℕ × ℕ) → List (ℕ × Input) → Bool
  any_missing [] kwargs res = false
  any_missing ((s, l) ∷ ls) kwargs res = missing l kwargs res || any_missing ls kwargs res

  -- `MixedInputPolicy.is_valid`, which returns true where it does not raise.
  unfoldable pub mixed_is_valid : ℕ → ByServer Rule → List (ℕ × ℕ) → Result CallError (Unit {0})
  unfolding mixed_filter_kwargs
  mixed_is_valid caller rules kwargs = mixed_filter_kwargs caller rules kwargs >>= λ res.
      raise_if (any_missing rules kwargs res) missing_kwarg
      >> raise_if (not (all_keys rules res)) not_approved_kwarg

  -- `retrieve_from_db`
  unfoldable pub retrieve_all : List (ℕ × ℕ) → Result CallError (List (ℕ × Input))
  retrieve_all [] = ok []
  retrieve_all ((k, i) ∷ l) =
      or_raise (get i) not_found >>= λ o. retrieve_all l >>= λ r. ok ((k, object o) ∷ r)

  unfoldable pub retrieve_from_db : Server → List (ℕ × ℕ) → Result CallError (List (ℕ × Input))
  unfolding retrieve_all
  retrieve_from_db server l = raise_if (not server.is_datasite) wrong_server >> retrieve_all l

  -- `ExactMatch.filter_kwargs`
  unfoldable pub exact_filter_kwargs :
      Server → ByServer ℕ → List (ℕ × ℕ) → Result CallError (List (ℕ × Input))
  unfolding allowed_ids_only retrieve_from_db
  exact_filter_kwargs server inputs kwargs =
      allowed_ids_only server inputs kwargs >>= retrieve_from_db server

  -- `ExactMatch.is_valid`
  unfoldable pub exact_is_valid : Server → ByServer ℕ → List (ℕ × ℕ) → Result CallError (Unit {0})
  unfolding exact_filter_kwargs
  exact_is_valid server inputs kwargs = exact_filter_kwargs server inputs kwargs >>= λ res.
      raise_if (not (all_keys inputs kwargs)) missing_kwarg
      >> raise_if (not (all_keys inputs res)) not_approved_kwarg

-- `OutputPolicyExecuteCount` with its limit (1 for `OutputPolicyExecuteOnce`), or a policy of the
-- user, by what its `is_valid` says, `none` where that raises a SyftException; another exception
-- leaves the call and is not modelled.
pub data OutputPolicy : Type 0 where
  execute_count : ℕ → OutputPolicy
  user_defined : Option Bool → OutputPolicy

-- `is_valid` of the policy, by the number of outputs stored for it.
abbrev pub output_is_valid : OutputPolicy → ℕ → Option Bool
output_is_valid (execute_count limit) count = some (ltb count limit)
output_is_valid (user_defined v) count = v
