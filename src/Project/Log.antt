-- ===== src/Project/Log.antt =====
-- Events, their hashes and signatures, and the log of a project (project.py).
use py_syft.Prelude.{
  ℕ, ◌+◌, ◌≡◌, ◌↔◌, Bool, true, false, not, ◌&&◌, ◌||◌, Option, none, some, List, [], ◌∷◌, ◌++◌,
  any, elem, ◌==◌, if◌then◌else◌,
}
use py_syft.Prelude.Result.{Result, ok, err, raise_if, or_raise, ◌>>=◌, ◌>>◌}

-- What `create_project_event_hash` hashes.
pub record Hashed (Digest : Type 0) : Type 0 where
  pub id : ℕ
  pub project_id : Option ℕ
  pub seq_no : Option ℕ
  pub prev_event_uid : Option ℕ
  pub timestamp : ℕ
  pub prev_event_hash : Option Digest
  pub creator_verify_key : Option ℕ

-- `hash_object` (SHA-256 of the serialisation), the equality of its digests, and the signatures of
-- PyNaCl. A signature verifies under the key that belongs to the signing key.
pub record Crypto : Type 1 where
  pub Digest : Type 0
  pub digest_eq : Digest → Digest → Bool
  pub digest_eq_iff : (a b : Digest) → (digest_eq a b ≡ true) ↔ (a ≡ b)
  pub hash : Hashed Digest → Digest
  pub verify_key : ℕ → ℕ
  pub sign : ℕ → Digest → ℕ
  pub verify : ℕ → Digest → ℕ → Bool
  pub verify-sign : (k : ℕ) (d : Digest) → verify (verify_key k) d (sign k d) ≡ true

pub data ProjectError : Type 0 where
  unsigned invalid_event wrong_prev wrong_hash wrong_seq wrong_project key_error : ProjectError
  not_subevent creator_changed already_added not_leader out_of_sync out_of_order : ProjectError
  no_seq_no peer_error : ProjectError

abbrev pub same : Option ℕ → Option ℕ → Bool
same none none = true
same (some a) (some b) = a == b
same _ _ = false

module _ (c : Crypto) where
  open c use {Digest, digest_eq, hash, verify_key, sign, verify}

  -- `ProjectEvent`: `kind` is its class, `content` what its class adds, `parent_event_id` the
  -- attribute of the classes that have it.
  pub record Event : Type 0 where
    pub id : ℕ
    pub timestamp : ℕ
    pub kind : ℕ
    pub content : ℕ
    pub allowed_sub_types : Option (List ℕ)
    pub parent_event_id : Option ℕ
    pub project_id : Option ℕ
    pub seq_no : Option ℕ
    pub prev_event_uid : Option ℕ
    pub prev_event_hash : Option Digest
    pub event_hash : Option Digest
    pub creator_verify_key : Option ℕ
    pub signature : Option ℕ

  -- `Project`: members and users by their verify keys. `event_id_hashmap` is by event id.
  pub record Project : Type 0 where
    pub id : ℕ
    pub start_hash : Option Digest
    pub members : List ℕ
    pub users : List ℕ
    pub state_sync_leader : ℕ
    pub events : List Event
    pub event_id_hashmap : List Event

  abbrev pub same_hash : Option Digest → Option Digest → Bool
  same_hash none none = true
  same_hash (some a) (some b) = digest_eq a b
  same_hash _ _ = false

  abbrev pub hashed : Event → Hashed Digest
  hashed e = record {
    id = e.id;
    project_id = e.project_id;
    seq_no = e.seq_no;
    prev_event_uid = e.prev_event_uid;
    timestamp = e.timestamp;
    prev_event_hash = e.prev_event_hash;
    creator_verify_key = e.creator_verify_key;
  }

  -- `create_project_event_hash`
  unfoldable pub create_project_event_hash : Event → Digest
  create_project_event_hash e = hash (hashed e)

  abbrev pub last_event : List Event → Option Event
  last_event [] = none
  last_event (e ∷ []) = some e
  last_event (e ∷ f ∷ l) = last_event (f ∷ l)

  abbrev pub prev_id : Project → Option Event → ℕ
  prev_id p none = p.id
  prev_id p (some e) = e.id

  abbrev pub prev_hash : Project → Option Event → Option Digest
  prev_hash p none = p.start_hash
  prev_hash p (some e) = e.event_hash

  abbrev pub prev_seq_no : Option Event → Option ℕ
  prev_seq_no none = some 0
  prev_seq_no (some e) = e.seq_no

  -- The event that `rebase` follows: one without a number counts as none.
  abbrev pub with_number : Event → Option ℕ → Option Event
  with_number e none = none
  with_number e (some n) = some e

  abbrev pub numbered : Option Event → Option Event
  numbered none = none
  numbered (some e) = with_number e e.seq_no

  abbrev pub number_after : Option ℕ → ℕ
  number_after none = 1
  number_after (some n) = n + 1

  abbrev pub next_seq_no : Option Event → ℕ
  next_seq_no none = 1
  next_seq_no (some e) = number_after e.seq_no

  -- `rebase`
  unfoldable pub rebase : Project → Event → Event
  rebase p e =
      let prev = numbered (last_event p.events) in
      record e {
        project_id = some p.id;
        prev_event_uid = some (prev_id p prev);
        prev_event_hash = prev_hash p prev;
        seq_no = some (next_seq_no prev);
      }

  -- `sign`
  unfoldable pub sign_event : ℕ → Event → Result ProjectError Event
  unfolding create_project_event_hash
  sign_event k e =
      if not (same e.creator_verify_key (some (verify_key k)))
      then err creator_changed
      else ok (record e {
        event_hash = some (create_project_event_hash e);
        signature = some (sign k (create_project_event_hash e));
      })

  unfoldable pub check_signature : Event → Option ℕ → Option ℕ → Result ProjectError (Unit {0})
  unfolding create_project_event_hash
  check_signature e none s = err unsigned
  check_signature e (some s) none = err invalid_event
  check_signature e (some s) (some k) =
      raise_if (not (same_hash (some (create_project_event_hash e)) e.event_hash)) invalid_event
      >> raise_if (not (verify k (create_project_event_hash e) s)) invalid_event

  -- `valid`
  unfoldable pub valid : Event → Result ProjectError (Unit {0})
  unfolding check_signature
  valid e = check_signature e e.signature e.creator_verify_key

  abbrev pub wrong_number : Option ℕ → Option ℕ → Bool
  wrong_number (some m) (some n) = not (n == m + 1)
  wrong_number _ _ = false

  abbrev pub find_event : ℕ → List Event → Option Event
  find_event i [] = none
  find_event i (e ∷ l) = if e.id == i then some e else find_event i l

  abbrev pub allows : Option (List ℕ) → ℕ → Bool
  allows none k = true
  allows (some ks) k = elem k ks

  unfoldable pub check_parent : Project → Event → Option ℕ → Result ProjectError (Unit {0})
  check_parent p e none = ok tt
  check_parent p e (some i) = or_raise (find_event i p.event_id_hashmap) key_error >>= λ parent.
      raise_if (not (allows parent.allowed_sub_types e.kind)) not_subevent

  -- `valid_descendant`
  unfoldable pub valid_descendant : Project → Option Event → Event → Result ProjectError (Unit {0})
  unfolding valid check_parent
  valid_descendant p prev e =
      valid e
      >> raise_if (not (same e.prev_event_uid (some (prev_id p prev)))) wrong_prev
      >> raise_if (not (same_hash e.prev_event_hash (prev_hash p prev))) wrong_hash
      >> raise_if (wrong_number (prev_seq_no prev) e.seq_no) wrong_seq
      >> raise_if (not (same e.project_id (some p.id))) wrong_project
      >> check_parent p e e.parent_event_id

  -- The loop of `validate_events`, behind the last event so far.
  unfoldable pub validate_from :
      Project → Option Event → List Event → Result ProjectError (Unit {0})
  unfolding valid_descendant
  validate_from p prev [] = ok tt
  validate_from p prev (e ∷ l) = valid_descendant p prev e >> validate_from p (some e) l

  unfoldable pub validate_events : Project → Result ProjectError (Unit {0})
  unfolding validate_from
  validate_events p = validate_from p none p.events

  -- `has_permission`, which is `key_in_project`.
  unfoldable pub has_permission : Project → ℕ → Bool
  has_permission p k = elem k p.members || elem k p.users

  -- `event_id_hashmap[event.id] = event`
  abbrev pub put_event : Event → List Event → List Event
  put_event e [] = e ∷ []
  put_event e (f ∷ l) = if f.id == e.id then e ∷ l else f ∷ put_event e l

  -- An event is appended to the log.
  abbrev pub append_event : Event → Project → Project
  append_event e p = record p {
    events = p.events ++ e ∷ [];
    event_id_hashmap = put_event e p.event_id_hashmap;
  }

  -- `get_events`, with the classes, parents and ids asked for; `is_a` is `isinstance` on classes.
  abbrev pub is_empty : List ℕ → Bool
  is_empty [] = true
  is_empty _ = false

  abbrev pub parent_check : Option ℕ → List ℕ → Bool
  parent_check none parents = is_empty parents
  parent_check (some i) parents = elem i parents

  unfoldable pub get_events : (ℕ → ℕ → Bool) → List ℕ → List ℕ → List ℕ → List Event → List Event
  get_events is_a types parents ids [] = []
  get_events is_a types parents ids (e ∷ l) =
      let rest = get_events is_a types parents ids l in
      if (is_empty types || any (is_a e.kind) types)
        && parent_check e.parent_event_id parents
        && (is_empty ids || elem e.id ids)
      then e ∷ rest
      else rest
