-- ===== src/Project/Examples.antt =====
-- The theorems on projects with a concrete hash.
use py_syft.Prelude.{
  ◌⊎◌, ℕ, suc, ◌≡◌, refl, Bool, true, false, Option, none, some, [], ◌∷◌, map, ◌==◌, ==_refl, elem,
  if◌then◌else◌, arith, Text, text_eq, text_eq_refl, text_eq→eq,
}
use py_syft.Prelude.Result.{Result, ok}
use py_syft.Project.Log.{
  Hashed, Crypto, ProjectError, Event, Project, hashed, rebase, create_project_event_hash,
  validate_from, validate_events, append_event,
}
use py_syft.Project.Service.{Followers, broadcast_event, sync, add_event}
use py_syft.Project.Chain.{Collide, validate_events-agree}
use py_syft.Project.Growing.{prepared, prepared-validates}
use py_syft.Project.Serving.{sync-catches_up, RaisesUnchanged, broadcast_event-raises}
use py_syft.Project.Adding.{IsSound, broadcast_event_lem, add_event-IsSound}

abbrev opt : Option ℕ → ℕ
opt none = 0
opt (some n) = suc n

abbrev prev_code : Option Text → Text
prev_code none = []
prev_code (some d) = 1 ∷ d

-- The fields one after the other.
abbrev listed : Hashed Text → Text
listed h =
    h.id
    ∷ opt h.project_id
    ∷ opt h.seq_no
    ∷ opt h.prev_event_uid
    ∷ h.timestamp
    ∷ opt h.creator_verify_key
    ∷ prev_code h.prev_event_hash

abbrev plain_hash : Crypto
plain_hash = record {
  Digest = Text;
  digest_eq = text_eq;
  digest_eq_iff = λ a b. (text_eq→eq a b, λ h. rw h (text_eq_refl b));
  hash = listed;
  verify_key = λ k. k;
  sign = λ k d. k;
  verify = λ v d s. v == s;
  verify-sign = λ k d. ==_refl k;
}

abbrev empty : Project plain_hash
empty = record {
  id = 50;
  start_hash = some (50 ∷ []);
  members = 7 ∷ [];
  users = 1 ∷ [];
  state_sync_leader = 7;
  events = [];
  event_id_hashmap = [];
}

abbrev note : ℕ → Event plain_hash
note i = record {
  id = i;
  timestamp = 9;
  kind = 2;
  content = 4;
  allowed_sub_types = none;
  parent_event_id = none;
  project_id = none;
  seq_no = none;
  prev_event_uid = none;
  prev_event_hash = none;
  event_hash = none;
  creator_verify_key = none;
  signature = none;
}

abbrev alone : Followers plain_hash
alone m = none

abbrev quiet : ℕ → Event plain_hash → Result ProjectError (Unit {0})
quiet server e = ok tt

only_server : (m : ℕ) → elem m (7 ∷ []) ≡ true → m ≡ 7
only_server m h = ground arith

empty-IsSound : IsSound plain_hash empty
unfolding validate_events validate_from
empty-IsSound = (refl, refl, refl)

-- User 1 adds note 60.
add_event-IsSound_example :
    (x : Event plain_hash) × (add_event plain_hash quiet 7 1 (note 60) empty empty alone
      ≡ (ok (append_event plain_hash x empty), append_event plain_hash x empty, alone))
    × (x.id ≡ 60)
    × IsSound plain_hash (append_event plain_hash x empty)
add_event-IsSound_example =
    add_event-IsSound plain_hash quiet 7 1 (note 60) empty alone empty-IsSound only_server refl
      (λ x. refl) refl refl

-- The number 0 is taken too at first, and from anyone.
broadcast_event_at_work :
    broadcast_event plain_hash quiet 7 99 (record (note 60) { seq_no = some 0 }) empty alone
    ≡ (ok tt, append_event plain_hash (record (note 60) { seq_no = some 0 }) empty, alone)
broadcast_event_at_work =
    broadcast_event_lem plain_hash quiet 7 99 0 (record (note 60) { seq_no = some 0 }) empty alone
      only_server refl refl refl

abbrev one_note : Project plain_hash
one_note = append_event plain_hash (prepared plain_hash 1 empty (note 60)) empty

one_note-valid : validate_events plain_hash one_note ≡ ok tt
one_note-valid = prepared-validates plain_hash 1 empty (note 60) empty-IsSound.0 refl refl refl

-- The same event with another text has the same hash.
abbrev changed_note : Project plain_hash
changed_note =
    append_event plain_hash (prepared plain_hash 1 empty (record (note 60) { content = 5 })) empty

changed_note-valid : validate_events plain_hash changed_note ≡ ok tt
changed_note-valid =
    prepared-validates plain_hash 1 empty (record (note 60) { content = 5 }) empty-IsSound.0 refl
      refl refl

validate_events-agree_example :
    ((one_note.start_hash ≡ changed_note.start_hash)
      × (map (hashed plain_hash) one_note.events ≡ map (hashed plain_hash) changed_note.events))
    ⊎ Collide plain_hash one_note.events changed_note.events
unfolding rebase create_project_event_hash
validate_events-agree_example =
    validate_events-agree plain_hash one_note changed_note one_note-valid changed_note-valid refl
      refl

synced_note : (sync plain_hash 7 1 one_note empty).events ≡ one_note.events
synced_note = sync-catches_up plain_hash 7 1 one_note empty one_note.events refl

-- With server 8 as a second member, which has a copy, nothing can be added.
abbrev shared : Project plain_hash
shared = record empty { members = 7 ∷ 8 ∷ [] }

abbrev copies : Followers plain_hash
copies m = if m == 8 then some shared else none

copies-leader : (k : ℕ) (q : Project plain_hash) → copies k ≡ some q → q.state_sync_leader ≡ 7
copies-leader k q h = cases (k == 8) h
  where
    cases : (t : Bool) → (if t then some shared else none) ≡ some q → q.state_sync_leader ≡ 7
    cases true h' = let same : q ≡ shared = cc in rw same refl
    cases false h' = ground arith

broadcast_event-raises_at_work :
    RaisesUnchanged plain_hash quiet
      (broadcast_event plain_hash quiet 7 1 (prepared plain_hash 1 shared (note 60)) shared copies)
      shared
      copies
broadcast_event-raises_at_work =
    broadcast_event-raises plain_hash quiet 7 1 (prepared plain_hash 1 shared (note 60)) shared
      copies 8 copies-leader refl (ground arith)
