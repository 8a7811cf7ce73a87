-- ===== src/Project/Service.antt =====
-- The leader's and the followers' part (project_service.py), and the client's (project.py).
use py_syft.Prelude.{
  ℕ, ◌+◌, Bool, not, ◌&&◌, Option, none, some, List, [], ◌∷◌, any, length, ltb, leb, ◌==◌,
  if◌then◌else◌, update, drop,
}
use py_syft.Prelude.Result.{Result, ok, err, raise_if, ◌>>◌}
use py_syft.Project.Log.{
  Crypto, ProjectError, already_added, not_leader, out_of_sync, out_of_order, no_seq_no, peer_error,
  Event, Project, last_event, rebase, sign_event, valid_descendant, has_permission, append_event,
}

module _ (c : Crypto) where
  -- `validate_project_leader`, on the server with a key.
  unfoldable pub validate_project_leader : ℕ → Project c → Result ProjectError (Unit {0})
  validate_project_leader server p = raise_if (not (p.state_sync_leader == server)) not_leader

  unfoldable pub validate_user_permission : ℕ → Project c → Result ProjectError (Unit {0})
  unfolding has_permission
  validate_user_permission credentials p =
      raise_if (not (has_permission c p credentials)) not_leader

  unfoldable pub check_number : Option ℕ → ℕ → Result ProjectError (Unit {0})
  check_number none count = err no_seq_no
  check_number (some n) count =
      raise_if (leb n count && ltb 0 count) out_of_sync >> raise_if (ltb (count + 1) n) out_of_order

  -- `validate_project_event_seq`
  unfoldable pub validate_project_event_seq : Event c → Project c → Result ProjectError (Unit {0})
  unfolding check_number
  validate_project_event_seq e p = check_number e.seq_no (length p.events)

  -- The projects that the other servers store, by the key of the server; `none` where there is no
  -- peer, or no connection to it.
  abbrev pub Followers : Type 0
  Followers = ℕ → Option (Project c)

  unfoldable pub store_at :
      ℕ → Result ProjectError (Project c) → Followers → Result ProjectError (Unit {0}) × Followers
  store_at m (err x) f = (err x, f)
  store_at m (ok p) f = (ok tt, update f m (some p))

  abbrev pub then_send :
      Result ProjectError (Unit {0}) × Followers
      → (Followers → Result ProjectError (Unit {0}) × Followers)
      → Result ProjectError (Unit {0}) × Followers
  then_send (ok u, f) rest = rest f
  then_send (err x, f) rest = (err x, f)

  -- What the leader stores: the project with the event, where no member raised.
  abbrev pub stored :
      Event c
      → Project c
      → Result ProjectError (Unit {0}) × Followers
      → Result ProjectError (Unit {0}) × Project c × Followers
  stored e p (ok u, f) = (ok tt, append_event c e p, f)
  stored e p (err x, f) = (err x, p, f)

  -- `ProjectService.sync`, which looks at neither of its checks.
  unfoldable pub unsynced : ℕ → ℕ → ℕ → Project c → List (Event c)
  unfolding validate_project_leader validate_user_permission
  unsynced server credentials seq_no p =
      let unread_too = validate_project_leader server p in
      let unread = validate_user_permission credentials p in drop seq_no p.events

  abbrev pub append_all : List (Event c) → Project c → Project c
  append_all [] p = p
  append_all (e ∷ l) p = append_all l (append_event c e p)

  -- `Project.sync` of a client, from the leader's project.
  unfoldable pub sync : ℕ → ℕ → Project c → Project c → Project c
  unfolding unsynced
  sync server credentials leader p =
      append_all (unsynced server credentials (length p.events) leader) p

  -- The client's end of `_append_event`; `broadcast_event` never returns `SyftNotReady`.
  abbrev pub kept :
      Event c
      → Project c
      → Result ProjectError (Unit {0}) × Project c × Followers
      → Result ProjectError (Project c) × Project c × Followers
  kept e p (ok u, leader, f) = (ok (append_event c e p), leader, f)
  kept e p (err x, leader, f) = (err x, leader, f)

  abbrev pub has_event : ℕ → List (Event c) → Bool
  has_event i l = any (λ e. e.id == i) l

-- `notify` says whether `check_for_project_request` raises on a server for an event.
module _ (c : Crypto) (notify : ℕ → Event c → Result ProjectError (Unit {0})) where
  open c use {verify_key}

  -- `ProjectService.add_event`: the stored project afterwards, where nothing raises.
  unfoldable pub add_event_to : ℕ → ℕ → Event c → Project c → Result ProjectError (Project c)
  unfolding validate_project_leader
  add_event_to server credentials e p = do
    validate_project_leader c server p
    raise_if (not (credentials == p.state_sync_leader)) not_leader
    notify server e
    ok (append_event c e p)

  -- `remote_client.api.services.project.add_event(project_event)`, which raises what the member raises.
  unfoldable pub send_to_member :
      ℕ
      → ℕ
      → Event c
      → Option (Project c)
      → Followers c
      → Result ProjectError (Unit {0}) × Followers c
  unfolding store_at add_event_to
  send_to_member server m e none f = (err peer_error, f)
  send_to_member server m e (some p) f = store_at c m (add_event_to m server e p) f

  -- The loop over the members in `broadcast_event`.
  unfoldable pub send_to_members :
      ℕ → Event c → List ℕ → Followers c → Result ProjectError (Unit {0}) × Followers c
  unfolding send_to_member
  send_to_members server e [] f = (ok tt, f)
  send_to_members server e (m ∷ ms) f =
      if m == server
      then send_to_members server e ms f
      else then_send c (send_to_member server m e (f m) f) (send_to_members server e ms)

  unfoldable pub broadcast_checked :
      ℕ
      → Event c
      → Result ProjectError (Unit {0})
      → Project c
      → Followers c
      → Result ProjectError (Unit {0}) × Project c × Followers c
  unfolding send_to_members
  broadcast_checked server e (err x) p f = (err x, p, f)
  broadcast_checked server e (ok u) p f = stored c e p (send_to_members server e p.members f)

  -- `broadcast_event`. What `validate_user_permission_for_project` returns is not looked at.
  unfoldable pub broadcast_event :
      ℕ
      → ℕ
      → Event c
      → Project c
      → Followers c
      → Result ProjectError (Unit {0}) × Project c × Followers c
  unfolding broadcast_checked validate_project_leader validate_project_event_seq
      validate_user_permission
  broadcast_event server credentials e p f =
      let unread = validate_user_permission c credentials p in
      broadcast_checked server e
        (validate_project_leader c server p >> validate_project_event_seq c e p >> notify server e)
        p f

  unfoldable pub append_checked :
      ℕ
      → ℕ
      → Event c
      → Result ProjectError (Unit {0})
      → Project c
      → Project c
      → Followers c
      → Result ProjectError (Project c) × Project c × Followers c
  unfolding broadcast_event
  append_checked server credentials e (err x) p leader f = (err x, leader, f)
  append_checked server credentials e (ok u) p leader f =
      kept c e p (broadcast_event server credentials e leader f)

  unfoldable pub append_signed :
      ℕ
      → ℕ
      → Result ProjectError (Event c)
      → Project c
      → Project c
      → Followers c
      → Result ProjectError (Project c) × Project c × Followers c
  unfolding append_checked valid_descendant
  append_signed server k (err x) p leader f = (err x, leader, f)
  append_signed server k (ok e) p leader f =
      append_checked server (verify_key k) e (valid_descendant c p (last_event c p.events) e) p
        leader f

  -- `Project.add_event` with a signing key: the client's project, the leader's and the followers'.
  unfoldable pub add_event :
      ℕ
      → ℕ
      → Event c
      → Project c
      → Project c
      → Followers c
      → Result ProjectError (Project c) × Project c × Followers c
  unfolding append_signed rebase sign_event
  add_event server k e p leader f =
      if has_event c e.id p.event_id_hashmap
      then (err already_added, leader, f)
      else append_signed server k
          (sign_event c k (rebase c p (record e { creator_verify_key = some (verify_key k) }))) p
          leader f
