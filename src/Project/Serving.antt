-- ===== src/Project/Serving.antt =====
-- What the servers of a project keep of its log (project_service.py), and what a sync brings.
use mathlib.Core.List.{append-nil, append_assoc}
use py_syft.Prelude.{
  ℕ, ◌≡◌, ◌≢◌, refl, sym, ap, ◌∙◌, true, false, Option, none, some, List, [], ◌∷◌, ◌++◌, length,
  drop, ◌==◌, elem, inl, inr, Bool-cases, arith,
}
use py_syft.Prelude.Result.{Result, ok, err}
use py_syft.Project.Log.{Crypto, ProjectError, Event, Project, append_event}
use py_syft.Project.Service.{
  validate_project_leader, add_event_to, Followers, store_at, send_to_member, then_send,
  send_to_members, stored, broadcast_checked, broadcast_event, unsynced, append_all, sync,
}

drop-length : {A : Type 0} → (xs ys : List A) → drop (length xs) (xs ++ ys) ≡ ys
drop-length [] ys = refl
drop-length (x ∷ xs) ys = drop-length xs ys

module _ (c : Crypto) where
  append_all-events :
      (l : List (Event c)) (p : Project c) → (append_all c l p).events ≡ p.events ++ l
  append_all-events [] p = sym (append-nil p.events)
  append_all-events (e ∷ l) p =
      append_all-events l (append_event c e p) ∙ append_assoc p.events (e ∷ []) l

  -- A project whose log is a beginning of the leader's log has the leader's log after a sync, whoever
  -- asks for it, and whichever server answers.
  pub sync-catches_up :
      (server credentials : ℕ) (leader p : Project c) (rest : List (Event c))
      → leader.events ≡ p.events ++ rest
      → (sync c server credentials leader p).events ≡ leader.events
  unfolding sync unsynced
  sync-catches_up server credentials leader p rest h =
      append_all-events (drop (length p.events) leader.events) p
      ∙ rw h (ap (λ (l : List (Event c)). p.events ++ l) (drop-length p.events rest))

module _ (c : Crypto) (notify : ℕ → Event c → Result ProjectError (Unit {0})) where
  -- Nothing was stored anywhere, and an error came out.
  abbrev pub RaisesUnchanged :
      Result ProjectError (Unit {0}) × Project c × Followers c → Project c → Followers c → Type 0
  RaisesUnchanged (ok u, q, g) p f = ⊥
  RaisesUnchanged (err x, q, g) p f = (q ≡ p) × (g ≡ f)

  abbrev SendRaises : Result ProjectError (Unit {0}) × Followers c → Followers c → Type 0
  SendRaises (ok u, g) f = ⊥
  SendRaises (err x, g) f = g ≡ f

  refused :
      (server m : ℕ) (e : Event c) (o : Option (Project c)) (f : Followers c)
      → ((q : Project c) → o ≡ some q → q.state_sync_leader ≡ server)
      → (m == server) ≡ false
      → SendRaises (send_to_member c notify server m e o f) f
  unfolding send_to_member store_at add_event_to validate_project_leader
  refused server m e none f h n = refl
  refused server m e (some q) f h n =
      let other : (q.state_sync_leader == m) ≡ false = ground (arith, h q refl, n) in rw other refl

  then-SendRaises :
      (m : Result ProjectError (Unit {0}) × Followers c)
      (rest : Followers c → Result ProjectError (Unit {0}) × Followers c) (f : Followers c)
      → SendRaises m f
      → SendRaises (then_send c m rest) f
  then-SendRaises (err x, g) rest f h = h
  then-SendRaises (ok u, g) rest f h = absurd h

  send_to_members-raises :
      (server : ℕ) (e : Event c) (ms : List ℕ) (f : Followers c) (m : ℕ)
      → ((k : ℕ) (q : Project c) → f k ≡ some q → q.state_sync_leader ≡ server)
      → elem m ms ≡ true
      → (m == server) ≡ false
      → SendRaises (send_to_members c notify server e ms f) f
  unfolding send_to_members
  send_to_members-raises server e [] f m h i n = ground arith
  send_to_members-raises server e (k ∷ ms) f m h i n = elim (Bool-cases (k == server)) [
    | inl t ↦ rw t (send_to_members-raises server e ms f m h (ground (arith, i, n, t)) n)
    | inr t ↦ rw t (
        then-SendRaises (send_to_member c notify server k e (f k) f) _ f
          (refused server k e (f k) f (h k) t))
  ]

  stored-raises :
      (e : Event c) (p : Project c) (m : Result ProjectError (Unit {0}) × Followers c)
      (f : Followers c)
      → SendRaises m f
      → RaisesUnchanged (stored c e p m) p f
  stored-raises e p (err x, g) f h = (refl, h)
  stored-raises e p (ok u, g) f h = absurd h

  checked-raises :
      (server : ℕ) (e : Event c) (r : Result ProjectError (Unit {0})) (p : Project c)
      (f : Followers c)
      → SendRaises (send_to_members c notify server e p.members f) f
      → RaisesUnchanged (broadcast_checked c notify server e r p f) p f
  unfolding broadcast_checked
  checked-raises server e (err x) p f h = (refl, refl)
  checked-raises server e (ok u) p f h = stored-raises e p _ f h

  -- Where every copy of the project names the leader that has the project, and a member is another
  -- server, `broadcast_event` raises for every event and every caller, and no server stores the
  -- event: `add_event` on the member wants the member itself to be the leader.
  pub broadcast_event-raises :
      (server credentials : ℕ) (e : Event c) (p : Project c) (f : Followers c) (m : ℕ)
      → ((k : ℕ) (q : Project c) → f k ≡ some q → q.state_sync_leader ≡ server)
      → elem m p.members ≡ true
      → m ≢ server
      → RaisesUnchanged (broadcast_event c notify server credentials e p f) p f
  unfolding broadcast_event
  broadcast_event-raises server credentials e p f m h i n =
      checked-raises server e _ p f
        (send_to_members-raises server e p.members f m h i (ground (arith, n)))
