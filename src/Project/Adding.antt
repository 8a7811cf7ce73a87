-- ===== src/Project/Adding.antt =====
-- Adding an event to a project whose only member is its leader (project.py and project_service.py).
use py_syft.Prelude.{
  ℕ, ◌+◌, ◌≡◌, refl, ap, ◌∙◌, Bool, true, false, ◌&&◌, ◌||◌, Option, none, some, List, [], ◌∷◌,
  ◌++◌, length, leb, ◌==◌, ==_refl, if◌then◌else◌, arith, elem,
}
use py_syft.Prelude.Result.{Result, ok, err, ◌>>◌}
use py_syft.Project.Log.{
  Crypto, ProjectError, out_of_sync, out_of_order, Event, Project, last_event, numbered,
  next_seq_no, validate_events, append_event, rebase, valid_descendant,
}
use py_syft.Project.Service.{
  validate_project_leader, validate_project_event_seq, check_number, Followers, send_to_members,
  broadcast_checked, broadcast_event, append_checked, append_signed, has_event, add_event,
}
use py_syft.Project.Growing.{prepared, sign-prepared, prepared-descends, prepared-validates}

length-snoc : {A : Type 0} → (l : List A) (x : A) → length (l ++ x ∷ []) ≡ length l + 1
length-snoc [] x = refl
length-snoc (y ∷ l) x = omega (arith, length-snoc l x)

module _ (c : Crypto) where
  check_number_lem :
      (n count : ℕ)
      → check_number c (some n) count ≡ (
          if (n == count + 1) || ((n == 0) && (count == 0))
          then ok tt
          else if leb n count
          then err out_of_sync
          else err out_of_order)
  unfolding check_number
  check_number_lem n count = ground arith

  leader-ok :
      (server : ℕ) (p : Project c)
      → p.state_sync_leader ≡ server
      → validate_project_leader c server p ≡ ok tt
  unfolding validate_project_leader
  leader-ok server p l = rw l (rw (==_refl server) refl)

  event_seq_lem :
      (n : ℕ) (e : Event c) (p : Project c)
      → e.seq_no ≡ some n
      → validate_project_event_seq c e p ≡ (
          if (n == length p.events + 1) || ((n == 0) && (length p.events == 0))
          then ok tt
          else if leb n (length p.events)
          then err out_of_sync
          else err out_of_order)
  unfolding validate_project_event_seq
  event_seq_lem n e p s =
      ap (λ (o : Option ℕ). check_number c o (length p.events)) s
      ∙ check_number_lem n (length p.events)

  -- The log is valid, and its last event has the length of the log for its number.
  abbrev pub IsSound : Project c → Type 0
  IsSound p =
      (validate_events c p ≡ ok tt)
      × (numbered c (last_event c p.events) ≡ last_event c p.events)
      × (next_seq_no c (last_event c p.events) ≡ length p.events + 1)

  last_event-snoc : (l : List (Event c)) (x : Event c) → last_event c (l ++ x ∷ []) ≡ some x
  last_event-snoc [] x = refl
  last_event-snoc (e ∷ []) x = refl
  last_event-snoc (e ∷ f ∷ l) x = last_event-snoc (f ∷ l) x

module _ (c : Crypto) (notify : ℕ → Event c → Result ProjectError (Unit {0})) where
  send_to_members-alone :
      (server : ℕ) (e : Event c) (ms : List ℕ) (f : Followers c)
      → ((m : ℕ) → elem m ms ≡ true → m ≡ server)
      → send_to_members c notify server e ms f ≡ (ok tt, f)
  unfolding send_to_members
  send_to_members-alone server e [] f h = refl
  send_to_members-alone server e (m ∷ ms) f h =
      rw (h m (ground arith))
        (rw (==_refl server) (send_to_members-alone server e ms f (λ k i. h k (ground (arith, i)))))

  broadcast_checked-split :
      (server : ℕ) (t u : Bool) (e : Event c) (p : Project c) (f : Followers c)
      → send_to_members c notify server e p.members f ≡ (ok tt, f)
      → notify server e ≡ ok tt
      → broadcast_checked c notify server e
          ((if t then ok tt else if u then err out_of_sync else err out_of_order)
            >> notify server e)
          p
          f
        ≡ (if t
            then (ok tt, append_event c e p, f)
            else if u
            then (err out_of_sync, p, f)
            else (err out_of_order, p, f))
  unfolding broadcast_checked
  broadcast_checked-split server true u e p f h m = rw m (rw h refl)
  broadcast_checked-split server false true e p f h m = refl
  broadcast_checked-split server false false e p f h m = refl

  -- On the leader of a project that has no other member, and where no notification fails,
  -- `broadcast_event` takes from every caller an event whose number is one more than the length of
  -- the log, or 0 where the log is empty, and stores it; it raises "out of sync" for any other number
  -- up to the length and "out of order" for any greater one, and stores nothing.
  pub broadcast_event_lem :
      (server credentials n : ℕ) (e : Event c) (p : Project c) (f : Followers c)
      → ((m : ℕ) → elem m p.members ≡ true → m ≡ server)
      → p.state_sync_leader ≡ server
      → e.seq_no ≡ some n
      → notify server e ≡ ok tt
      → broadcast_event c notify server credentials e p f ≡ (
          if (n == length p.events + 1) || ((n == 0) && (length p.events == 0))
          then (ok tt, append_event c e p, f)
          else if leb n (length p.events)
          then (err out_of_sync, p, f)
          else (err out_of_order, p, f))
  unfolding broadcast_event
  broadcast_event_lem server credentials n e p f a l s m = rw (leader-ok c server p l) (
      rw (event_seq_lem c n e p s)
        (broadcast_checked-split server _ _ e p f (send_to_members-alone server e p.members f a) m))

  append_signed-kept :
      (server k : ℕ) (x : Event c) (p : Project c) (f : Followers c)
      → valid_descendant c p (last_event c p.events) x ≡ ok tt
      → broadcast_event c notify server (c.verify_key k) x p f ≡ (ok tt, append_event c x p, f)
      → append_signed c notify server k (ok x) p p f
        ≡ (ok (append_event c x p), append_event c x p, f)
  unfolding append_signed append_checked
  append_signed-kept server k x p f d b = rw d (rw b refl)

  -- A sound project that its leader and a client have alike, with no other member, and where no
  -- notification fails: `add_event` of an event of a class without a parent and with a new id
  -- returns, the leader stores the project that the client has then, with one event of this id more,
  -- and the project is sound again.
  pub add_event-IsSound :
      (server k : ℕ) (e : Event c) (p : Project c) (f : Followers c)
      → IsSound c p
      → ((m : ℕ) → elem m p.members ≡ true → m ≡ server)
      → p.state_sync_leader ≡ server
      → ((x : Event c) → notify server x ≡ ok tt)
      → e.parent_event_id ≡ none
      → has_event c e.id p.event_id_hashmap ≡ false
      → (x : Event c) × (add_event c notify server k e p p f
          ≡ (ok (append_event c x p), append_event c x p, f))
        × (x.id ≡ e.id)
        × IsSound c (append_event c x p)
  unfolding add_event rebase
  add_event-IsSound server k e p f (v, h, g) a l m n i =
      let x : Event c = prepared c k p e in
      let number : x.seq_no ≡ some (length p.events + 1) = rw h (ap some g) in
      (
        x,
        rw i (
            rw (sign-prepared c k p e) (
              append_signed-kept server k x p f (prepared-descends c k p e h n) (
                broadcast_event_lem server (c.verify_key k) (length p.events + 1) x p f a l number
                  (m x)
                ∙ rw (==_refl (length p.events + 1)) refl))),
        refl,
        (
          prepared-validates c k p e v h n i,
          rw (last_event-snoc c p.events x) refl,
          rw (last_event-snoc c p.events x)
              (rw (length-snoc p.events x) (rw h (ap (λ j. j + 1) g))),
        ),
      )
