-- ===== src/Jobs/Once.antt =====
-- How often `read_items` of zmq_producer.py hands an item of the queue out.
use py_syft.Prelude.{
  ℕ, ◌+◌, ◌≤◌, ◌≡◌, refl, Bool, true, false, Option, none, some, List, [], ◌∷◌, if◌then◌else◌, elem,
  count, count-append, count-cons, count-nil, ◌⊎◌, inl, inr, Bool-cases, arith,
}
use py_syft.Broker.State.{Backend, Producer}
use py_syft.Jobs.Status.{created, processing, errored}
use py_syft.Jobs.Reading.{
  has_status, QueueTable, View, Reader, Scan, finished, failed, append_item, send_item, check_item,
  queue_item, and_scan, scan_created, scan_processing, scan_both, scan, Loop, going, dead, written,
  mark_errored, handle, read_items,
}

module _ (b : Backend) (q : QueueTable) where
  -- 1 for an item with status CREATED.
  abbrev pub waits : q.Store → ℕ → ℕ
  waits s j = if has_status (q.status_of s j) created then 1 else 0

  -- Every item was queued once at most, and not while it waits still.
  abbrev pub IsOnce : Reader b q → Type 0
  IsOnce r = (j : ℕ) → count j r.queued + waits r.store j ≤ 1

  -- So too with the items that the round has before it.
  abbrev Pending : List ℕ → Reader b q → Type 0
  Pending l r = IsOnce r × ((j : ℕ) → count j r.queued + count j l ≤ 1)

  abbrev After : (Reader b q → Type 0) → Scan b q → Type 0
  After P (finished r) = P r
  After P (failed r) = IsOnce r

  append_item-Pending :
      (i n : ℕ) (l : List ℕ) (s : Option q.Store) (r : Reader b q)
      → q.update r.store i processing ≡ s
      → Pending (i ∷ l) r
      → After (Pending l) (append_item b q i n s r)
  unfolding append_item
  append_item-Pending i n l none r e (o, p) = o
  append_item-Pending i n l (some s) r e (o, p) = (
    λ j. ground (
      arith,
      o j,
      p j,
      q.status-update r.store s i processing j e,
      count-append j r.queued (i ∷ []),
      count-cons j i l,
      count-cons j i [],
      count-nil j,
    ),
    λ j. ground (
      arith,
      p j,
      count-append j r.queued (i ∷ []),
      count-cons j i l,
      count-cons j i [],
      count-nil j,
    ),
  )

  drop-Pending : (i : ℕ) (l : List ℕ) (r : Reader b q) → Pending (i ∷ l) r → Pending l r
  drop-Pending i l r (o, p) = (o, λ j. ground (arith, p j, count-cons j i l))

  send_item-Pending :
      (i : ℕ) (pool : Option ℕ) (l : List ℕ) (r : Reader b q)
      → Pending (i ∷ l) r
      → After (Pending l) (send_item b q i pool r)
  unfolding send_item
  send_item-Pending i none l r p = p.0
  send_item-Pending i (some n) l r p = elim (Bool-cases (elem n r.producer.names)) [
    | inl h ↦ rw h (append_item-Pending i n l (q.update r.store i processing) r refl p)
    | inr h ↦ rw h (drop-Pending i l r p)
  ]

  queue_item-Pending :
      (v : View) (i : ℕ) (l : List ℕ) (r : Reader b q)
      → Pending (i ∷ l) r
      → After (Pending l) (queue_item b q v i r)
  unfolding queue_item check_item
  queue_item-Pending v i l r p = cases (if q.is_action i then v.unresolved i else some false)
    where
      r1 : Reader b q
      r1 = record r { last = some i }

      cases : (u : Option Bool) → After (Pending l) (check_item b q v i u r1)
      cases none = p.0
      cases (some true) = drop-Pending i l r1 p
      cases (some false) = send_item-Pending i (v.pool_name i) l r1 p

  and_scan-After :
      (P Q : Reader b q → Type 0) (m : Scan b q) (f : Reader b q → Scan b q)
      → After P m
      → ((r : Reader b q) → P r → After Q (f r))
      → After Q (and_scan b q m f)
  and_scan-After P Q (finished r) f a g = g r a
  and_scan-After P Q (failed r) f a g = a

  scan_created-IsOnce :
      (v : View) (l : List ℕ) (r : Reader b q) → Pending l r → After IsOnce (scan_created b q v l r)
  unfolding scan_created
  scan_created-IsOnce v [] r p = p.0
  scan_created-IsOnce v (i ∷ l) r p =
      and_scan-After (Pending l) IsOnce (queue_item b q v i r) (scan_created b q v l)
        (queue_item-Pending v i l r p) (scan_created-IsOnce v l)

  scan_processing-IsOnce :
      (l : List ℕ) (r : Reader b q) → IsOnce r → After IsOnce (scan_processing b q l r)
  unfolding scan_processing
  scan_processing-IsOnce [] r o = o
  scan_processing-IsOnce (i ∷ l) r o = scan_processing-IsOnce l (record r { last = some i }) o

  scan_both-IsOnce :
      (v : View) (cs ps : Option (List ℕ)) (r : Reader b q)
      → q.get_by_status r.store created ≡ cs
      → IsOnce r
      → After IsOnce (scan_both b q v cs ps r)
  unfolding scan_both
  scan_both-IsOnce v none ps r e o = o
  scan_both-IsOnce v (some cs) none r e o = o
  scan_both-IsOnce v (some cs) (some ps) r e o =
      and_scan-After IsOnce IsOnce (scan_created b q v cs r) (scan_processing b q ps)
        (scan_created-IsOnce v cs r
          (o, λ j. ground (arith, o j, q.get-status r.store created cs j e)))
        (scan_processing-IsOnce ps)

  abbrev pub reader_of : Loop b q → Reader b q
  reader_of (going r) = r
  reader_of (dead r) = r

  written-IsOnce :
      (i : ℕ) (s : Option q.Store) (r : Reader b q)
      → q.update r.store i errored ≡ s
      → IsOnce r
      → IsOnce (reader_of (written b q s r))
  written-IsOnce i none r e o j = o j
  written-IsOnce i (some s) r e o j = ground (arith, o j, q.status-update r.store s i errored j e)

  handle-IsOnce : (m : Scan b q) → After IsOnce m → IsOnce (reader_of (handle b q m))
  unfolding handle mark_errored
  handle-IsOnce (finished r) o = o
  handle-IsOnce (failed r) o = marked r.last
    where
      marked : (i : Option ℕ) → IsOnce (reader_of (mark_errored b q i r))
      marked none = o
      marked (some i) = written-IsOnce i (q.update r.store i errored) r refl o

  read_items-IsOnce :
      (v : View) (r : Reader b q) → IsOnce r → IsOnce (reader_of (read_items b q v r))
  unfolding read_items scan
  read_items-IsOnce v r o = handle-IsOnce (scan b q v r) (
      scan_both-IsOnce v (q.get_by_status r.store created) (q.get_by_status r.store processing) r
        refl o)

  -- A round of `read_items` that goes on, or what other threads do between two rounds: they change
  -- the table and the producer in any way, but make no item CREATED that was not, except one whose
  -- id is new.
  pub data Step (r : Reader b q) : Reader b q → Type 0 where
    round : (v : View) {r' : Reader b q} → read_items b q v r ≡ going r' → Step r r'
    others :
        (s : q.Store) (p : Producer b)
        → ((j : ℕ) → waits s j ≤ waits r.store j ⊎ (count j r.queued ≡ 0))
        → Step r (record r { store = s; producer = p })

  pub data Reach (r : Reader b q) : Reader b q → Type 0 where
    here : Reach r r
    next : {s t : Reader b q} → Reach r s → Step s t → Reach r t

  waits-le : (s : q.Store) (j : ℕ) → waits s j ≤ 1
  waits-le s j = ground arith

  Step-IsOnce : {r s : Reader b q} → Step r s → IsOnce r → IsOnce s
  Step-IsOnce {r} (round v e) o j = ground (arith, e, read_items-IsOnce v r o j)
  Step-IsOnce {r} (others s p h) o j = elim (h j) [
    | inl l ↦ omega (arith, o j)
    | inr z ↦ omega (arith, waits-le s j)
  ]

  Reach-IsOnce : {r s : Reader b q} → IsOnce r → Reach r s → IsOnce s
  Reach-IsOnce o here = o
  Reach-IsOnce o (next t st) = Step-IsOnce st (Reach-IsOnce o t)

  -- From a start where nothing was queued, through any rounds of `read_items` and any doings of the
  -- other threads between them that make no item CREATED but a new one, every item is handed to a
  -- service once at most, and not at all while its status is CREATED.
  pub queued_once :
      (r r' : Reader b q)
      → r.queued ≡ []
      → Reach r r'
      → (j : ℕ) → count j r'.queued + waits r'.store j ≤ 1
  queued_once r r' e t j =
      Reach-IsOnce (λ k. rw e (rw (count-nil k) (omega (arith, waits-le r.store k)))) t j
