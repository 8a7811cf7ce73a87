-- ===== src/Jobs/Reading.antt =====
-- `read_items` of zmq_producer.py: the thread that hands the items of the queue to the services.
use py_syft.Prelude.{
  ℕ, Bool, true, false, Option, none, some, List, [], ◌∷◌, ◌++◌, if◌then◌else◌, elem, ◌≡◌, ◌==◌,
  count,
}
use py_syft.Broker.State.{Backend, Producer}
use py_syft.Broker.Dispatching.{append_request}
use py_syft.Jobs.Status.{Status, created, processing, errored, status_eq}

-- Is the item of the status?
abbrev pub has_status : Option Status → Status → Bool
has_status none st = false
has_status (some s) st = status_eq s st

-- The table of the items, by their ids: `get_by_status`, and `update` with a new status, `none` where
-- they raise; and which items are `ActionQueueItem`s.
pub record QueueTable : Type 1 where
  pub Store : Type 0
  pub is_action : ℕ → Bool
  pub status_of : Store → ℕ → Option Status
  pub get_by_status : Store → Status → Option (List ℕ)
  pub update : Store → ℕ → Status → Option Store
  -- A query returns the rows that meet its filter, each once; an update changes one row.
  pub get-status :
      (s : Store) (st : Status) (l : List ℕ) (j : ℕ)
      → get_by_status s st ≡ some l
      → count j l ≡ (if has_status (status_of s j) st then 1 else 0)
  pub status-update :
      (s s' : Store) (i : ℕ) (st : Status) (j : ℕ)
      → update s i st ≡ some s'
      → status_of s' j ≡ (if i == j then some st else status_of s j)

-- What a round reads outside the table: whether an action has unresolved arguments
-- (`contains_unresolved_action_objects`), and the name of an item's worker pool; `none` where this
-- raises.
pub record View : Type 0 where
  pub unresolved : ℕ → Option Bool
  pub pool_name : ℕ → Option ℕ

module _ (b : Backend) (q : QueueTable) where
  -- The thread: the variable `item`, which is unbound at first, and the shared table and producer.
  -- `queued` records the items whose messages were appended, in order; the code keeps no such list.
  -- The message of an item is the item.
  pub record Reader : Type 0 where
    pub last : Option ℕ
    pub store : q.Store
    pub producer : Producer b
    pub queued : List ℕ

  -- The body of `try`: to its end, or an exception.
  pub data Scan : Type 0 where
    finished failed : Reader → Scan

  unfoldable pub append_item : ℕ → ℕ → Option q.Store → Reader → Scan
  unfolding append_request
  append_item i n none r = failed r
  append_item i n (some s) r = finished (record r {
    store = s;
    producer = append_request b n i r.producer;
    queued = r.queued ++ i ∷ [];
  })

  -- The item goes to the service of its pool, if there is one.
  unfoldable pub send_item : ℕ → Option ℕ → Reader → Scan
  unfolding append_item
  send_item i none r = failed r
  send_item i (some n) r =
      if elem n r.producer.names
      then append_item i n (q.update r.store i processing) r
      else finished r

  unfoldable pub check_item : View → ℕ → Option Bool → Reader → Scan
  unfolding send_item
  check_item v i none r = failed r
  check_item v i (some true) r = finished r
  check_item v i (some false) r = send_item i (v.pool_name i) r

  -- One turn of the loop for an item with status CREATED.
  unfoldable pub queue_item : View → ℕ → Reader → Scan
  unfolding check_item
  queue_item v i r =
      check_item v i (if q.is_action i then v.unresolved i else some false)
        (record r { last = some i })

  abbrev pub and_scan : Scan → (Reader → Scan) → Scan
  and_scan (finished r) f = f r
  and_scan (failed r) f = failed r

  unfoldable pub scan_created : View → List ℕ → Reader → Scan
  unfolding queue_item
  scan_created v [] r = finished r
  scan_created v (i ∷ is) r = and_scan (queue_item v i r) (scan_created v is)

  -- The items with status PROCESSING: nothing is done yet.
  unfoldable pub scan_processing : List ℕ → Reader → Scan
  scan_processing [] r = finished r
  scan_processing (i ∷ is) r = scan_processing is (record r { last = some i })

  unfoldable pub scan_both : View → Option (List ℕ) → Option (List ℕ) → Reader → Scan
  unfolding scan_created scan_processing
  scan_both v none ps r = failed r
  scan_both v (some cs) none r = failed r
  scan_both v (some cs) (some ps) r = and_scan (scan_created v cs r) (scan_processing ps)

  unfoldable pub scan : View → Reader → Scan
  unfolding scan_both
  scan v r = scan_both v (q.get_by_status r.store created) (q.get_by_status r.store processing) r

  -- The thread after a round: it goes on, or an exception has left the handler.
  pub data Loop : Type 0 where
    going dead : Reader → Loop

  abbrev pub written : Option q.Store → Reader → Loop
  written none r = dead r
  written (some s) r = going (record r { store = s })

  -- The handler writes the status of the item that the variable holds.
  unfoldable pub mark_errored : Option ℕ → Reader → Loop
  mark_errored none r = dead r
  mark_errored (some i) r = written (q.update r.store i errored) r

  unfoldable pub handle : Scan → Loop
  unfolding mark_errored
  handle (finished r) = going r
  handle (failed r) = mark_errored r.last r

  -- One round of `read_items`.
  unfoldable pub read_items : View → Reader → Loop
  unfolding handle scan
  read_items v r = handle (scan v r)
