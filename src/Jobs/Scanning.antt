-- ===== src/Jobs/Scanning.antt =====
-- What one round of `read_items` of zmq_producer.py hands out, and what its handler overwrites.
use mathlib.Core.List.{append-nil, append_assoc}
use py_syft.Prelude.{
  ℕ, ◌≡◌, refl, sym, ap, ◌∙◌, Bool, not, ◌&&◌, Option, none, some, List, [], ◌∷◌, ◌++◌, ◌==◌,
  ==_refl, ==_iff, if◌then◌else◌, elem, filter, inl, inr, Bool-cases, arith,
}
use py_syft.Broker.State.{Backend, Producer}
use py_syft.Broker.Dispatching.{append_request}
use py_syft.Jobs.Status.{Status, created, processing, errored}
use py_syft.Jobs.Reading.{
  QueueTable, View, Reader, finished, append_item, send_item, check_item, queue_item, scan_created,
  scan_processing, scan_both, scan, going, mark_errored, handle, read_items,
}

module _ (b : Backend) (q : QueueTable) where
  -- The readings and the statements of a round, where none raises.
  pub record Calm : Type 0 where
    pub unresolved : ℕ → Bool
    pub pool : ℕ → ℕ
    pub update : q.Store → ℕ → Status → q.Store
    pub update_lem : (s : q.Store) (i : ℕ) (st : Status) → q.update s i st ≡ some (update s i st)

  abbrev pub view : Calm → View
  view c = record { unresolved = λ i. some (c.unresolved i); pool_name = λ i. some (c.pool i) }

  -- The item has all its arguments, and the producer has a service for its pool.
  abbrev pub is_ready : Calm → Producer b → ℕ → Bool
  is_ready c p i = not (q.is_action i && c.unresolved i) && elem (c.pool i) p.names

  abbrev pub append_all : Calm → List ℕ → Producer b → Producer b
  append_all c [] p = p
  append_all c (i ∷ l) p = append_all c l (append_request b (c.pool i) i p)

  abbrev pub process_all : Calm → List ℕ → q.Store → q.Store
  process_all c [] s = s
  process_all c (i ∷ l) s = process_all c l (c.update s i processing)

  abbrev pub last_of : Option ℕ → List ℕ → Option ℕ
  last_of o [] = o
  last_of o (i ∷ l) = last_of (some i) l

  -- The reader after the ready ones of `l` were handed out.
  abbrev pub handed : Calm → List ℕ → Reader b q → Reader b q
  handed c l r =
      let ready = filter (is_ready c r.producer) l in
      record {
        last = last_of r.last l;
        store = process_all c ready r.store;
        producer = append_all c ready r.producer;
        queued = r.queued ++ ready;
      }

  abbrev sent_to : Calm → ℕ → Reader b q → Reader b q
  sent_to c i r = record {
    last = some i;
    store = c.update r.store i processing;
    producer = append_request b (c.pool i) i r.producer;
    queued = r.queued ++ i ∷ [];
  }

  send_item-calm :
      (c : Calm) (i : ℕ) (r : Reader b q)
      → send_item b q i (some (c.pool i)) (record r { last = some i })
        ≡ finished
            (if elem (c.pool i) r.producer.names then sent_to c i r else record r { last = some i })
  unfolding send_item append_item
  send_item-calm c i r = elim (Bool-cases (elem (c.pool i) r.producer.names)) [
    | inl h ↦ rw h (rw (c.update_lem r.store i processing) refl)
    | inr h ↦ rw h refl
  ]

  queue_item-calm :
      (c : Calm) (i : ℕ) (r : Reader b q)
      → queue_item b q (view c) i r
        ≡ finished (if is_ready c r.producer i then sent_to c i r else record r { last = some i })
  unfolding queue_item check_item
  queue_item-calm c i r = elim (Bool-cases (q.is_action i)) [
    | inl a ↦ elim (Bool-cases (c.unresolved i)) [
      | inl u ↦ rw a (rw u refl)
      | inr u ↦ rw a (rw u (send_item-calm c i r))
    ]
    | inr a ↦ rw a (send_item-calm c i r)
  ]

  -- A scan of items with status CREATED in which nothing raises sends to the services exactly the
  -- ready ones, each to the service of its pool, in their order, and makes them PROCESSING.
  scan_created-calm :
      (c : Calm) (l : List ℕ) (r : Reader b q)
      → scan_created b q (view c) l r ≡ finished (handed c l r)
  unfolding scan_created
  scan_created-calm c [] r =
      ap (λ (m : List ℕ). finished (record r { queued = m })) (sym (append-nil r.queued))
  scan_created-calm c (i ∷ l) r =
      rw (queue_item-calm c i r) (elim (Bool-cases (is_ready c r.producer i)) [
        | inl h ↦ rw h (
            scan_created-calm c l (sent_to c i r)
            ∙ ap (λ (m : List ℕ). finished (record (handed c l (sent_to c i r)) { queued = m }))
                (append_assoc r.queued (i ∷ []) (filter (is_ready c r.producer) l)))
        | inr h ↦ rw h (scan_created-calm c l (record r { last = some i }))
      ])

  scan_processing-last :
      (l : List ℕ) (r : Reader b q)
      → scan_processing b q l r ≡ finished (record r { last = last_of r.last l })
  unfolding scan_processing
  scan_processing-last [] r = refl
  scan_processing-last (i ∷ l) r = scan_processing-last l (record r { last = some i })

  append_all-requests :
      (c : Calm) (n : ℕ) (l : List ℕ) (p : Producer b)
      → ((append_all c l p).services n).requests
        ≡ (p.services n).requests ++ filter (λ i. c.pool i == n) l
  unfolding append_request
  append_all-requests c n [] p = sym (append-nil (p.services n).requests)
  append_all-requests c n (i ∷ l) p =
      append_all-requests c n l (append_request b (c.pool i) i p)
      ∙ elim (Bool-cases (c.pool i == n)) [
        | inl h ↦
            let here : c.pool i ≡ n = (==_iff (c.pool i) n).0 h in
            rw h (
              rw here
                (append_assoc (p.services n).requests (i ∷ []) (filter (λ x. c.pool x == n) l)))
        | inr h ↦ rw h refl
      ]

  process_all-status :
      (c : Calm) (j : ℕ) (l : List ℕ) (s : q.Store)
      → q.status_of (process_all c l s) j ≡ (if elem j l then some processing else q.status_of s j)
  process_all-status c j [] s = refl
  process_all-status c j (i ∷ l) s =
      process_all-status c j l (c.update s i processing)
      ∙ ground (
        arith,
        q.status-update s (c.update s i processing) i processing j (c.update_lem s i processing),
      )

  -- A round of `read_items` in which nothing raises ends. Of the items with status CREATED it takes
  -- those that have all their arguments and whose pool has a service, appends each to the requests of
  -- its service in their order, makes them PROCESSING, and leaves the status of all others.
  pub read_items_lem :
      (c : Calm) (cs ps : List ℕ) (r : Reader b q)
      → q.get_by_status r.store created ≡ some cs
      → q.get_by_status r.store processing ≡ some ps
      → (r' : Reader b q) × (read_items b q (view c) r ≡ going r')
        × ((n : ℕ)
            → (r'.producer.services n).requests
              ≡ (r.producer.services n).requests
                ++ filter (λ i. c.pool i == n) (filter (is_ready c r.producer) cs))
        × ((j : ℕ)
            → q.status_of r'.store j ≡ (
                if elem j (filter (is_ready c r.producer) cs)
                then some processing
                else q.status_of r.store j))
  unfolding read_items scan scan_both handle
  read_items_lem c cs ps r e g = (
    record (handed c cs r) { last = last_of (last_of r.last cs) ps },
    rw e (rw g (rw (scan_created-calm c cs r) (rw (scan_processing-last ps (handed c cs r)) refl))),
    λ n. append_all-requests c n (filter (is_ready c r.producer) cs) r.producer,
    λ j. process_all-status c j (filter (is_ready c r.producer) cs) r.store,
  )

  -- Where the query for the items to queue raises, the handler of `read_items` makes the item ERRORED
  -- that the loop variable holds from an earlier round, whatever became of it since.
  pub read_items_stale :
      (v : View) (i : ℕ) (r : Reader b q) (s : q.Store)
      → r.last ≡ some i
      → q.get_by_status r.store created ≡ none
      → q.update r.store i errored ≡ some s
      → (read_items b q v r ≡ going (record r { store = s })) × (q.status_of s i ≡ some errored)
  unfolding read_items scan scan_both handle mark_errored
  read_items_stale v i r s l n u =
      (rw n (rw l (rw u refl)), q.status-update r.store s i errored i u ∙ rw (==_refl i) refl)
