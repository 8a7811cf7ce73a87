-- ===== src/Broker/Invariant.antt =====
-- The lists of the broker stay consistent through every method of zmq_producer.py.
use py_syft.Prelude.{
  ℕ, ◌≡◌, Bool, true, false, ◌&&◌, Option, none, some, List, [], ◌∷◌, arith, ◌==◌, ==_iff,
  if◌then◌else◌, Bool-cases, elem, count, inl, inr, count-cons, count-nil, count-append, elem_iff,
  elem-append,
}
use py_syft.Broker.State.{Backend, Producer, raised, final, attribute_error}
use py_syft.Broker.Purging.{purge_workers}
use py_syft.Broker.Dispatching.{dispatch, serve, mark_waiting, worker_waiting}
use py_syft.Broker.Protocol.{
  admit, id_frame, name_frame, ready_frames, set_id, require_worker, attach,
}
use py_syft.Broker.Lists.{serves, IsConsistent}
use py_syft.Broker.Delete.{delete_worker-IsConsistent}
use py_syft.Broker.Purge.{final-and_then, purge_workers-IsConsistent}
use py_syft.Broker.Serve.{serve_keeps}

module _ (b : Backend) where
  waiting-mark :
      (now w : ℕ) (s : Producer b) (j : ℕ)
      → count j (mark_waiting b now w s).waiting
        ≡ (if (w == j) && (0 == count w s.waiting) then 1 else count j s.waiting)
  unfolding mark_waiting
  waiting-mark now w s j = ground (
    arith,
    elem_iff w s.waiting,
    count-append j s.waiting (w ∷ []),
    count-cons j w [],
    count-nil j,
    ==_iff w j,
  )

  service_waiting-mark :
      (now w : ℕ) (s : Producer b) (j n : ℕ)
      → count j ((mark_waiting b now w s).services n).waiting ≡ (
          if ((w == j) && serves b s w n) && (0 == count w (s.services n).waiting)
          then 1
          else count j (s.services n).waiting)
  unfolding mark_waiting
  service_waiting-mark now w s j n = ground (
    arith,
    elem_iff w (s.services n).waiting,
    count-append j (s.services n).waiting (w ∷ []),
    count-cons j w [],
    count-nil j,
    ==_iff w j,
  )

  pub same-mark :
      (now w : ℕ) (s : Producer b)
      → ((mark_waiting b now w s).known ≡ s.known)
        × ((mark_waiting b now w s).objects ≡ s.objects)
        × ((mark_waiting b now w s).names ≡ s.names)
  unfolding mark_waiting
  same-mark now w s = (ground arith, ground arith, ground arith)

  pub mark_waiting-IsConsistent :
      (now w : ℕ) (s : Producer b)
      → s.known w ≡ true
      → IsConsistent b s
      → IsConsistent b (mark_waiting b now w s)
  mark_waiting-IsConsistent now w s k h = record {
    once = λ j. ground (arith, waiting-mark now w s j, h.once j);
    listed = λ j n. rw ((same-mark now w s).1) (
        ground (
          arith,
          waiting-mark now w s j,
          service_waiting-mark now w s j n,
          h.listed j n,
          h.listed w n,
          ==_iff w j,
        ));
    are_known = λ j pos.
        rw ((same-mark now w s).0)
          (ground (arith, waiting-mark now w s j, h.are_known j, ==_iff w j));
    unnamed = λ j n u.
        let u' : elem n s.names ≡ false = rw ((same-mark now w s).2) at u in
        ground (arith, service_waiting-mark now w s j n, h.unnamed j n u', h.named w n);
    named = λ j n. rw ((same-mark now w s).1, (same-mark now w s).2) (h.named j n);
  }

  pub fresh_worker :
      (w : ℕ) (s : Producer b) → s.known w ≡ false → IsConsistent b s → count w s.waiting ≡ 0
  fresh_worker w s e h = ground (arith, h.are_known w)

  pub require_worker-IsConsistent :
      (w : ℕ) (s : Producer b) → IsConsistent b s → IsConsistent b (require_worker b w s)
  unfolding require_worker
  require_worker-IsConsistent w s h = elim (Bool-cases (s.known w)) [
    | inl e ↦ rw e h
    | inr e ↦ rw e (record {
      once = h.once;
      listed = λ j n. ground (arith, h.listed j n, fresh_worker w s e h, ==_iff w j);
      are_known = λ j pos. ground (arith, h.are_known j);
      unnamed = h.unnamed;
      named = λ j n. ground (arith, h.named j n);
    })
  ]

  pub attach-IsConsistent :
      (w n : ℕ) (s : Producer b)
      → count w s.waiting ≡ 0
      → IsConsistent b s
      → IsConsistent b (attach b w n s)
  unfolding attach
  attach-IsConsistent w n s idle h = elim (Bool-cases (elem n s.names)) [
    | inl e ↦ rw e (record {
      once = h.once;
      listed = λ j k. ground (arith, h.listed j k, idle, ==_iff w j);
      are_known = h.are_known;
      unnamed = h.unnamed;
      named = λ j k. ground (arith, h.named j k, e, ==_iff n k);
    })
    | inr e ↦ rw e (record {
      once = h.once;
      listed = λ j k. ground (
        arith,
        h.listed j k,
        h.listed j n,
        h.unnamed j n e,
        idle,
        count-nil j,
        ==_iff w j,
        ==_iff n k,
      );
      are_known = h.are_known;
      unnamed = λ j k u. ground (arith, elem-append k s.names (n ∷ []), h.unnamed j k, count-nil j);
      named = λ j k. ground (arith, elem-append k s.names (n ∷ []), h.named j k);
    })
  ]

  pub set_id-IsConsistent :
      (w i : ℕ) (s : Producer b) → IsConsistent b s → IsConsistent b (set_id b w i s)
  unfolding set_id
  set_id-IsConsistent w i s h = record {
    once = h.once;
    listed = λ j n. ground (arith, h.listed j n, ==_iff w j);
    are_known = h.are_known;
    unnamed = h.unnamed;
    named = λ j n. ground (arith, h.named j n, ==_iff w j);
  }

  pub dispatch-IsConsistent :
      (now : ℕ) (v : Option ℕ) (s : Producer b)
      → IsConsistent b s
      → IsConsistent b (final b (dispatch b now v s))
  unfolding dispatch
  dispatch-IsConsistent now none s h =
      final-and_then b (IsConsistent b) (purge_workers b now s) (raised attribute_error)
        (purge_workers-IsConsistent b now s h) (λ t k. k)
  dispatch-IsConsistent now (some n) s h =
      final-and_then b (IsConsistent b) (purge_workers b now s) (serve b n)
        (purge_workers-IsConsistent b now s h)
        (λ t k. let (u, r, l) = serve_keeps b n t k in rw r l.consistent)

  pub worker_waiting-IsConsistent :
      (now w : ℕ) (s : Producer b)
      → s.known w ≡ true
      → IsConsistent b s
      → IsConsistent b (final b (worker_waiting b now w s))
  unfolding worker_waiting
  worker_waiting-IsConsistent now w s k h =
      dispatch-IsConsistent now _ (mark_waiting b now w s) (mark_waiting-IsConsistent now w s k h)

  pub known-require : (w : ℕ) (s : Producer b) → (require_worker b w s).known w ≡ true
  unfolding require_worker
  known-require w s = ground arith

  pub waiting-require : (w : ℕ) (s : Producer b) → (require_worker b w s).waiting ≡ s.waiting
  unfolding require_worker
  waiting-require w s = ground arith

  pub known-attach : (w n : ℕ) (s : Producer b) → (attach b w n s).known ≡ s.known
  unfolding attach
  known-attach w n s = ground arith

  admit-IsConsistent :
      (now w n : ℕ) (i : Option ℕ) (s : Producer b)
      → s.known w ≡ true
      → count w s.waiting ≡ 0
      → IsConsistent b s
      → IsConsistent b (final b (admit b now w n i s))
  unfolding admit set_id
  admit-IsConsistent now w n none s k z h = attach-IsConsistent w n s z h
  admit-IsConsistent now w n (some i) s k z h =
      worker_waiting-IsConsistent now w (set_id b w i (attach b w n s)) (rw (known-attach w n s) k)
        (set_id-IsConsistent w i (attach b w n s) (attach-IsConsistent w n s z h))

  -- What W_READY does with its frames, from a state in which the worker is known, and waits nowhere
  -- if it is new.
  pub ready_frames-IsConsistent :
      (now : ℕ) (old : Bool) (w : ℕ) (frames : List ℕ) (s : Producer b)
      → s.known w ≡ true
      → (old ≡ false → count w s.waiting ≡ 0)
      → IsConsistent b s
      → IsConsistent b (final b (ready_frames b now old w frames s))
  unfolding ready_frames
  ready_frames-IsConsistent now old w [] s k z h = h
  ready_frames-IsConsistent now old w (f ∷ fs) s k z h = name_case (b.decode f) fs
    where
      id_case : (n : ℕ) (o : Option ℕ) → IsConsistent b (final b (id_frame b now old w n o s))
      id_case n none = h
      id_case n (some text) = elim (Bool-cases old) [
        | inl e ↦ rw e (delete_worker-IsConsistent b w true s h)
        | inr e ↦ rw e (admit-IsConsistent now w n (b.parse_uid text) s k (z e) h)
      ]

      name_case :
          (o : Option ℕ) (gs : List ℕ) → IsConsistent b (final b (name_frame b now old w o gs s))
      name_case none gs = h
      name_case (some n) [] = h
      name_case (some n) (g ∷ gs) = id_case n (b.decode g)
