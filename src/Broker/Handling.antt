-- ===== src/Broker/Handling.antt =====
-- Which messages the methods of the broker (zmq_producer.py) survive.
use py_syft.Prelude.{
  ℕ, ◌≡◌, Bool, true, false, Option, none, some, List, [], ◌∷◌, arith, ==_iff, if_cases,
}
use py_syft.Broker.State.{
  Backend, Producer, Outcome, done, raised, final, and_then, Command, ready, heartbeat_command,
  disconnect_command, invalid, backend_error,
}
use py_syft.Broker.Purging.{delete_worker, purge_workers}
use py_syft.Broker.Dispatching.{dispatch, worker_waiting, mark_waiting, serve}
use py_syft.Broker.Protocol.{
  process_worker, require_worker, attach, set_id, admit, ready_frames, name_frame, id_frame,
}
use py_syft.Broker.Lists.{IsConsistent}
use py_syft.Broker.Delete.{delete_worker-IsConsistent, known-delete, objects-delete}
use py_syft.Broker.Purge.{purge_workers_keeps, purge_workers-IsConsistent}
use py_syft.Broker.Expiry.{RaisesBackend, RaisesBackend-purge_workers}
use py_syft.Broker.Serve.{serve_keeps}
use py_syft.Broker.Invariant.{
  mark_waiting-IsConsistent, same-mark, known-require, waiting-require, known-attach,
  attach-IsConsistent, set_id-IsConsistent, require_worker-IsConsistent, fresh_worker,
}

abbrev pub is_some {ℓ} : {A : Type ℓ} → Option A → Bool
is_some none = false
is_some (some a) = true

module _ (b : Backend) where
  -- Consistent lists, and a service for every worker that is known.
  pub record IsSound (s : Producer b) : Type 0 where
    pub consistent : IsConsistent b s
    pub served : (w : ℕ) → s.known w ≡ true → is_some (s.objects w).service ≡ true

  -- A method that ends in a sound state, or raises what `WorkerService._delete` raised.
  abbrev pub EndsWell : Outcome b → Type 0
  EndsWell (done s) = IsSound s
  EndsWell (raised e s) = e ≡ backend_error

  pub EndsWell-and_then :
      (o : Outcome b) (f : Producer b → Outcome b)
      → EndsWell o
      → ((s : Producer b) → IsSound s → EndsWell (f s))
      → EndsWell (and_then b o f)
  EndsWell-and_then (done s) f h k = k s h
  EndsWell-and_then (raised e s) f h k = h

  EndsWell-final : (o : Outcome b) → RaisesBackend b o → IsSound (final b o) → EndsWell o
  EndsWell-final (done s) r h = h
  EndsWell-final (raised e s) r h = r

  delete_worker-IsSound :
      (w : ℕ) (d : Bool) (s : Producer b) → IsSound s → IsSound (delete_worker b w d s)
  delete_worker-IsSound w d s h = record {
    consistent = delete_worker-IsConsistent b w d s h.consistent;
    served = λ j k. rw objects-delete (h.served j (ground (arith, known-delete b w d s j)));
  }

  pub purge_workers-EndsWell :
      (now : ℕ) (s : Producer b) → IsSound s → EndsWell (purge_workers b now s)
  purge_workers-EndsWell now s h =
      EndsWell-final (purge_workers b now s) (RaisesBackend-purge_workers b now s) (record {
        consistent = purge_workers-IsConsistent b now s h.consistent;
        served =
            purge_workers_keeps b now
              (λ t. (w : ℕ) → t.known w ≡ true → is_some (t.objects w).service ≡ true)
              (λ w m t k _ _ j e. rw objects-delete (k j (ground (arith, known-delete b w m t j))))
              (λ t st k. k) s h.served;
      })

  serve-EndsWell : (n : ℕ) (s : Producer b) → IsSound s → EndsWell (serve b n s)
  serve-EndsWell n s h =
      let (t, r, k) = serve_keeps b n s h.consistent in
      rw r (record {
        consistent = k.consistent;
        served = λ w e. rw k.objects (h.served w (rw k.known at e));
      })

  pub dispatch-EndsWell :
      (now : ℕ) (v : Option ℕ) (s : Producer b)
      → is_some v ≡ true
      → IsSound s
      → EndsWell (dispatch b now v s)
  unfolding dispatch
  dispatch-EndsWell now none s v h = ground arith
  dispatch-EndsWell now (some n) s v h =
      EndsWell-and_then (purge_workers b now s) (serve b n) (purge_workers-EndsWell now s h)
        (serve-EndsWell n)

  mark_waiting-IsSound :
      (now w : ℕ) (s : Producer b) → s.known w ≡ true → IsSound s → IsSound (mark_waiting b now w s)
  mark_waiting-IsSound now w s k h = record {
    consistent = mark_waiting-IsConsistent b now w s k h.consistent;
    served = λ j e. rw ((same-mark b now w s).1) (h.served j (rw ((same-mark b now w s).0) at e));
  }

  worker_waiting-EndsWell :
      (now w : ℕ) (s : Producer b)
      → s.known w ≡ true
      → IsSound s
      → EndsWell (worker_waiting b now w s)
  unfolding worker_waiting
  worker_waiting-EndsWell now w s k h =
      dispatch-EndsWell now _ (mark_waiting b now w s) (rw ((same-mark b now w s).1) (h.served w k))
        (mark_waiting-IsSound now w s k h)

  -- The two frames of W_READY that decode, the second to an id.
  abbrev pub Parses : List ℕ → Type 0
  Parses (f ∷ g ∷ rest) =
      (n text i : ℕ) × (b.decode f ≡ some n)
      × (b.decode g ≡ some text)
      × (b.parse_uid text ≡ some i)
  Parses _ = ⊥

  -- What a worker sends: one of the three commands, W_READY with its frames.
  abbrev pub IsWorkerMessage : Command → List ℕ → Type 0
  IsWorkerMessage ready frames = Parses frames
  IsWorkerMessage heartbeat_command frames = Unit
  IsWorkerMessage disconnect_command frames = Unit
  IsWorkerMessage invalid frames = ⊥

  -- A worker that was new is gone again.
  forgotten-IsSound :
      (w : ℕ) (d : Bool) (s : Producer b)
      → IsSound s
      → IsSound (delete_worker b w d (require_worker b w s))
  unfolding require_worker
  forgotten-IsSound w d s h = record {
    consistent =
        delete_worker-IsConsistent b w d (require_worker b w s)
          (require_worker-IsConsistent b w s h.consistent);
    served = λ j e.
        rw objects-delete
          (ground (arith, known-delete b w d (require_worker b w s) j, h.served j, ==_iff w j));
  }

  admitted-IsSound :
      (w n i : ℕ) (s : Producer b)
      → s.known w ≡ false
      → IsSound s
      → IsSound (set_id b w i (attach b w n (require_worker b w s)))
  unfolding set_id attach require_worker
  admitted-IsSound w n i s e h = record {
    consistent = set_id-IsConsistent b w i (attach b w n (require_worker b w s)) (
        attach-IsConsistent b w n (require_worker b w s)
          (rw waiting-require (fresh_worker b w s e h.consistent))
          (require_worker-IsConsistent b w s h.consistent));
    served = λ j k. ground (arith, h.served j, ==_iff w j);
  }

  ready-EndsWell :
      (now w : ℕ) (frames : List ℕ) (s : Producer b)
      → Parses frames
      → IsSound s
      → EndsWell (ready_frames b now (s.known w) w frames (require_worker b w s))
  unfolding ready_frames
  ready-EndsWell now w [] s p h = elim p [ ]
  ready-EndsWell now w (f ∷ []) s p h = elim p [ ]
  ready-EndsWell now w (f ∷ g ∷ rest) s (n, text, i, pf, pg, pi) h =
      rw (pf, name_frame)
        (rw (pg, id_frame)
          (rw (pi, admit)
            (if_cases EndsWell (s.known w) (λ e. forgotten-IsSound w true s h)
              (λ e.
                worker_waiting-EndsWell now w (set_id b w i (attach b w n (require_worker b w s)))
                  (unfold set_id in rw known-attach (known-require b w s))
                  (admitted-IsSound w n i s e h)))))

  -- In a sound state every message of a worker ends in a sound state, or in what the deletion of a
  -- worker raised.
  pub process_worker-EndsWell :
      (now w : ℕ) (c : Command) (frames : List ℕ) (s : Producer b)
      → IsWorkerMessage c frames
      → IsSound s
      → EndsWell (process_worker b now w c frames s)
  unfolding process_worker
  process_worker-EndsWell now w ready frames s p h = ready-EndsWell now w frames s p h
  process_worker-EndsWell now w heartbeat_command frames s p h =
      if_cases EndsWell (s.known w)
        (λ e.
          let same : require_worker b w s ≡ s = unfold require_worker in ground arith in
          rw same (worker_waiting-EndsWell now w s e h))
        (λ e. forgotten-IsSound w true s h)
  process_worker-EndsWell now w disconnect_command frames s p h = forgotten-IsSound w false s h
  process_worker-EndsWell now w invalid frames s p h = elim p [ ]
