-- ===== src/Broker/Serve.antt =====
-- The loop of `dispatch` of zmq_producer.py hands the requests of a service to its waiting workers.
use mathlib.Core.List.{append-nil, append_assoc}
use py_syft.Prelude.{
  ℕ, zero, suc, ◌≡◌, ◌∙◌, refl, sym, ap, false, List, [], ◌∷◌, ◌++◌, arith, ◌==◌, ==_iff, ==_refl,
  if◌then◌else◌, Bool-cases, remove, count, inl, inr, length, drop, count-cons, count-remove,
  elem_iff, update,
}
use py_syft.Broker.State.{Backend, Service, Producer, Sent, request, done}
use py_syft.Broker.Purging.{send_to_worker}
use py_syft.Broker.Dispatching.{hand_over, serve_loop, serve}
use py_syft.Broker.Lists.{IsConsistent, IsConsistent-sent, IsConsistent-send}

-- Each waiting worker has one request, first come first served, as long as there are both.
abbrev pub hand_out : List ℕ → List ℕ → List Sent
hand_out (w ∷ ws) (m ∷ ms) = request w m ∷ hand_out ws ms
hand_out _ _ = []

module _ (b : Backend) (n : ℕ) where
  -- The state of the lists after one round, and the state once the request is sent.
  abbrev moved : ℕ → List ℕ → List ℕ → Producer b → Producer b
  moved w ws ms s = record s {
    services = update s.services n (record { requests = ms; waiting = ws });
    waiting = remove w s.waiting;
  }

  abbrev handed : ℕ → List ℕ → ℕ → List ℕ → Producer b → Producer b
  handed w ws m ms s = let t = moved w ws ms s in record t { sent = t.sent ++ request w m ∷ [] }

  hand_over-send :
      (w : ℕ) (ws : List ℕ) (m : ℕ) (ms : List ℕ) (s : Producer b)
      → IsConsistent b s
      → (s.services n).waiting ≡ w ∷ ws
      → hand_over b n w ws m ms s ≡ done (send_to_worker b (request w m) (moved w ws ms s))
  unfolding hand_over count
  hand_over-send w ws m ms s h e =
      ground (arith, h.listed w n, elem_iff w s.waiting, ap (count w) e)

  hand_over-done :
      (w : ℕ) (ws : List ℕ) (m : ℕ) (ms : List ℕ) (s : Producer b)
      → IsConsistent b s
      → (s.services n).waiting ≡ w ∷ ws
      → s.closed ≡ false
      → hand_over b n w ws m ms s ≡ done (handed w ws m ms s)
  unfolding send_to_worker
  hand_over-done w ws m ms s h e c = hand_over-send w ws m ms s h e ∙ ground arith

  moved-IsConsistent :
      (w : ℕ) (ws ms : List ℕ) (s : Producer b)
      → IsConsistent b s
      → (s.services n).waiting ≡ w ∷ ws
      → IsConsistent b (moved w ws ms s)
  moved-IsConsistent w ws ms s h e = record {
    once = λ j. ground (arith, h.once j, count-remove j w s.waiting);
    listed = λ j k. ground (
      arith,
      h.listed j k,
      h.listed w n,
      h.listed j n,
      h.once j,
      count-remove j w s.waiting,
      ap (count j) e,
      ap (count w) e,
      count-cons j w ws,
      count-cons w w ws,
      ==_iff n k,
      ==_iff w j,
    );
    are_known = λ j pos. ground (arith, h.are_known j, count-remove j w s.waiting);
    unnamed = λ j k u.
        ground (arith, h.unnamed j k, ap (count j) e, count-cons j w ws, ==_iff n k, ==_iff w j);
    named = h.named;
  }

  handed-IsConsistent :
      (w : ℕ) (ws : List ℕ) (m : ℕ) (ms : List ℕ) (s : Producer b)
      → IsConsistent b s
      → (s.services n).waiting ≡ w ∷ ws
      → IsConsistent b (handed w ws m ms s)
  handed-IsConsistent w ws m ms s h e =
      IsConsistent-sent b (moved w ws ms s) _ (moved-IsConsistent w ws ms s h e)

  -- What the loop keeps, also with the socket closed, where the requests are dropped.
  pub record ServeKeeps (s t : Producer b) : Type 0 where
    pub consistent : IsConsistent b t
    pub objects : t.objects ≡ s.objects
    pub known : t.known ≡ s.known

  same-send :
      (m : Sent) (s : Producer b)
      → ((send_to_worker b m s).objects ≡ s.objects) × ((send_to_worker b m s).known ≡ s.known)
  unfolding send_to_worker
  same-send m s = (ground arith, ground arith)

  serve_loop_keeps :
      (rounds : ℕ) (s : Producer b)
      → IsConsistent b s
      → (t : Producer b) × (serve_loop b n rounds s ≡ done t) × ServeKeeps s t
  unfolding serve_loop
  serve_loop_keeps zero s h = (s, refl, record { consistent = h; objects = refl; known = refl })
  serve_loop_keeps (suc rounds) s h =
      loop (serve_loop_keeps rounds) (s.services n).waiting (s.services n).requests refl refl
    where
      loop :
          ((u : Producer b)
            → IsConsistent b u
            → (t : Producer b) × (serve_loop b n rounds u ≡ done t) × ServeKeeps u t)
          → (ws ms : List ℕ) → (s.services n).waiting ≡ ws
          → (s.services n).requests ≡ ms
          → (t : Producer b) × (serve_loop b n (suc rounds) s ≡ done t) × ServeKeeps s t
      loop rec [] ms e f =
          (s, rw (e, serve_loop), record { consistent = h; objects = refl; known = refl })
      loop rec (w ∷ ws) [] e f = (
        s,
        rw (e, serve_loop) (rw (f, serve_loop)),
        record { consistent = h; objects = refl; known = refl },
      )
      loop rec (w ∷ ws) (m ∷ ms) e f =
          let u : Producer b = send_to_worker b (request w m) (moved w ws ms s) in
          let (t, r, k) = rec u (
            IsConsistent-send b (request w m) (moved w ws ms s)
              (moved-IsConsistent w ws ms s h e)) in
          (
            t,
            rw (e, serve_loop) (rw (f, serve_loop) (rw (hand_over-send w ws m ms s h e) r)),
            record {
              consistent = k.consistent;
              objects = k.objects ∙ (same-send (request w m) (moved w ws ms s)).0;
              known = k.known ∙ (same-send (request w m) (moved w ws ms s)).1;
            },
          )

  pub serve_keeps :
      (s : Producer b)
      → IsConsistent b s
      → (t : Producer b) × (serve b n s ≡ done t) × ServeKeeps s t
  unfolding serve
  serve_keeps s h = serve_loop_keeps (length (s.services n).requests) s h

  -- What the loop makes of the waiting workers `ws` and the requests `ms` of the service.
  pub record Served (ws ms : List ℕ) (s t : Producer b) : Type 0 where
    pub sent : t.sent ≡ s.sent ++ hand_out ws ms
    pub services :
        (k : ℕ)
        → t.services k ≡ (
            if n == k
            then record { requests = drop (length ws) ms; waiting = drop (length ms) ws }
            else s.services k)
    pub consistent : IsConsistent b t

  same_service :
      (s : Producer b) (k : ℕ) {v : Service}
      → s.services n ≡ v
      → s.services k ≡ (if n == k then v else s.services k)
  same_service s k e = elim (Bool-cases (n == k)) [
    | inl p ↦ rw p (ap s.services (sym ((==_iff n k).0 p)) ∙ e)
    | inr p ↦ rw p
  ]

  Served-none :
      (ws ms : List ℕ) (s : Producer b)
      → hand_out ws ms ≡ []
      → drop (length ws) ms ≡ ms
      → drop (length ms) ws ≡ ws
      → IsConsistent b s
      → s.services n ≡ record { requests = ms; waiting = ws }
      → Served ws ms s s
  Served-none ws ms s none_sent all_ms all_ws h e = record {
    sent = rw (none_sent, append-nil);
    services = λ k. rw (all_ms, all_ws) (same_service s k e);
    consistent = h;
  }

  serve_loop_lem :
      (ws ms : List ℕ) (s : Producer b)
      → IsConsistent b s
      → s.closed ≡ false
      → s.services n ≡ record { requests = ms; waiting = ws }
      → (t : Producer b) × (serve_loop b n (length ms) s ≡ done t) × Served ws ms s t
  unfolding serve_loop
  serve_loop_lem [] [] s h c e = (s, refl, Served-none [] [] s refl refl refl h e)
  serve_loop_lem (w ∷ ws) [] s h c e = (s, refl, Served-none (w ∷ ws) [] s refl refl refl h e)
  serve_loop_lem [] (m ∷ ms) s h c e =
      (s, rw (e, serve_loop), Served-none [] (m ∷ ms) s refl refl refl h e)
  serve_loop_lem (w ∷ ws) (m ∷ ms) s h c e =
      let waits : (s.services n).waiting ≡ w ∷ ws = ap (λ (v : Service). v.waiting) e in
      let asks : (s.services n).requests ≡ m ∷ ms = ap (λ (v : Service). v.requests) e in
      let (t, run, served) =
        serve_loop_lem ws ms (handed w ws m ms s) (handed-IsConsistent w ws m ms s h waits) c
          (rw (==_refl n)) in
      (
        t,
        rw (waits, serve_loop)
            (rw (asks, serve_loop) (rw (hand_over-done w ws m ms s h waits c) run)),
        record {
          sent = served.sent ∙ append_assoc s.sent (request w m ∷ []) (hand_out ws ms);
          services = λ k. ground (arith, served.services k);
          consistent = served.consistent;
        },
      )

  -- While the socket is open, the loop of `dispatch` ends without an exception: it has sent to the
  -- waiting workers of the service one request each, both in their order, until the workers or the
  -- requests ran out, it leaves the rest of both in place, changes no other service, and keeps the
  -- lists consistent.
  pub serve_lem :
      (s : Producer b)
      → IsConsistent b s
      → s.closed ≡ false
      → (t : Producer b) × (serve b n s ≡ done t)
        × Served (s.services n).waiting (s.services n).requests s t
  unfolding serve
  serve_lem s h c = serve_loop_lem (s.services n).waiting (s.services n).requests s h c refl
