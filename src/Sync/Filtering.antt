-- ===== src/Sync/Filtering.antt =====
-- What the filters of `ServerDiff` in service/sync/diff_state.py leave.
use py_syft.Prelude.{
  ◌≡◌, refl, sym, ap, ◌∙◌, Bool, true, false, not, ◌&&◌, ◌||◌, Option, none, some, List, [], ◌∷◌,
  ◌++◌, any, filter, Text, codes, text_eq, Bool-cases, inl, inr, arith,
}
use py_syft.Sync.Objects.{Status, is_ignore}
use py_syft.Sync.Batch.{Batch}
use py_syft.Sync.Filters.{
  ServerDiffFilter, View, equals, differs, text_or_raises, status_or_raises, call, from_batch,
  holds, apply_filters, user_filter, ignored_filter, same_filter, lower_all, include_filter,
  exclude_filters, filter_batches,
}

module _ (lower : Text → Text) (v : View) where
  -- What a batch is kept for: the email of its user is the one asked for, whatever the case of their
  -- letters; it is not ignored; it has changed; the name of its class is among those included, and not
  -- among those excluded, whatever the case.
  abbrev pub is_email : Option Text → Option Text → Bool
  is_email none email = true
  is_email (some t) none = false
  is_email (some t) (some email) = text_eq (lower email) (lower t)

  abbrev pub has_changed : Option Status → Bool
  has_changed none = false
  has_changed (some Status.same) = false
  has_changed (some s) = true

  abbrev pub is_included : Option (List Text) → Text → Bool
  is_included none name = true
  is_included (some ts) name = any (λ t. text_eq name (lower t)) ts

  abbrev pub is_excluded : List Text → Text → Bool
  is_excluded ts name = any (λ t. text_eq name (lower t)) ts

  abbrev pub is_kept : Option Text → Bool → Bool → Option (List Text) → List Text → Batch → Bool
  is_kept user_email include_ignored include_same include_types exclude_types b =
      is_email user_email (v.email b)
      && ((include_ignored || not (is_ignore b.decision))
          && ((include_same || has_changed (v.batch_status b))
              && (is_included include_types (lower (v.type_name b))
                  && not (is_excluded exclude_types (lower (v.type_name b))))))

  abbrev all_hold : List ServerDiffFilter → Batch → Bool
  all_hold [] b = true
  all_hold (f ∷ fs) b = call lower v f b && all_hold fs b

  filter-filter :
      (p q : Batch → Bool) (bs : List Batch) → filter q (filter p bs) ≡ filter (λ b. p b && q b) bs
  filter-filter p q [] = refl
  filter-filter p q (b ∷ bs) = elim (Bool-cases (p b)) [
    | inl m ↦ rw m (rw (filter-filter p q bs) refl)
    | inr m ↦ rw m (filter-filter p q bs)
  ]

  filter-true : (bs : List Batch) → filter (λ b. true) bs ≡ bs
  filter-true [] = refl
  filter-true (b ∷ bs) = ap (λ l. b ∷ l) (filter-true bs)

  filter-ext :
      (p q : Batch → Bool) (bs : List Batch) → ((b : Batch) → p b ≡ q b) → filter p bs ≡ filter q bs
  filter-ext p q [] h = refl
  filter-ext p q (b ∷ bs) h = rw (h b) (rw (filter-ext p q bs h) refl)

  apply_filters-filter :
      (fs : List ServerDiffFilter) (bs : List Batch)
      → apply_filters lower v fs bs ≡ filter (all_hold fs) bs
  unfolding apply_filters
  apply_filters-filter [] bs = sym (filter-true bs)
  apply_filters-filter (f ∷ fs) bs =
      apply_filters-filter fs (filter (call lower v f) bs)
      ∙ filter-filter (call lower v f) (all_hold fs) bs

  all_hold-append :
      (fs gs : List ServerDiffFilter) (b : Batch)
      → all_hold (fs ++ gs) b ≡ all_hold fs b && all_hold gs b
  all_hold-append [] gs b = refl
  all_hold-append (f ∷ fs) gs b = ground (arith, all_hold-append fs gs b)

  hold_user :
      ((b : Batch) (email : Text) → v.email b ≡ some email → lower email ≡ email)
      → (u : Option Text) (b : Batch) → all_hold (user_filter lower v u) b ≡ is_email u (v.email b)
  unfolding call from_batch holds
  hold_user low none b = refl
  hold_user low (some t) b = by_email (v.email b) (low b)
    where
      by_email :
          (e : Option Text)
          → ((email : Text) → e ≡ some email → lower email ≡ email)
          → holds lower v (equals t) (text_or_raises e) && true ≡ is_email (some t) e
      by_email none f = refl
      by_email (some email) f = rw (f email refl) (ground arith)

  hold_ignored :
      (i : Bool) (b : Batch)
      → all_hold (ignored_filter lower v i) b ≡ i || not (is_ignore b.decision)
  unfolding call from_batch holds
  hold_ignored true b = refl
  hold_ignored false b = ground arith

  hold_same :
      lower (codes "SAME") ≡ codes "same"
      → (i : Bool) (b : Batch)
      → all_hold (same_filter lower v i) b ≡ i || has_changed (v.batch_status b)
  unfolding call from_batch holds
  hold_same l true b = refl
  hold_same l false b = by_status (v.batch_status b)
    where
      by_status :
          (s : Option Status)
          → holds lower v (differs (codes "SAME")) (status_or_raises s) && true ≡ has_changed s
      by_status none = refl
      by_status (some Status.same) = rw l refl
      by_status (some Status.new) = rw l refl
      by_status (some Status.modified) = rw l refl

  any-lower_all :
      (name : Text) (ts : List Text)
      → any (text_eq name) (lower_all lower v ts) ≡ any (λ t. text_eq name (lower t)) ts
  any-lower_all name [] = refl
  any-lower_all name (t ∷ ts) = ground (arith, any-lower_all name ts)

  hold_include :
      (i : Option (List Text)) (b : Batch)
      → all_hold (include_filter lower v i) b ≡ is_included i (lower (v.type_name b))
  unfolding call from_batch holds
  hold_include none b = refl
  hold_include (some ts) b = ground (arith, any-lower_all (lower (v.type_name b)) ts)

  hold_exclude :
      (ts : List Text) (b : Batch)
      → all_hold (exclude_filters lower v ts) b ≡ not (is_excluded ts (lower (v.type_name b)))
  unfolding call from_batch holds
  hold_exclude [] b = refl
  hold_exclude (t ∷ ts) b = ground (arith, hold_exclude ts b)

  -- Where `lower` takes SAME to same and leaves every email of a user as it is, `_filter` keeps
  -- exactly the batches that meet each of the conditions that are asked for: the email of the user,
  -- the decision not to be ignored, the change, the class to be included and not to be excluded,
  -- emails and classes whatever their case.
  pub filter_batches_lem :
      (user_email : Option Text) (include_ignored include_same : Bool)
      (include_types : Option (List Text)) (exclude_types : List Text) (bs : List Batch)
      → ((b : Batch) (email : Text) → v.email b ≡ some email → lower email ≡ email)
      → lower (codes "SAME") ≡ codes "same"
      → filter_batches lower v user_email include_ignored include_same include_types exclude_types
          bs
        ≡ filter (is_kept user_email include_ignored include_same include_types exclude_types) bs
  unfolding filter_batches
  filter_batches_lem u i s t x bs low l =
      let fs =
        user_filter lower v u
        ++ (ignored_filter lower v i
            ++ (same_filter lower v s
                ++ (include_filter lower v t ++ exclude_filters lower v x))) in
      apply_filters-filter fs bs
      ∙ filter-ext (all_hold fs) (is_kept u i s t x) bs (λ b. ground (
        arith,
        all_hold-append (user_filter lower v u)
            (ignored_filter lower v i
              ++ (same_filter lower v s ++ (include_filter lower v t ++ exclude_filters lower v x)))
            b,
        all_hold-append (ignored_filter lower v i)
            (same_filter lower v s ++ (include_filter lower v t ++ exclude_filters lower v x)) b,
        all_hold-append (same_filter lower v s)
            (include_filter lower v t ++ exclude_filters lower v x) b,
        all_hold-append (include_filter lower v t) (exclude_filters lower v x) b,
        hold_user low u b,
        hold_ignored i b,
        hold_same l s b,
        hold_include t b,
        hold_exclude x b,
      ))
