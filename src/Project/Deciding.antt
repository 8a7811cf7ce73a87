-- ===== src/Project/Deciding.antt =====
-- The decision whether the hashed fields of two events of project.py are equal.
use py_syft.Prelude.{
  ℕ, ◌≡◌, refl, ap, Bool, true, false, Option, none, some, arith, inl, inr, Bool-cases, ==_iff,
  ◌==◌,
}
use py_syft.Project.Log.{Hashed}

pub true-false : {b : Bool} → b ≡ true → b ≡ false → ⊥
true-false {b} t f = ground arith

pub some-injective : {A : Type 0} {a b : A} → some a ≡ some b → a ≡ b
some-injective {A} {a} {b} h = cc

option_eq? : {A : Type 0} → ((a b : A) → Dec (a ≡ b)) → (x y : Option A) → Dec (x ≡ y)
option_eq? eq? none none = yes refl
option_eq? eq? none (some b) = no (λ h. ground arith)
option_eq? eq? (some a) none = no (λ h. ground arith)
option_eq? eq? (some a) (some b) = elim (eq? a b) [
  | yes h ↦ yes (ap some h)
  | no f ↦ no (λ h. f (some-injective h))
]

nat_eq? : (a b : ℕ) → Dec (a ≡ b)
nat_eq? a b = elim (Bool-cases (a == b)) [
  | inl t ↦ yes ((==_iff a b).0 t)
  | inr f ↦ no (λ h. true-false ((==_iff a b).1 h) f)
]

and_eq? : {P Q : Type 0} → Dec P → Dec Q → Dec (P × Q)
and_eq? (yes p) (yes q) = yes (p, q)
and_eq? (yes p) (no f) = no (λ h. f h.1)
and_eq? (no f) q = no (λ h. f h.0)

abbrev fields :
    (D : Type 0) → Hashed D → ℕ × (Option ℕ × (Option ℕ × (Option ℕ × (ℕ × (Option D × Option ℕ)))))
fields D h = (
  h.id,
  (
    h.project_id,
    (h.seq_no, (h.prev_event_uid, (h.timestamp, (h.prev_event_hash, h.creator_verify_key)))),
  ),
)

abbrev of_fields :
    (D : Type 0) → ℕ × (Option ℕ × (Option ℕ × (Option ℕ × (ℕ × (Option D × Option ℕ))))) → Hashed D
of_fields D (i, (p, (s, (u, (t, (d, k)))))) = record {
  id = i;
  project_id = p;
  seq_no = s;
  prev_event_uid = u;
  timestamp = t;
  prev_event_hash = d;
  creator_verify_key = k;
}

pair_eq? :
    {A B : Type 0}
    → ((a b : A) → Dec (a ≡ b))
    → ((a b : B) → Dec (a ≡ b))
    → (x y : A × B) → Dec (x ≡ y)
pair_eq? f g (a, b) (a', b') = elim (and_eq? (f a a') (g b b')) [
  | yes (p, q) ↦ yes (λ i. (p i, q i))
  | no n ↦ no (λ h. n (ap (λ m. m.0) h, ap (λ m. m.1) h))
]

pub hashed_eq? : (D : Type 0) → ((a b : D) → Dec (a ≡ b)) → (x y : Hashed D) → Dec (x ≡ y)
hashed_eq? D eq? x y =
    elim (pair_eq? nat_eq?
      (pair_eq? (option_eq? nat_eq?) (
        pair_eq? (option_eq? nat_eq?) (
          pair_eq? (option_eq? nat_eq?)
            (pair_eq? nat_eq? (pair_eq? (option_eq? eq?) (option_eq? nat_eq?))))))
      (fields D x) (fields D y)) [
        | yes h ↦ yes (ap (of_fields D) h)
        | no n ↦ no (λ h. n (ap (fields D) h))
      ]
