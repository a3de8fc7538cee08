-- ===== src/AntModePolicy/TextOrder.antt =====
-- The order of texts, in which the sets of warning ids are kept.
use Prim.Native.Char.{Char, code}
use Prim.Native.Nat.{Ordering, compare as compare_ℕ}
use Prim.Native.String.{then, compare}
use Prim.Native.String.compare as Text
use text.Mathlib.Text.{is_eq}
use station_a.Base.{
  ℕ, ◌<◌, String, Bool, true, false, ◌≡◌, ◌⊎◌, inl, inr, refl, sym, ap, ◌∙◌, arith, precedes,
  str_eq,
}

-- Before or equal, letter by letter.
abbrev pub Below : String → String → Type 0
Below String.[] t = Unit
Below (String.◌∷◌ c s) String.[] = ⊥
Below (String.◌∷◌ c s) (String.◌∷◌ d t) = (code c < code d) ⊎ ((code c ≡ code d) × Below s t)

pub Below-refl : (s : String) → Below s s
Below-refl String.[] = tt
Below-refl (String.◌∷◌ c s) = inr (refl, Below-refl s)

pub Below-trans : (s t u : String) → Below s t → Below t u → Below s u
Below-trans String.[] t u a b = tt
Below-trans (String.◌∷◌ c s) String.[] u a b = absurd a
Below-trans (String.◌∷◌ c s) (String.◌∷◌ d t) String.[] a b = absurd b
Below-trans (String.◌∷◌ c s) (String.◌∷◌ d t) (String.◌∷◌ e u) (inl a) (inl b) = inl (omega arith)
Below-trans (String.◌∷◌ c s) (String.◌∷◌ d t) (String.◌∷◌ e u) (inl a) (inr b) =
    inl (omega (arith, b.0))
Below-trans (String.◌∷◌ c s) (String.◌∷◌ d t) (String.◌∷◌ e u) (inr a) (inl b) =
    inl (omega (arith, a.0))
Below-trans (String.◌∷◌ c s) (String.◌∷◌ d t) (String.◌∷◌ e u) (inr a) (inr b) =
    inr (a.0 ∙ b.0, Below-trans s t u a.1 b.1)

abbrev passes : Ordering → Bool
passes o = elim o [ Ordering.gt ↦ false | _ ↦ true ]

not_both : {b : Bool} → b ≡ false → b ≡ true → ⊥
not_both e h = cc

order-cases : (o : Ordering) → (o ≡ Ordering.lt) ⊎ ((o ≡ Ordering.eq) ⊎ (o ≡ Ordering.gt))
order-cases Ordering.lt = inl refl
order-cases Ordering.eq = inr (inl refl)
order-cases Ordering.gt = inr (inr refl)

code-cases :
    (m n : ℕ)
    → ((compare_ℕ m n ≡ Ordering.lt) × (m < n))
      ⊎ (((compare_ℕ m n ≡ Ordering.eq) × (m ≡ n)) ⊎ ((compare_ℕ m n ≡ Ordering.gt) × (n < m)))
code-cases m n = elim (order-cases (compare_ℕ m n)) [
  | inl e ↦ inl (e, ground (arith, e))
  | inr (inl e) ↦ inr (inl (e, ground (arith, e)))
  | inr (inr e) ↦ inr (inr (e, ground (arith, e)))
]

step :
    (c d : Char) (s t : String) (o : Ordering)
    → compare_ℕ (code c) (code d) ≡ o
    → compare (String.◌∷◌ c s) (String.◌∷◌ d t) ≡ then o (compare s t)
step c d s t o e = Text.cons-cons c d s t ∙ ap (λ x. then x (compare s t)) e

pub precedes-Below : (s t : String) → precedes s t ≡ true → Below s t
precedes-Below String.[] t h = tt
precedes-Below (String.◌∷◌ c s) String.[] h = not_both (ap passes (Text.cons-nil c s)) h
precedes-Below (String.◌∷◌ c s) (String.◌∷◌ d t) h = elim (code-cases (code c) (code d)) [
  | inl (e, l) ↦ inl l
  | inr (inl (e, l)) ↦
      inr (l, precedes-Below s t (sym (ap passes (step c d s t Ordering.eq e)) ∙ h))
  | inr (inr (e, l)) ↦ absurd (not_both (ap passes (step c d s t Ordering.gt e)) h)
]

pub Below-precedes : (s t : String) → Below s t → precedes s t ≡ true
Below-precedes String.[] String.[] h = refl
Below-precedes String.[] (String.◌∷◌ d t) h = ap passes (Text.nil-cons d t)
Below-precedes (String.◌∷◌ c s) String.[] h = absurd h
Below-precedes (String.◌∷◌ c s) (String.◌∷◌ d t) (inl l) = elim (code-cases (code c) (code d)) [
  | inl (e, k) ↦ ap passes (step c d s t Ordering.lt e)
  | inr (inl (e, k)) ↦ absurd (omega (arith, k))
  | inr (inr (e, k)) ↦ absurd (omega arith)
]
Below-precedes (String.◌∷◌ c s) (String.◌∷◌ d t) (inr (m, l)) =
    elim (code-cases (code c) (code d)) [
      | inl (e, k) ↦ absurd (omega (arith, m))
      | inr (inl (e, k)) ↦ ap passes (step c d s t Ordering.eq e) ∙ Below-precedes s t l
      | inr (inr (e, k)) ↦ absurd (omega (arith, m))
    ]

not_above :
    (c d : Char) (s t : String) → Below (String.◌∷◌ d t) (String.◌∷◌ c s) → code c < code d → ⊥
not_above c d s t (inl a) k = omega arith
not_above c d s t (inr (e, a)) k = omega (arith, e)

rest-Below :
    (c d : Char) (s t : String)
    → code c ≡ code d
    → Below (String.◌∷◌ c s) (String.◌∷◌ d t)
    → Below s t
rest-Below c d s t e (inl l) = absurd (omega (arith, e))
rest-Below c d s t e (inr (m, b)) = b

Below-compare : (s t : String) → Below s t → Below t s → compare s t ≡ Ordering.eq
Below-compare String.[] String.[] a b = Text.nil-nil
Below-compare String.[] (String.◌∷◌ d t) a b = absurd b
Below-compare (String.◌∷◌ c s) String.[] a b = absurd a
Below-compare (String.◌∷◌ c s) (String.◌∷◌ d t) a b = elim (code-cases (code c) (code d)) [
  | inl (e, k) ↦ absurd (not_above c d s t b k)
  | inr (inl (e, k)) ↦
      step c d s t Ordering.eq e
      ∙ Below-compare s t (rest-Below c d s t k a) (rest-Below d c t s (sym k) b)
  | inr (inr (e, k)) ↦ absurd (not_above d c t s a k)
]

-- Two texts that are each before or equal to the other are equal.
pub Below-antisym : (s t : String) → Below s t → Below t s → str_eq s t ≡ true
Below-antisym s t a b = ap is_eq (Below-compare s t a b)
