-- ===== src/Base/Bytes.antt =====
-- Bytes and machine words: the parts of a list of bytes, and the check of a small range by
-- evaluation.
use Prim.Native.Nat.{ℕ, zero, suc, ◌%◌, ◌^◌, ◌<◌}
use mathlib.Core.Path.{◌≡◌, refl, ap}
use mathlib.Core.Bool.{Bool, true, ◌&&◌}
use mathlib.Core.List.{List, [], ◌∷◌, ◌++◌}
use native.Mathlib.Omega.{arith}

-- A uint64 that wraps.
abbrev pub u64 : ℕ → ℕ
u64 n = n % 2 ^ 64

-- All but the last byte, and the last byte.
unfoldable pub front : List ℕ → List ℕ
front [] = []
front (b ∷ []) = []
front (b ∷ c ∷ bs) = b ∷ front (c ∷ bs)

unfoldable pub last : List ℕ → ℕ
last [] = 0
last (b ∷ []) = b
last (b ∷ c ∷ bs) = last (c ∷ bs)

pub front-append : (xs : List ℕ) (x : ℕ) → front (xs ++ x ∷ []) ≡ xs
unfolding front
front-append [] x = refl
front-append (y ∷ []) x = refl
front-append (y ∷ z ∷ xs) x = ap (λ ys. y ∷ ys) (front-append (z ∷ xs) x)

pub last-append : (xs : List ℕ) (x : ℕ) → last (xs ++ x ∷ []) ≡ x
unfolding last
last-append [] x = refl
last-append (y ∷ []) x = refl
last-append (y ∷ z ∷ xs) x = last-append (z ∷ xs) x

-- A test that holds of every number below a bound, decided by evaluation.
unfoldable pub all_below : ℕ → (ℕ → Bool) → Bool
all_below zero p = true
all_below (suc n) p = p n && all_below n p

pub all_below_sound : (n : ℕ) (p : ℕ → Bool) (x : ℕ) → all_below n p ≡ true → x < n → p x ≡ true
unfolding all_below
all_below_sound zero p x h l = absurd (omega arith)
all_below_sound (suc n) p x h l = ground (arith, all_below_sound n p x)
