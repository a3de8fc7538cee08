-- ===== src/AntModeEngine/Bearing.antt =====
-- antmode/internal/heading/heading.go: where the storm park points.
use station_a.Base.{
  ℕ, ◌+◌, ◌%◌, ◌≤◌, Bool, true, false, Option, none, some, List, [], ◌∷◌, ◌++◌, All, leb, ◌≡◌, ◌⊎◌,
  inl, inr, refl, arith, ℤ, pos, negsuc, Degrees, if-both, if-cases, if◌then◌else◌,
}
use station_a.AntModeEngine.Types.{Outside}
use station_a.AntModeEngine.Heading.{
  Inputs, norm, reach, with_overlap, candidates, is_better, nearest, nearest_of, storm,
}

-- A bearing within reach whose direction is at right angles to the wind's.
abbrev pub Broadside : ℕ → ℕ → ℕ → Type 0
Broadside max w n = (n ≤ max) × ((n % 360 ≡ (w + 90) % 360) ⊎ (n % 360 ≡ (w + 270) % 360))

pub reach-least : (z : ℤ) → 360 ≤ reach z
reach-least (pos n) = ground arith
reach-least (negsuc n) = omega arith

overlap-All :
    (P : ℕ → Type 0) (max c : ℕ) → P c → (c + 360 ≤ max → P (c + 360)) → All P (with_overlap max c)
overlap-All P max c p q =
    if-cases (All P) (leb (c + 360) max) (λ h. (p, (q (ground arith), tt))) (λ h. (p, tt))

pub append-All : (P : ℕ → Type 0) (xs ys : List ℕ) → All P xs → All P ys → All P (xs ++ ys)
append-All P [] ys p q = q
append-All P (x ∷ xs) ys (p, ps) q = (p, append-All P xs ys ps q)

candidates-All : (max w : ℕ) → 360 ≤ max → All (Broadside max w) (candidates max w)
unfolding candidates
candidates-All max w r =
    append-All (Broadside max w) (with_overlap max ((w + 90) % 360))
      (with_overlap max ((w + 270) % 360))
      (overlap-All (Broadside max w) max ((w + 90) % 360) (omega arith, inl (omega arith))
        (λ h. (h, inl (omega arith))))
      (overlap-All (Broadside max w) max ((w + 270) % 360) (omega arith, inr (omega arith))
        (λ h. (h, inr (omega arith))))

module _ ⦃out : Outside⦄ where
  nearest-All :
      (P : ℕ → Type 0) (az : Option Degrees) (cs : List ℕ) (best : ℕ)
      → P best
      → All P cs
      → P (nearest az best cs)
  unfolding nearest
  nearest-All P az [] best p a = p
  nearest-All P az (c ∷ cs) best p (q, a) =
      nearest-All P az cs (if is_better az c best then c else best)
        (if-both P (is_better az c best) q p) a

  -- There is always a candidate.
  overlap-nearest :
      (P : ℕ → Type 0) (az : Option Degrees) (max c : ℕ) (cs : List ℕ)
      → All P (with_overlap max c ++ cs)
      → P (nearest_of az (with_overlap max c ++ cs))
  unfolding nearest_of
  overlap-nearest P az max c cs = by (leb (c + 360) max)
    where
      by :
          (b : Bool)
          → All P ((if b then c ∷ (c + 360) ∷ [] else c ∷ []) ++ cs)
          → P (nearest_of az ((if b then c ∷ (c + 360) ∷ [] else c ∷ []) ++ cs))
      by true (p, a) = nearest-All P az ((c + 360) ∷ cs) c p a
      by false (p, a) = nearest-All P az cs c p a

  candidates-nearest :
      (az : Option Degrees) (max w : ℕ)
      → 360 ≤ max
      → Broadside max w (nearest_of az (candidates max w))
  unfolding candidates
  candidates-nearest az max w r =
      overlap-nearest (Broadside max w) az max ((w + 90) % 360) (with_overlap max ((w + 270) % 360))
        (candidates-All max w r)

  -- The heading chosen with a wind, or without one.
  abbrev pub Chosen : Inputs → Option Degrees → ℤ → Type 0
  Chosen i none z = z ≡ i.fallback_az
  Chosen i (some w) z =
      (out.finite w ≡ false × z ≡ i.fallback_az)
      ⊎ (out.finite w ≡ true
          × ((n : ℕ) × ((z ≡ pos n) × Broadside (reach i.max_az) (norm (out.round w)) n)))

  -- The storm park with a finite wind lies within the reach of the rotator (at least 360 degrees)
  -- and at right angles to the wind; without one, or with one that is not finite, it is the
  -- fallback azimuth.
  pub storm-Chosen : (i : Inputs) → Chosen i i.wind (storm i)
  unfolding storm
  storm-Chosen i = by i.wind
    where
      ends : Option Degrees → ℤ
      ends none = i.fallback_az
      ends (some w) =
          if out.finite w
          then pos (nearest_of i.az (candidates (reach i.max_az) (norm (out.round w))))
          else i.fallback_az

      by : (o : Option Degrees) → Chosen i o (ends o)
      by none = refl
      by (some w) =
          if-cases (Chosen i (some w)) (out.finite w)
            (λ h. inr (
              h,
              (
                _,
                (
                  refl,
                  candidates-nearest i.az (reach i.max_az) (norm (out.round w))
                      (reach-least i.max_az),
                ),
              ),
            ))
            (λ h. inl (h, refl))
