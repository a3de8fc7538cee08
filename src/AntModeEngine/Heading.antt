-- ===== src/AntModeEngine/Heading.antt =====
-- antmode/internal/heading/heading.go: the storm park azimuth.
use station_a.Base.{
  ℕ, ◌+◌, ◌-◌, ◌%◌, Bool, ◌&&◌, ◌||◌, Option, none, some, List, [], ◌∷◌, ◌++◌, ltb, leb, ◌==◌, ℤ,
  pos, negsuc, Degrees, if◌then◌else◌,
}
use station_a.AntModeEngine.Types.{Outside}

-- `Inputs`: the wind and the readback are `none` where their flag is false.
pub record Inputs : Type 0 where
  pub wind : Option Degrees
  pub az : Option Degrees
  pub max_az : ℤ
  pub fallback_az : ℤ

-- `Norm`; Go's remainder has the sign of the dividend.
unfoldable pub norm : ℤ → ℕ
norm (pos n) = n % 360
norm (negsuc n) = let m = (n + 1) % 360 in if m == 0 then 0 else 360 - m

-- `maxAz`, at least 360
abbrev pub reach : ℤ → ℕ
reach (pos n) = if ltb n 360 then 360 else n
reach (negsuc n) = 360

abbrev pub with_overlap : ℕ → ℕ → List ℕ
with_overlap max c = if leb (c + 360) max then c ∷ (c + 360) ∷ [] else c ∷ []

-- `cands`
unfoldable pub candidates : ℕ → ℕ → List ℕ
candidates max w = with_overlap max ((w + 90) % 360) ++ with_overlap max ((w + 270) % 360)

module _ ⦃out : Outside⦄ where
  abbrev pub is_better : Option Degrees → ℕ → ℕ → Bool
  is_better none c best = ltb c best
  is_better (some az) c best = out.closer c best az || (out.as_close c best az && ltb c best)

  -- The loop over the candidates.
  unfoldable pub nearest : Option Degrees → ℕ → List ℕ → ℕ
  nearest az best [] = best
  nearest az best (c ∷ cs) = nearest az (if is_better az c best then c else best) cs

  unfoldable pub nearest_of : Option Degrees → List ℕ → ℕ
  nearest_of az [] = 0
  nearest_of az (c ∷ cs) = nearest az c cs

  -- `Storm`
  unfoldable pub storm : Inputs → ℤ
  storm in_ = elim in_.wind [
    | none ↦ in_.fallback_az
    | some w ↦
        if out.finite w
        then pos (nearest_of in_.az (candidates (reach in_.max_az) (norm (out.round w))))
        else in_.fallback_az
  ]
