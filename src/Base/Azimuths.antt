-- ===== src/Base/Azimuths.antt =====
-- Azimuths as the daemons hold them.
use Prim.Native.Nat.{ℕ}

-- A float64 number of degrees, by its bits.
pub record Degrees : Type 0 where
  pub bits : ℕ
