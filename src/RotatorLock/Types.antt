-- ===== src/RotatorLock/Types.antt =====
-- wrc-rotator-bridge/internal/lock/gate.go: the gate and its park bookkeeping. Times are
-- nanoseconds; the zero time is `none`.
use station_a.Base.{
  Degrees, ℕ, String, Bool, true, false, Option, none, some, List, ℤ, eqb_ℤ, ◌==◌, ◌||◌, not,
  str_eq, is_some, if◌then◌else◌,
}
use station_a.AntMode as AntMode
use station_a.AntMode.{mode_text}

-- The float arithmetic of the gate.
pub record Angles : Type 0 where
  pub of_int : ℤ → Degrees  -- float64(n)
  pub near : Degrees → Degrees → Degrees → Bool  -- |a - b| <= d
  pub beyond : Degrees → Degrees → Degrees → Bool  -- |a - b| > d
  pub outside : Degrees → Degrees → Degrees → Bool  -- IsNaN(a) || a < lo || a > hi
  pub at_most_zero : Degrees → Bool
  pub stable_band : Degrees  -- 1
  pub min_az : Degrees  -- 0
  pub max_az : Degrees  -- 450
  pub arrive_tol : Degrees  -- 3
  pub default_nudge_max : Degrees  -- 10

-- `StableFor`: three seconds.
abbrev pub stable_for : ℕ
stable_for = 3000000000

-- `park`
pub record Park : Type 0 where
  pub seq : ℕ
  pub az : Option ℤ
  pub sent : Bool
  pub arrived : Bool
  pub cancelled : Bool
  pub done : Bool

-- How a park ended; a state file may hold another text.
pub data Outcome : Type 0 where
  arrived cancelled nudged : Outcome
  other_outcome : String → Outcome

-- `parkRecord`
pub record ParkRecord : Type 0 where
  pub mode : AntMode.Mode
  pub seq : ℕ
  pub park_az : Option ℤ
  pub outcome : Outcome

-- What the device is told.
pub data Motion : Type 0 where
  rotate : Degrees → Motion
  jog : String → Motion
  halt : Motion

-- The outside: the clock, and whether the device and the state file answer with an error.
pub record World : Type 0 where
  pub now : ℕ
  pub device_fails : Bool
  pub write_fails : Bool

-- `Gate`. `writing` is the park whose write `Step` has in flight, `file` the state file on
-- disk, and `told` all that the device was told, the newest first.
pub record Gate : Type 0 where
  pub st : AntMode.State
  pub nudge_max : Degrees
  pub seen : Bool
  pub hold_for : ℕ
  pub hold_until : Option ℕ
  pub online : Bool
  pub moving : Bool
  pub az : Degrees
  pub stable_since : Option ℕ
  pub stable_az : Degrees
  pub park : Park
  pub state_path : String
  pub finished : ParkRecord
  pub dirty : Bool
  pub writing : Option Park
  pub file : Option ParkRecord
  pub told : List Motion
  pub world : World

-- rotor.State: what an observation reads of it.
pub record Telemetry : Type 0 where
  pub device_online : Bool
  pub moving : Bool
  pub az : Degrees

-- Why a command fails: rotor.ErrLocked, or the error of the device.
pub data Failure : Type 0 where
  locked device : Failure

abbrev pub no_park : Park
no_park = record {
  seq = 0;
  az = none;
  sent = false;
  arrived = false;
  cancelled = false;
  done = false;
}

abbrev pub no_record : ParkRecord
no_record = record {
  mode = AntMode.Mode.other "";
  seq = 0;
  park_az = none;
  outcome = other_outcome "";
}

-- `sameAz`
unfoldable pub same_az : Option ℤ → Option ℤ → Bool
same_az none none = true
same_az (some a) (some b) = eqb_ℤ a b
same_az a b = false

abbrev pub same_mode : AntMode.Mode → AntMode.Mode → Bool
same_mode a b = str_eq (mode_text a) (mode_text b)

abbrev pub is_nudged : Outcome → Bool
is_nudged nudged = true
is_nudged o = false

abbrev both_at : Option ℤ → Option ℤ → Bool
both_at (some a) (some b) = eqb_ℤ a b
both_at a b = false

-- `matches`
unfoldable pub matches : ParkRecord → AntMode.Mode → AntMode.Lock → Bool
matches r m l =
    if not (r.seq == l.seq) || (not (same_mode r.mode m) || not (is_some l.park_az))
    then false
    else is_nudged r.outcome || both_at r.park_az l.park_az
