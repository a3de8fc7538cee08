-- ===== src/AntMode.antt =====
-- shared/antmode/antmode.go: the wire contract of the antenna-mode slot, as every consumer
-- of the lock reads it. A payload enters as what trimming and JSON decoding make of it.
pub mod Reading
mod Tests
use station_a.Base.{
  ℕ, String, Bool, true, false, not, ◌&&◌, Option, none, some, str_eq, leb, if◌then◌else◌, is_some,
  Result, ok, err, ℤ, pos, negsuc,
}

-- `type Mode string`: the three defined names, and any other text (also the empty zero value).
pub data Mode : Type 0 where
  normal storm maintenance : Mode
  other : String → Mode

unfoldable pub is_valid : Mode → Bool
is_valid (other t) = false
is_valid m = true

abbrev pub mode_text : Mode → String
mode_text normal = "normal"
mode_text storm = "storm"
mode_text maintenance = "maintenance"
mode_text (other t) = t

pub record Lock : Type 0 where
  pub seq : ℕ  -- uint64
  pub ground : Bool
  pub retract : Bool
  pub park_az : Option ℤ
  pub nudge : Bool

abbrev pub zero_lock : Lock
zero_lock = record { seq = 0; ground = false; retract = false; park_az = none; nudge = false }

pub record State : Type 0 where
  pub mode : Mode
  pub lock : Option Lock
  pub power_hold : Bool

abbrev pub normal_state : State
normal_state = record { mode = normal; lock = none; power_hold = false }

abbrev locked_mode : Mode → Bool
locked_mode normal = false
locked_mode (other t) = not (str_eq t "")
locked_mode m = true

unfoldable pub locked : State → Bool
locked s = locked_mode s.mode

abbrev or_zero : Option Lock → Lock
or_zero none = zero_lock
or_zero (some l) = l

-- `L`: the lock, never absent.
unfoldable pub lock_of : State → Lock
lock_of s = or_zero s.lock

unfoldable pub label : State → String
unfolding locked
label s = if locked s then mode_text s.mode else ""

-- A payload: nothing but white space, no JSON of the expected shape, or a decoded snapshot.
pub data Payload : Type 0 where
  blank undecodable : Payload
  snapshot : State → Payload

pub data Malformed : Type 0 where
  bad_json : Malformed
  bad_mode : Mode → Malformed
  bad_park_az : ℤ → Malformed

-- `s.Mode == Normal` drops the lock; a locked mode without one gets the zero lock.
normal_lock : Mode → Option Lock → Option Lock
normal_lock normal l = none
normal_lock m none = some zero_lock
normal_lock m (some l) = some l

abbrev pub in_travel : ℤ → Bool
in_travel (pos n) = leb n 450
in_travel (negsuc n) = false

check_park_az : Option Lock → State → Result Malformed State
check_park_az none s = ok s
check_park_az (some l) s = elim l.park_az [
  | none ↦ ok s
  | some az ↦ if in_travel az then ok s else err (bad_park_az az)
]

unfoldable pub parse : Payload → Result Malformed State
unfolding is_valid normal_lock check_park_az
parse blank = ok normal_state
parse undecodable = err bad_json
parse (snapshot s) =
    let lock = normal_lock s.mode s.lock in
    if is_valid s.mode then check_park_az lock (record s { lock = lock }) else err (bad_mode s.mode)
