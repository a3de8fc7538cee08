-- ===== src/AntModeEngine/Types.antt =====
-- antmode/internal/engine/engine.go: the state of the engine. Times and durations are
-- nanoseconds; the zero time is `none` where the code tests for it, else 0.
use station_a.Base.{
  ℕ, ◌*◌, String, Bool, true, false, ◌&&◌, Option, none, List, ℤ, str_eq, ◌==◌, Degrees,
}
use station_a.AntMode.{Mode, Lock}
use station_a.AntModePolicy.Types as Policy

-- `Phase`; a state file or a snapshot may hold another text.
pub data Phase : Type 0 where
  idle grounding retracting awaiting_power awaiting_devices rotating parked failed : Phase
  unknown : String → Phase

abbrev pub phase_text : Phase → String
phase_text idle = "idle"
phase_text grounding = "grounding"
phase_text retracting = "retracting"
phase_text awaiting_power = "awaiting_power"
phase_text awaiting_devices = "awaiting_devices"
phase_text rotating = "rotating"
phase_text parked = "parked"
phase_text failed = "failed"
phase_text (unknown t) = t

abbrev pub phase_code : Phase → ℕ
phase_code idle = 0
phase_code grounding = 1
phase_code retracting = 2
phase_code awaiting_power = 3
phase_code awaiting_devices = 4
phase_code rotating = 5
phase_code parked = 6
phase_code failed = 7
phase_code (unknown t) = 8

abbrev pub same_phase : Phase → Phase → Bool
same_phase p q = phase_code p == phase_code q && str_eq (phase_text p) (phase_text q)

-- `valid`
abbrev pub is_known : Phase → Bool
is_known (unknown t) = false
is_known p = true

abbrev pub seconds : ℕ → ℕ
seconds n = n * 1000000000

-- `StartupHold`, `presenceDwell`, `lostIdleHold`
abbrev pub startup_hold : ℕ
startup_hold = 3000000000

abbrev pub presence_dwell : ℕ
presence_dwell = 60000000000

abbrev pub lost_idle_hold : ℕ
lost_idle_hold = 1800000000000

-- `cmdMaxAge`, `cmdMaxFuture`
abbrev pub cmd_max_age : ℕ
cmd_max_age = 30000000000

abbrev pub cmd_max_future : ℕ
cmd_max_future = 5000000000

-- config.Config: what the engine reads of it, timeouts in seconds.
pub record Config : Type 0 where
  pub borrow : Bool
  pub devices_timeout_s : ℕ
  pub ground_timeout_s : ℕ
  pub tx_quiet_s : ℕ
  pub retract_timeout_s : ℕ
  pub rotate_timeout_s : ℕ
  pub tolerance_deg : ℤ
  pub drift_warn_deg : ℤ
  pub max_az : ℤ
  pub fallback_az : ℤ
  pub maintenance_az : ℤ
  pub wind_stale : ℕ

-- `Borrow`
pub record Borrow : Type 0 where
  pub restore_to : String
  pub power_seq_phase : String
  pub since : ℕ
  pub sent : Bool
  pub restore : Bool
  pub taken_over : Bool

-- `Persisted`, but for its version number.
pub record Persisted : Type 0 where
  pub policy : Policy.State
  pub lock : Option Lock
  pub phase : Phase
  pub fault : String
  pub borrow : Option Borrow
  pub borrow_seq : ℕ
  pub nudge_base : Option Degrees

-- `sibling`: `az` and `target` are `none` while unknown.
pub record Sibling : Type 0 where
  pub status : Bool
  pub device : Bool
  pub az : Option Degrees
  pub moving : Bool
  pub target : Option Degrees
  pub retracted : Bool
  pub retract_seq : Option ℕ
  pub selected : String
  pub tx : Bool
  pub power : String

-- `live`
unfoldable pub live : Sibling → Bool
live s = s.status && s.device

-- nina.Warning, with what the policy reads of it.
pub record Notice : Type 0 where
  pub warning : Policy.Warning
  pub onset : ℕ
  pub expires : Option ℕ

-- dwd.Wind: the direction and the gust (a float64), and when it was read.
pub record Wind : Type 0 where
  pub dir_deg : Degrees
  pub gust_kmh : ℕ
  pub at : ℕ

-- `State`: the snapshot published.
pub record Snapshot : Type 0 where
  pub mode : Mode
  pub source : Policy.Source
  pub since : ℕ
  pub seq : ℕ
  pub lock : Option Lock
  pub phase : Phase
  pub fault : String
  pub power_hold : Bool
  pub borrow : Option Borrow
  pub presence : Policy.Presence
  pub wind : Option Wind
  pub wind_stale : Bool
  pub warnings : List Notice
  pub warnings_ok : Bool
  pub storm_suggested : Bool
  pub reason : String
  pub auto_exit_at : Option ℕ
  pub drift_deg : Option ℤ

-- The own /cmd, as decoding leaves it: the `ts` is absent, malformed or a time, and the mode is
-- the value trimmed and in
-- lower case, if it was a text.
pub data Stamp : Type 0 where
  no_ts bad_ts : Stamp
  at_time : ℕ → Stamp

pub data Action : Type 0 where
  set_ant_mode : Option Mode → Action
  repark dismiss_suggestion unknown_action : Action

pub data Command : Type 0 where
  empty undecodable : Command
  command : Stamp → Action → Command

-- What the engine sends and writes.
pub data Output : Type 0 where
  cmd_cleared : Output
  power_set : String → Output
  state_published : Snapshot → Output
  meta_published : Output
  file_saved : Persisted → Output

-- `Engine`. `outputs` is all that was attempted, the newest first, with whether it succeeded;
-- `now` is the
-- clock while one operation runs. Flags that only log are left out.
pub record Engine : Type 0 where
  pub cfg : Config
  pub pol : Policy.Policy
  pub lock : Option Lock
  pub phase : Phase
  pub fault : String
  pub borrow : Option Borrow
  pub borrow_seq : ℕ
  pub nudge_base : Option Degrees
  pub park_seen : Bool
  pub phase_since : ℕ
  pub borrow_clock : ℕ
  pub drift : Option ℤ
  pub last_tx : Option ℕ
  pub was_manned : Bool
  pub unmanned_since : Option ℕ
  pub seq_lost : Bool
  pub seq_lost_at : ℕ
  pub connected : Bool
  pub first_connect : Option ℕ
  pub ready : Bool
  pub adopt : Bool
  pub file_seq : ℕ
  pub pending_cmds : List Command
  pub seq_status : Bool
  pub seq_phase : String
  pub rot : Sibling
  pub ant : Sibling
  pub sw : Sibling
  pub radio : Sibling
  pub pwr : Sibling
  pub warnings : List Notice
  pub warn_ok : Bool
  pub wind : Option Wind
  pub last_state : Option String
  pub last_persisted : Option String
  pub outputs : List (Output × Bool)
  pub now : ℕ

-- The outside: whether the publication or the write after `n` others succeeds, what json.Marshal
-- prints, and the
-- arithmetic on azimuths.
pub record Outside : Type 0 where
  pub succeeds : ℕ → Bool
  pub state_text : Snapshot → String
  pub file_text : Persisted → String
  pub fault_text : ℤ → ℕ → Sibling → String  -- park_az, the timeout, the rotator
  pub of_int : ℤ → Degrees
  pub within : Degrees → Degrees → ℤ → Bool  -- |a - b| <= float64(n)
  pub offset : Degrees → ℤ → ℤ  -- int(math.Round(a - float64(n)))
  pub round : Degrees → ℤ
  pub finite : Degrees → Bool
  pub closer : ℕ → ℕ → Degrees → Bool  -- |c - az| < |b - az|
  pub as_close : ℕ → ℕ → Degrees → Bool  -- |c - az| == |b - az|

abbrev pub no_sibling : Sibling
no_sibling = record {
  status = false;
  device = false;
  az = none;
  moving = false;
  target = none;
  retracted = false;
  retract_seq = none;
  selected = "";
  tx = false;
  power = "";
}
