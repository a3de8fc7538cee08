-- ===== src/PowerSeq/Types.antt =====
-- powerseq/internal/seq/seq.go, persist.go: the data of the sequencer.
-- A time is the number of nanoseconds since the zero time, a duration a number of nanoseconds
-- (the configuration refuses negative ones); `now - t < d` is written `now < t + d`.
use station_a.Base.{ℕ, String, Bool, List, Option}

pub data Phase : Type 0 where
  idle starting running stopping entering_standby standby waking : Phase

-- The step kinds; a kind that is none of the five fails when it is executed.
pub data Kind : Type 0 where
  cmd wait_status wait_state delay wol : Kind
  other_kind : String → Kind

-- A float64 is known by its bits; what is computed with it stands in `Runtime`.
pub record Float64 : Type 0 where
  pub bits : ℕ

-- The parts of Go's standard library that work on texts and floats.
pub record Runtime : Type 0 where
  pub parse_float : String → Option Float64
  pub format_float : Float64 → String
  pub at_most_zero : Float64 → Bool  -- d <= 0
  pub differs_by : Float64 → Float64 → Float64 → Bool  -- math.Abs(c-a) >= d
  pub parse_time : String → Option ℕ  -- time.Parse(time.RFC3339Nano, …)
  pub parse_mac : String → Option (List ℕ)  -- net.ParseMAC

-- A JSON value as decoded into `any`; a list or an object is kept as its JSON text.
pub data Value : Type 0 where
  null : Value
  bool : Bool → Value
  text : String → Value
  number : Float64 → Value
  json_number composite : String → Value

-- A decoded /state document; the JSON text `null` decodes into the nil map.
pub data Doc : Type 0 where
  nil_map : Doc
  object : List (String × Value) → Doc

pub record Step : Type 0 where
  pub name : String
  pub kind : Kind
  pub slot : String
  pub action : String
  pub value : String
  pub retain : Option Bool
  pub slots : List String
  pub state : String
  pub field : String
  pub hold_ms : Option ℕ
  pub timeout_s : Option ℕ
  pub duration_s : Option ℕ
  pub duration : String
  pub mac : String
  pub broadcast : String

pub record Watch : Type 0 where
  pub slot : String
  pub field : String
  pub min_delta : Float64

pub record Config : Type 0 where
  pub site : String
  pub station : String
  pub slot : String
  pub startup : List Step
  pub shutdown : List Step
  pub standby : List Step
  pub wake : List Step
  pub idle_shutdown : List Step
  pub activity_slot : String
  pub idle_timeout : ℕ
  pub watches : List Watch
  pub shutdown_timeout : ℕ
  pub watch_settle : ℕ
  pub ant_mode_slot : String
  pub ant_mode_hold : ℕ
  pub state_file : String
  pub persist_every : ℕ
  pub network_delay : ℕ
  pub step_timeout : ℕ
  pub shutdown_stagger : ℕ
  pub default_hold : ℕ

pub record ResolvedStep : Type 0 where
  pub name : String
  pub kind : Kind
  pub slot : String
  pub action : String
  pub value : String
  pub retain : Bool
  pub slots : List String
  pub state : String
  pub field : String
  pub hold : ℕ
  pub timeout : ℕ
  pub duration : ℕ
  pub mac : List ℕ
  pub broadcast : String

pub record ResolvedWatch : Type 0 where
  pub slot : String
  pub field : String
  pub min_delta : Float64
  pub anchor : String

-- The state file; a phase that is none of the seven names is kept as `none`.
pub record SavedState : Type 0 where
  pub version : ℕ
  pub phase : Option Phase
  pub step : String
  pub fault : String
  pub stop_reason : String
  pub running_since : ℕ
  pub standby_since : ℕ
  pub last_watch : ℕ
  pub hold_ended_at : ℕ
  pub saved_at : ℕ

-- The commands of the runner: an operator's two, and those that the idle logic decides.
pub data Command : Type 0 where
  start stop standby wake idle_shutdown : Command

-- What the sequencer sends: a /cmd, its own retained /state, a magic packet.
pub data Message : Type 0 where
  sent_cmd : (topic : String) (retained : Bool) (action value : String) → Message
  sent_state : Phase → (step fault stop_reason : String) → Message
  sent_wol : (mac : List ℕ) (broadcast : String) → Message

-- The outside at one moment: the clock, the context, and what publishing, waking and writing
-- the state file would answer (`none` is success).
pub record World : Type 0 where
  pub now : ℕ
  pub cancelled : Bool
  pub publish_error : Option String
  pub handed_over : Bool  -- a publish that reports an error timed out, and its packet arrives all the same
  pub wol_error : Option String
  pub write_fails : Bool

pub record Sequencer : Type 0 where
  pub config : Config
  pub self : String
  pub startup : List ResolvedStep
  pub shutdown : List ResolvedStep
  pub standby : List ResolvedStep
  pub wake : List ResolvedStep
  pub idle_shut : List ResolvedStep
  pub activity_slot : String
  pub ant_mode_slot : String
  pub watches : List ResolvedWatch
  pub status : String → String
  pub state : String → Option Doc
  pub online : Bool
  pub phase : Phase
  pub step : String
  pub fault : String
  pub stop_reason : String
  pub running_since : ℕ
  pub standby_since : ℕ
  pub last_watch : ℕ
  pub last_watch_why : String
  pub settle_until : ℕ
  pub power_hold : Bool
  pub hold_ended_at : ℕ
  pub ant_mode_seen : Bool
  pub ant_mode_wait_until : ℕ
  pub saved : Option SavedState
  pub saved_at : ℕ
  pub persist_every : ℕ
  pub queue : List Command  -- cmdCh, of capacity 4
  pub republish : Bool  -- republishCh, of capacity 1
  pub world : World
  pub file : Option SavedState  -- the state file on disk
  pub outbox : List Message  -- everything sent, the newest first
