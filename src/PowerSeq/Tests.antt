-- ===== src/PowerSeq/Tests.antt =====
-- powerseq/internal/seq: the theorems at a small station.
mod Running
use station_a.Base.{
  ℕ, ◌+◌, String, true, false, none, some, List, [], ◌∷◌, ◌≡◌, ◌↔◌, ◌≢◌, ◌⊎◌, ◌<◌, inl, inr, refl,
  arith, ok, eq_iff, str_eq, if◌then◌else◌,
}
use station_a.PowerSeq.Types.{
  Phase, idle, starting, running, standby, Kind, cmd, delay, Float64, Runtime, text, object, Step,
  Config, ResolvedStep, ResolvedWatch, SavedState, Command, start, wake, idle_shutdown, World,
  Sequencer,
}
use station_a.PowerSeq.Observe.{Moment, done, failed, resume}
use station_a.PowerSeq.Deciding.{IsAwake, IsQuiet, HasWoken, IsExpired, idle_decision_iff}
use station_a.PowerSeq.Idle.{
  idle_decision, may_decide, standby_due, wake_due, shutdown_due, activity_time, last_activity,
}
use station_a.PowerSeq.Phases.{standby_enabled, is_empty}
use station_a.PowerSeq.Inputs.{state_text, field_of, coerce_to_string}

-- The runtime of the examples: one time is known by its text, floats are not parsed.
instance abbrev pub plain : Runtime
plain = record {
  parse_float = λ t. none;
  format_float = λ x. "";
  at_most_zero = λ d. false;
  differs_by = λ a c d. true;
  parse_time = λ t. if str_eq t "later" then some 5000 else none;
  parse_mac = λ t. none;
}

abbrev pub world : ℕ → World
world t = record {
  now = t;
  cancelled = false;
  publish_error = none;
  handed_over = false;
  wol_error = none;
  write_fails = false;
}

abbrev pub switch_on : Step
switch_on = record {
  name = "psu";
  kind = cmd;
  slot = "psu";
  action = "set_on";
  value = "true";
  retain = none;
  slots = [];
  state = "";
  field = "";
  hold_ms = none;
  timeout_s = none;
  duration_s = none;
  duration = "";
  mac = "";
  broadcast = "";
}

abbrev pub config : Config
config = record {
  site = "site";
  station = "home";
  slot = "power_sequencer";
  startup = switch_on ∷ [];
  shutdown = switch_on ∷ [];
  standby = switch_on ∷ [];
  wake = switch_on ∷ [];
  idle_shutdown = switch_on ∷ [];
  activity_slot = "home/radio";
  idle_timeout = 100;
  watches = [];
  shutdown_timeout = 1000;
  watch_settle = 10;
  ant_mode_slot = "";
  ant_mode_hold = 0;
  state_file = "state.json";
  persist_every = 10;
  network_delay = 0;
  step_timeout = 50;
  shutdown_stagger = 0;
  default_hold = 5;
}

abbrev pub switched : ResolvedStep
switched = record {
  name = "psu";
  kind = cmd;
  slot = "site/psu";
  action = "set_on";
  value = "true";
  retain = true;
  slots = [];
  state = "online";
  field = "";
  hold = 5;
  timeout = 50;
  duration = 0;
  mac = [];
  broadcast = "";
}

abbrev pub watched : ResolvedWatch
watched = record {
  slot = "site/rotator";
  field = "azimuth";
  min_delta = record { bits = 0 };
  anchor = "10";
}

-- A station with every list configured, connected, at a time and in a phase.
abbrev pub station : ℕ → Phase → String → Sequencer
station t p last = record {
  config = config;
  self = "site/home/power_sequencer";
  startup = switched ∷ [];
  shutdown = switched ∷ [];
  standby = switched ∷ [];
  wake = switched ∷ [];
  idle_shut = switched ∷ [];
  activity_slot = "site/home/radio";
  ant_mode_slot = "";
  watches = watched ∷ [];
  status = λ s. "online";
  state = λ s. some (object (("activity", text "inactive") ∷ ("last_activity", text last) ∷ []));
  online = true;
  phase = p;
  step = "";
  fault = "";
  stop_reason = "";
  running_since = 100;
  standby_since = 300;
  last_watch = 0;
  last_watch_why = "";
  settle_until = 0;
  power_hold = false;
  hold_ended_at = 0;
  ant_mode_seen = false;
  ant_mode_wait_until = 0;
  saved = none;
  saved_at = 0;
  persist_every = 10;
  queue = [];
  republish = false;
  world = world t;
  file = none;
  outbox = [];
}

idle_decision_iff_example :
    ((idle_decision 1000 (station 1000 running "") ≡ some Command.standby)
      ↔ (IsAwake 1000 (station 1000 running "") × IsQuiet 1000 (station 1000 running "")))
    × ((idle_decision 1000 (station 1000 running "") ≡ some wake)
        ↔ (IsAwake 1000 (station 1000 running "") × HasWoken (station 1000 running "")))
    × ((idle_decision 1000 (station 1000 running "") ≡ some idle_shutdown)
        ↔ (IsAwake 1000 (station 1000 running "") × IsExpired 1000 (station 1000 running "")))
idle_decision_iff_example = idle_decision_iff 1000 (station 1000 running "")
