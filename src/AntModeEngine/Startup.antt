-- ===== src/AntModeEngine/Startup.antt =====
-- antmode/internal/engine/engine.go: the engine made of its state file, and of its own
-- retained state.
use station_a.Base.{
  ℕ, ◌/◌, Bool, true, false, not, ◌&&◌, ◌||◌, Option, none, some, [], ltb, leb, is_some,
  if◌then◌else◌, ok, err,
}
use station_a.AntMode as AntMode
use station_a.AntMode.{Mode, Lock, is_valid, lock_of}
use station_a.AntModePolicy.Types as Policy
use station_a.AntModePolicy.Types.{
  Format, Changes, presence_of, is_normal, Source, by_automation, by_operator,
}
use station_a.AntModeEngine.Types.{
  Phase, idle, grounding, awaiting_power, is_known, Config, Borrow, Persisted, no_sibling, Engine,
}
use station_a.AntModeEngine.Parking.{is_maintenance}
use station_a.AntModeEngine.Borrowing.{mark_restore}

-- The parts of the own /state that `OwnState` reads beside the contract; a borrow without a power
-- to restore is none.
pub record Extra : Type 0 where
  pub seq : ℕ
  pub is_auto : Bool
  pub since : Option ℕ
  pub phase : Phase
  pub borrow : Option Borrow

abbrev or_time : Option ℕ → ℕ → ℕ
or_time none t = t
or_time (some s) t = s

abbrev greater : ℕ → ℕ → ℕ
greater a b = if ltb b a then a else b

-- `normalizeLoaded`
unfoldable pub normalized_mode : Engine → Engine
normalized_mode e =
    if is_valid e.pol.state.mode
    then e
    else record e { pol = record e.pol { state = record e.pol.state { mode = Mode.normal } } }

abbrev pub or_lock : Option Lock → ℕ → Lock
or_lock none n = record { seq = n; ground = false; retract = false; park_az = none; nudge = false }
or_lock (some l) n = l

abbrev pub is_idle : Phase → Bool
is_idle idle = true
is_idle p = false

unfoldable pub normalized : Engine → Engine
normalized e =
    if is_normal e.pol.state.mode
    then record e { lock = none; phase = idle; borrow = mark_restore e.borrow }
    else record e {
      lock = some (record (or_lock e.lock e.pol.state.seq) {
        ground = true;
        nudge = is_maintenance e.pol.state.mode;
      });
      phase = if not (is_known e.phase) || is_idle e.phase then grounding else e.phase;
      borrow_clock = if is_some e.borrow then e.now else e.borrow_clock;
    }

unfoldable pub normalize_loaded : Engine → Engine
normalize_loaded e = normalized (normalized_mode e)

unfoldable pub fresh_engine : Config → Policy.Policy → ℕ → Engine
fresh_engine cfg pol now = record {
  cfg = cfg;
  pol = pol;
  lock = none;
  phase = idle;
  fault = "";
  borrow = none;
  borrow_seq = 0;
  nudge_base = none;
  park_seen = false;
  phase_since = 0;
  borrow_clock = 0;
  drift = none;
  last_tx = none;
  was_manned = false;
  unmanned_since = none;
  seq_lost = false;
  seq_lost_at = 0;
  connected = false;
  first_connect = none;
  ready = false;
  adopt = false;
  file_seq = 0;
  pending_cmds = [];
  seq_status = false;
  seq_phase = "";
  rot = no_sibling;
  ant = no_sibling;
  sw = no_sibling;
  radio = no_sibling;
  pwr = no_sibling;
  warnings = [];
  warn_ok = false;
  wind = none;
  last_state = none;
  last_persisted = none;
  outputs = [];
  now = now;
}

-- The state of the policy without a file: the seq is the clock in seconds.
abbrev seeded : ℕ → Policy.State
seeded now = record {
  mode = Mode.other "";
  source = Policy.no_source;
  since = 0;
  seq = now / 1000000000;
  acked = [];
  dismissed = [];
  quiet_for = 0;
  reason = "";
}

-- `New`, by what the state file holds.
unfoldable pub new : Config → Policy.Config → Option Persisted → ℕ → Engine
new cfg pcfg none now = record (fresh_engine cfg (Policy.new pcfg (seeded now)) now) {
  adopt = true;
}
new cfg pcfg (some p) now =
    normalize_loaded (record (fresh_engine cfg (Policy.new pcfg p.policy) now) {
      file_seq = p.policy.seq;
      lock = p.lock;
      phase = p.phase;
      fault = p.fault;
      borrow = p.borrow;
      borrow_seq = p.borrow_seq;
      nudge_base = p.nudge_base;
    })

abbrev is_awaiting_power : Phase → Bool
is_awaiting_power awaiting_power = true
is_awaiting_power p = false

abbrev adopted_borrow : Option Borrow → Phase → Option Borrow
adopted_borrow none p = none
adopted_borrow (some b) p = some (record b { sent = not (is_awaiting_power p); restore = false })

-- The lock of the retained snapshot is taken over.
unfoldable pub adopted : AntMode.State → Extra → Engine → Engine
adopted st x e =
    let l = lock_of st in
    normalize_loaded (record e {
      pol = record e.pol {
        state = record e.pol.state {
          mode = st.mode;
          seq = greater l.seq e.pol.state.seq;
          source = if x.is_auto then by_automation else by_operator;
          since = or_time x.since e.pol.state.since;
          quiet_for = 0;
          reason =
              if e.adopt
              then "adopted from the retained /state (no state file)"
              else "adopted from the retained /state (state file stale)";
        };
      };
      lock = some l;
      phase = x.phase;
      fault = "";
      borrow = adopted_borrow x.borrow x.phase;
      borrow_seq = if is_some x.borrow then l.seq else e.borrow_seq;
    })

-- `OwnState` for a readable snapshot.
unfoldable pub own_snapshot : AntMode.State → Extra → Engine → Engine
own_snapshot st x e =
    let seen = record e {
      pol = record e.pol { state = record e.pol.state { seq = greater x.seq e.pol.state.seq } };
    } in
    if not (AntMode.locked st) || (not e.adopt && leb (lock_of st).seq e.file_seq)
    then seen
    else adopted st x seen

-- `OwnState`
unfoldable pub own_state : AntMode.Payload → Extra → Engine → Engine
own_state payload x e =
    if e.ready then e else elim (AntMode.parse payload) [ err m ↦ e | ok st ↦ own_snapshot st x e ]
