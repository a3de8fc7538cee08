-- ===== src/AntModeEngine/Inputs.antt =====
-- antmode/internal/engine/engine.go: what reaches the engine, each on the one worker.
use station_a.Base.{
  ℕ, ◌+◌, String, Bool, true, false, not, ◌&&◌, ◌||◌, Option, none, some, List, [], ◌∷◌, ◌++◌,
  length, str_eq, ltb, leb, is_some, Degrees, if◌then◌else◌, ok, err,
}
use station_a.AntMode.{Mode}
use station_a.AntModePolicy.Types.{Format, presence_of}
use station_a.AntModePolicy.Acting as Acting
use station_a.AntModeEngine.Types.{
  startup_hold, cmd_max_age, cmd_max_future, Notice, Wind, Stamp, no_ts, bad_ts, at_time, Action,
  set_ant_mode, dismiss_suggestion, unknown_action, Command, command, cmd_cleared, Engine, Outside,
}
use station_a.AntModeEngine.Parking.{note_park_target}
use station_a.AntModeEngine.Publishing.{is_manned, active_at, attempt, persist, publish_state}
use station_a.AntModeEngine.Stepping.{restart_park, entered, note_tx, step}

-- A slot's /state, decoded: `device_online`, if it is absent, is true.
pub record RotatorDoc : Type 0 where
  pub az : Option Degrees
  pub target_az : Option Degrees
  pub moving : Bool
  pub device_online : Bool

pub record AntCtrlDoc : Type 0 where
  pub retracted : Bool
  pub retract_seq : Option ℕ
  pub moving : Bool
  pub device_online : Bool

-- power-seq's /state: nothing, garbage or a phase.
pub data SeqDoc : Type 0 where
  blank bad : SeqDoc
  phase : String → SeqDoc

abbrev pub or_az : Option Degrees → Option Degrees → Option Degrees
or_az none old = old
or_az (some a) old = some a

-- The phase of powerseq, and whether it was lost.
unfoldable pub note_seq_phase : String → Engine → Engine
note_seq_phase p e =
    let lost = str_eq p "idle" && is_manned (presence_of true e.seq_phase) in
    record e {
      seq_phase = p;
      seq_lost = if lost then true else str_eq p "idle" && e.seq_lost;
      seq_lost_at = if lost then e.now else e.seq_lost_at;
    }

-- `SetConnected`
unfoldable pub set_connected : Bool → Engine → Engine
set_connected on e = record e {
  connected = on;
  first_connect = if on && not (is_some e.first_connect) then some e.now else e.first_connect;
}

-- A command is too old, from too far in the future, or has a malformed time.
unfoldable pub is_dropped : Stamp → ℕ → Bool
is_dropped no_ts now = false
is_dropped bad_ts now = true
is_dropped (at_time t) now = ltb (t + cmd_max_age) now || ltb (now + cmd_max_future) t

module _ ⦃out : Outside⦄ ⦃f : Format⦄ where
  -- What every input ends with.
  unfoldable pub advanced : Bool → Engine → Engine
  advanced force e = publish_state force (persist (step e))

  -- `inputChanged`
  unfoldable pub input_changed : Engine → Engine
  input_changed e = if e.ready then advanced false e else e

  unfoldable pub set_mode_cmd : Mode → Engine → Engine
  set_mode_cmd m e = elim (Acting.set_mode m e.now (active_at e.now e.warnings) e.pol) [
    | err m' ↦ e
    | ok r ↦ entered e r
  ]

  unfoldable pub repark_cmd : Engine → Engine
  repark_cmd e =
      let (p, c) = Acting.repark e.pol in
      elim e.lock [
        | none ↦ record e { pol = p }
        | some l ↦ if c.reparked then restart_park l (record e { pol = p }) else e
      ]

  unfoldable pub act : Action → Engine → Engine
  act (set_ant_mode none) e = e
  act (set_ant_mode (some m)) e = set_mode_cmd m e
  act Action.repark e = repark_cmd e
  act dismiss_suggestion e = record e {
    pol = (Acting.dismiss (active_at e.now e.warnings) e.pol).0;
  }
  act unknown_action e = e

  -- `applyCmd`
  unfoldable pub apply_cmd : Command → Engine → Engine
  apply_cmd (command stamp action) e = if is_dropped stamp e.now then e else act action e
  apply_cmd c e = e

  unfoldable pub apply_all : List Command → Engine → Engine
  apply_all [] e = e
  apply_all (c ∷ cs) e = apply_all cs (apply_cmd c e)

  -- `Cmd`
  unfoldable pub cmd : Command → Engine → Engine
  cmd Command.empty e = e
  cmd c e =
      let cleared = attempt cmd_cleared e in
      if e.ready
      then advanced false (apply_cmd c cleared)
      else if ltb (length e.pending_cmds) 8
      then record cleared { pending_cmds = e.pending_cmds ++ c ∷ [] }
      else cleared

  -- `becomeReady`
  unfoldable pub become_ready : Engine → Engine
  become_ready e = advanced true (
      apply_all e.pending_cmds (record e {
        ready = true;
        adopt = false;
        phase_since = e.now;
        borrow_clock = if is_some e.borrow then e.now else e.borrow_clock;
        pending_cmds = [];
      }))

  abbrev pub hold_over : Option ℕ → ℕ → Bool
  hold_over none now = false
  hold_over (some t) now = leb (t + startup_hold) now

  -- `Tick`
  unfoldable pub tick : Engine → Engine
  tick e =
      if e.ready
      then advanced false e
      else if e.connected && hold_over e.first_connect e.now
      then become_ready e
      else e

  -- `NinaResult`; `none` is a poll that failed.
  unfoldable pub nina_ready : Option (List Notice) → Engine → Engine
  nina_ready none e = record e { warn_ok = false; pol = (Acting.poll e.now false [] e.pol).0 }
  nina_ready (some ws) e =
      entered (record e { warnings = ws; warn_ok = true })
        (Acting.poll e.now true (active_at e.now ws) e.pol)

  abbrev or_notices : Option (List Notice) → List Notice → List Notice
  or_notices none old = old
  or_notices (some ws) old = ws

  unfoldable pub nina_result : Option (List Notice) → Engine → Engine
  nina_result r e =
      if e.ready
      then advanced false (nina_ready r e)
      else record e { warnings = or_notices r e.warnings; warn_ok = is_some r }

  abbrev pub or_wind : Option Wind → Engine → Option Wind
  or_wind none e = e.wind
  or_wind (some w) e = some (record w { at = e.now })

  -- `WindResult`; `none` is a poll that failed.
  unfoldable pub wind_result : Option Wind → Engine → Engine
  wind_result r e = input_changed (record e { wind = or_wind r e })

  unfoldable pub power_seq_status : Bool → Engine → Engine
  power_seq_status on e = input_changed (record e { seq_status = on })

  -- `PowerSeqState`
  unfoldable pub power_seq_state : SeqDoc → Engine → Engine
  power_seq_state blank e = input_changed (record e { seq_phase = "" })
  power_seq_state bad e = e
  power_seq_state (phase p) e = input_changed (note_seq_phase p e)

  unfoldable pub rotator_status : Bool → Engine → Engine
  rotator_status on e =
      input_changed (note_park_target false (record e { rot = record e.rot { status = on } }))

  -- `RotatorState` of a document that decodes; any other leaves the engine as it is.
  unfoldable pub rotator_state : RotatorDoc → Engine → Engine
  rotator_state d e = input_changed (
      note_park_target true (record e {
        rot = record e.rot {
          az = or_az d.az e.rot.az;
          target = d.target_az;
          moving = d.moving;
          device = d.device_online;
        };
      }))

  unfoldable pub ant_ctrl_status : Bool → Engine → Engine
  ant_ctrl_status on e = input_changed (record e { ant = record e.ant { status = on } })

  unfoldable pub ant_ctrl_state : AntCtrlDoc → Engine → Engine
  ant_ctrl_state d e = input_changed (record e {
    ant = record e.ant {
      retracted = d.retracted;
      retract_seq = d.retract_seq;
      moving = d.moving;
      device = d.device_online;
    };
  })

  unfoldable pub ant_switch_status : Bool → Engine → Engine
  ant_switch_status on e = input_changed (record e { sw = record e.sw { status = on } })

  unfoldable pub ant_switch_state : String → Bool → Engine → Engine
  ant_switch_state selected on e =
      input_changed (record e { sw = record e.sw { selected = selected; device = on } })

  unfoldable pub radio_status : Bool → Engine → Engine
  radio_status on e = input_changed (record e { radio = record e.radio { status = on } })

  -- `RadioState`: the end of a transmission counts too.
  unfoldable pub radio_state : Bool → Bool → Engine → Engine
  radio_state tx on e =
      let was = note_tx e in
      input_changed (note_tx (record was { radio = record e.radio { tx = tx; device = on } }))

  unfoldable pub power_status : Bool → Engine → Engine
  power_status on e = input_changed (record e { pwr = record e.pwr { status = on } })

  unfoldable pub power_state : String → Bool → Engine → Engine
  power_state power on e =
      input_changed (record e { pwr = record e.pwr { power = power; device = on } })
