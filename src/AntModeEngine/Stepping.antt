-- ===== src/AntModeEngine/Stepping.antt =====
-- antmode/internal/engine/engine.go: what a change of the mode does to the lock, and one step of
-- the lock.
use station_a.Base.{
  ℕ, ◌+◌, Bool, true, false, not, ◌&&◌, ◌||◌, Option, none, some, str_eq, ltb, leb, ◌==◌, is_some,
  if◌then◌else◌,
}
use station_a.AntMode.{Mode, Lock}
use station_a.AntModePolicy.Types.{Policy, Changes, is_normal}
use station_a.AntModePolicy.Acting.{evaluate}
use station_a.AntModeEngine.Types.{
  Phase, idle, grounding, retracting, awaiting_power, awaiting_devices, rotating, parked, failed,
  unknown, seconds, live, Engine, Outside,
}
use station_a.AntModeEngine.Parking.{
  set_phase, fail, park_of, is_storm, is_maintenance, note_park_target, compute_park, at_park,
  nudged, update_drift, finish_park, capture_nudge_base,
}
use station_a.AntModeEngine.Publishing.{transmitting, presence, track_presence, active_at}
use station_a.AntModeEngine.Borrowing.{
  pwr_on, send_power_on, start_borrow, attach_borrow, mark_restore, step_borrow,
}

-- `borrowTimedOut`
unfoldable pub borrow_timed_out : Engine → Bool
borrow_timed_out e = leb (e.borrow_clock + seconds e.cfg.devices_timeout_s) e.now

-- elapsed >= timeout
unfoldable pub has_elapsed : ℕ → Engine → Bool
has_elapsed timeout e = leb (e.phase_since + seconds timeout) e.now

abbrev pub is_recent : Option ℕ → ℕ → Engine → Bool
is_recent none quiet e = false
is_recent (some t) quiet e = ltb e.now (t + seconds quiet)

-- The radio transmits, or did a moment ago.
unfoldable pub is_busy : Engine → Bool
is_busy e = transmitting e || is_recent e.last_tx e.cfg.tx_quiet_s e

unfoldable pub is_grounded : Engine → Bool
is_grounded e = live e.sw && str_eq e.sw.selected "off"

abbrev pub is_seq : Option ℕ → ℕ → Bool
is_seq none n = false
is_seq (some m) n = m == n

-- The retract of this very lock is confirmed.
unfoldable pub is_retracted : Lock → Engine → Bool
is_retracted l e =
    live e.ant && (is_seq e.ant.retract_seq l.seq && (e.ant.retracted && not e.ant.moving))

-- The lock is dropped, and an open borrow is to be restored.
unfoldable pub unlock : Engine → Engine
unlock e =
    let left = set_phase idle (record e { lock = none; nudge_base = none }) in
    record left { borrow = mark_restore left.borrow }

unfoldable pub new_lock : Engine → Lock
new_lock e = record {
  seq = e.pol.state.seq;
  ground = true;
  retract = false;
  park_az = none;
  nudge = is_maintenance e.pol.state.mode;
}

unfoldable pub await_power : Engine → Engine
await_power e =
    if pwr_on e
    then set_phase awaiting_devices e
    else if borrow_timed_out e
    then set_phase grounding e
    else e

unfoldable pub await_devices : Engine → Engine
await_devices e =
    if (live e.rot && live e.ant) || borrow_timed_out e then set_phase grounding e else e

unfoldable pub ground : Lock → Engine → Engine
ground l e =
    if is_grounded e || (has_elapsed e.cfg.ground_timeout_s e && not (is_busy e))
    then set_phase retracting (record e { lock = some (record l { retract = true }) })
    else e

abbrev pub is_parked : Phase → Bool
is_parked parked = true
is_parked p = false

unfoldable pub note_tx : Engine → Engine
note_tx e = if transmitting e then record e { last_tx = some e.now } else e

module _ ⦃out : Outside⦄ where
  -- `restartPark`, for the lock `l`
  unfoldable pub restart_park : Lock → Engine → Engine
  restart_park l e =
      let cleared = record e {
        lock = some (record l { seq = e.pol.state.seq; park_az = none });
        drift = none;
        fault = "";
      } in
      attach_borrow (
        capture_nudge_base
          (record (set_phase (if l.retract then retracting else grounding) cleared) {
            phase_since = e.now;
          }))

  -- `modeChanged`; without a lock a switch between locked modes would not go on.
  unfoldable pub mode_changed : Mode → Engine → Engine
  mode_changed from e =
      let cleared = record e { drift = none; fault = "" } in
      if is_normal e.pol.state.mode
      then unlock cleared
      else if is_normal from
      then attach_borrow
          (capture_nudge_base (set_phase grounding (record cleared { lock = some (new_lock e) })))
      else elim e.lock [
        | none ↦ cleared
        | some l ↦ restart_park (record l { nudge = is_maintenance e.pol.state.mode }) cleared
      ]

  unfoldable pub retract : Lock → Engine → Engine
  retract l e =
      if is_retracted l e || has_elapsed e.cfg.retract_timeout_s e then compute_park l e else e

  -- In `rotating` the lock has an azimuth; the code reads it unchecked at the timeout, and would
  -- panic without.
  unfoldable pub rotate : Engine → Engine
  rotate e = elim (park_of e.lock) [
    | none ↦ e
    | some az ↦
        if at_park e || nudged e
        then finish_park e
        else if has_elapsed e.cfg.rotate_timeout_s e
        then fail (out.fault_text az e.cfg.rotate_timeout_s e.rot) e
        else e
  ]

  unfoldable pub recover : Engine → Engine
  recover e = if at_park e || nudged e then finish_park e else e

  -- `stepLock`, for the lock `l`
  unfoldable pub step_in : Phase → Lock → Engine → Engine
  step_in awaiting_power l e = elim e.borrow [
    | none ↦ set_phase grounding e
    | some b ↦ await_power (if b.sent then e else send_power_on e)
  ]
  step_in awaiting_devices l e = await_devices e
  step_in grounding l e = ground l e
  step_in retracting l e = retract l e
  step_in rotating l e = rotate (note_park_target false e)
  step_in parked l e = update_drift e
  step_in failed l e = recover e
  step_in idle l e = e
  step_in (unknown t) l e = e

  unfoldable pub step_lock : Engine → Engine
  step_lock e = elim e.lock [ none ↦ e | some l ↦ step_in e.phase l e ]

  -- The automatic entry.
  unfoldable pub entered : Engine → Policy × Changes → Engine
  entered e (p, c) = elim c.mode_changed [
    | none ↦ record e { pol = p }
    | some from ↦ mode_changed from (record e { pol = p })
  ]

  unfoldable pub auto_enter : Engine → Engine
  auto_enter e = entered e (evaluate e.now (active_at e.now e.warnings) (presence e) false e.pol)

  -- The late borrow of a storm.
  unfoldable pub late_borrow : Engine → Engine
  late_borrow e = elim e.lock [
    | none ↦ e
    | some l ↦
        if not (is_some e.borrow)
          && (is_storm e.pol.state.mode && (not (is_parked e.phase) && not (e.borrow_seq == l.seq)))
        then start_borrow e
        else e
  ]

  -- `step`
  unfoldable pub step : Engine → Engine
  step e = step_borrow (step_lock (late_borrow (auto_enter (track_presence (note_tx e)))))
