-- ===== src/RotatorLock/Acting.antt =====
-- wrc-rotator-bridge/internal/lock/gate.go: the operations of the gate. Each runs under the gate's
-- mutex as a whole, but for `Step`, whose device write others may overtake: it is two operations.
use station_a.Base.{
  Degrees, ℕ, ◌+◌, String, Bool, true, false, not, ◌&&◌, ◌||◌, Option, none, some, List, [], ◌∷◌, ℤ,
  str_eq, ltb, leb, ◌==◌, is_some, if◌then◌else◌, Result, ok, err,
}
use station_a.AntMode as AntMode
use station_a.AntMode.{maintenance, lock_of, label, normal_state}
use station_a.RotatorLock.Types.{
  Angles, stable_for, Park, Outcome, nudged, ParkRecord, Motion, rotate, jog, halt, World, Gate,
  Telemetry, Failure, locked, device, no_park, no_record, same_az, matches,
}

abbrev pub is_maintenance : AntMode.Mode → Bool
is_maintenance maintenance = true
is_maintenance m = false

-- One call of the inner device.
unfoldable pub tell : Motion → Gate → Result Failure (Unit {0}) × Gate
tell m g = (if g.world.device_fails then err device else ok tt, record g { told = m ∷ g.told })

-- `finishLocked`
unfoldable pub finish : Outcome → Gate → Gate
finish outcome g = record g {
  park = record g.park { done = true };
  finished = record { mode = g.st.mode; seq = g.park.seq; park_az = g.park.az; outcome = outcome };
  dirty = true;
}

-- `save`
unfoldable pub save : Gate → Gate
save g = record g {
  dirty = false;
  file =
      if g.dirty && (not (str_eq g.state_path "") && not g.world.write_fails)
      then some g.finished
      else g.file;
}

-- `StartHold`
unfoldable pub start_hold : Gate → Gate
start_hold g =
    if not g.seen && ltb 0 g.hold_for
    then record g { hold_until = some (g.world.now + g.hold_for) }
    else g

-- `PersistTo`, by what reading the file gives: no file, an unreadable one, or a record.
unfoldable pub persist_to : String → Option (Option ParkRecord) → Gate → Gate
persist_to path (some (some r)) g = record g { state_path = path; finished = r }
persist_to path content g = record g { state_path = path }

-- The new park of a lock with another seq or another azimuth.
unfoldable pub new_park : Gate → AntMode.State → Park
new_park g st =
    let l = lock_of st in
    let over = is_some l.park_az && matches g.finished st.mode l in
    record {
      seq = l.seq;
      az = l.park_az;
      sent = over;
      arrived = false;
      cancelled = false;
      done = over;
    }

unfoldable pub park_for : Gate → AntMode.State → Park
park_for g st =
    if not (AntMode.locked st)
    then no_park
    else if not ((lock_of st).seq == g.park.seq) || not (same_az (lock_of st).park_az g.park.az)
    then new_park g st
    else g.park

unfoldable pub applied : AntMode.State → Gate → Gate
unfolding park_for new_park
applied st g = record g { st = st; seen = true; park = park_for g st }

-- `Apply`; whether the label changed follows from the two states. A malformed payload is dropped.
unfoldable pub apply : AntMode.Payload → Gate → Gate
apply payload g = elim (AntMode.parse payload) [ ok st ↦ applied st g | err e ↦ g ]

-- The hold has not begun, or has not passed.
unfoldable pub held_back : Option ℕ → ℕ → Bool
held_back none now = true
held_back (some t) now = ltb now t

-- `refuse`
unfoldable pub refuses : Gate → Bool
refuses g =
    (not g.seen && (ltb 0 g.hold_for && held_back g.hold_until g.world.now)) || AntMode.locked g.st

module _ ⦃an : Angles⦄ where
  -- `SetNudgeMax`
  unfoldable pub set_nudge_max : Degrees → Gate → Gate
  set_nudge_max deg g = if an.at_most_zero deg then g else record g { nudge_max = deg }

  -- The park is at its azimuth.
  abbrev pub at_park : Degrees → Option ℤ → Bool
  at_park az none = false
  at_park az (some p) = an.near az (an.of_int p) an.arrive_tol

  -- The stable window of an online observation.
  unfoldable pub watched : Telemetry → Gate → Gate
  watched t g =
      let restarts =
        not g.online
        || (not (is_some g.stable_since) || an.beyond t.az g.stable_az an.stable_band) in
      record g {
        stable_since =
            if t.moving then none else if restarts then some g.world.now else g.stable_since;
        stable_az = if not t.moving && restarts then t.az else g.stable_az;
        online = true;
        moving = t.moving;
        az = t.az;
      }

  -- `Observe`
  unfoldable pub observe : Telemetry → Gate → Gate
  unfolding watched
  observe t g =
      if not t.device_online
      then record g {
        park = record g.park { sent = g.park.sent && not (g.online && not g.park.done) };
        online = false;
        stable_since = none;
      }
      else if g.park.sent && (not g.park.done && (not t.moving && at_park t.az g.park.az))
      then save (
          finish Outcome.arrived (record (watched t g) { park = record g.park { arrived = true } }))
      else watched t g

  abbrev pub stable : Option ℕ → ℕ → Bool
  stable none now = false
  stable (some t) now = leb (t + stable_for) now

  -- The preconditions of a park write.
  unfoldable pub ready : Gate → Bool
  ready g =
      AntMode.locked g.st
      && (is_some g.park.az
          && (not g.park.sent
              && (not g.park.done && (g.online && stable g.stable_since g.world.now))))

  -- `Step` up to the device write.
  unfoldable pub step_start : Gate → Gate
  step_start g =
      if not (ready g)
      then g
      else if at_park g.az g.park.az
      then save (
          finish Outcome.arrived
            (record g { park = record g.park { sent = true; arrived = true } }))
      else record g { park = record g.park { sent = true }; writing = some g.park }

  abbrev pub target : Option ℤ → List Motion → List Motion
  target none told = told
  target (some p) told = rotate (an.of_int p) ∷ told

  -- `Step` from the device write on; the write reaches the device at the latest now.
  unfoldable pub step_finish : Park → Gate → Gate
  step_finish p g =
      let written = record g { told = target p.az g.told; writing = none } in
      let same = g.park.seq == p.seq in
      if g.world.device_fails
      then record written { park = record g.park { sent = g.park.sent && not same } }
      else if same && g.park.cancelled
      then (tell halt written).1
      else written

  -- `SetAz`
  unfoldable pub set_az : Degrees → Gate → Result Failure (Unit {0}) × Gate
  set_az az g = if refuses g then (err locked, g) else tell (rotate az) g

  -- `Jog`
  unfoldable pub jog_dir : String → Gate → Result Failure (Unit {0}) × Gate
  jog_dir dir g = if refuses g then (err locked, g) else tell (jog dir) g

  unfoldable pub is_nudge : String → Gate → Bool
  is_nudge override g =
      is_maintenance g.st.mode && ((lock_of g.st).nudge && str_eq override "maintenance")

  unfoldable pub nudge_refused : Degrees → Gate → Bool
  nudge_refused az g =
      not g.online || (an.outside az an.min_az an.max_az || an.beyond az g.az g.nudge_max)

  -- An accepted nudge ends the park of its seq.
  unfoldable pub take_over : Gate → Gate
  take_over g =
      if g.park.done
      then g
      else save (finish nudged (record g { park = record g.park { sent = true } }))

  -- `SetAzOverride`
  unfoldable pub set_az_override : Degrees → String → Gate → Result Failure (Unit {0}) × Gate
  set_az_override az override g =
      if not (is_nudge override g)
      then set_az az g
      else if nudge_refused az g
      then (err locked, g)
      else tell (rotate az) (take_over g)

  unfoldable pub stopped : Gate → Gate
  stopped g =
      if AntMode.locked g.st && (g.park.sent && not g.park.done)
      then finish Outcome.cancelled (record g { park = record g.park { cancelled = true } })
      else g

  -- `Stop`: the record of a cancelled park is saved after the device was told.
  unfoldable pub stop : Gate → Result Failure (Unit {0}) × Gate
  stop g =
      let r = tell halt (stopped g) in
      (r.0, if AntMode.locked g.st && (g.park.sent && not g.park.done) then save r.1 else r.1)

-- `New`
unfoldable pub new : ⦃an : Angles⦄ → ℕ → World → Gate
new ⦃an⦄ hold world = record {
  st = normal_state;
  nudge_max = an.default_nudge_max;
  seen = false;
  hold_for = hold;
  hold_until = none;
  online = false;
  moving = false;
  az = record { bits = 0 };
  stable_since = none;
  stable_az = record { bits = 0 };
  park = no_park;
  state_path = "";
  finished = no_record;
  dirty = false;
  writing = none;
  file = none;
  told = [];
  world = world;
}
