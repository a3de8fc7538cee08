-- ===== src/RotatorLock/Tests.antt =====
-- wrc-rotator-bridge/internal/lock/gate.go: the theorems on one gate, with whole degrees for
-- the floats.
use station_a.Base.{
  Degrees, ℕ, ◌+◌, Bool, true, false, not, ◌&&◌, ◌||◌, some, none, ◌∷◌, ℤ, ltb, leb, ◌≡◌, ◌⊎◌, refl,
  err,
}
use station_a.AntMode as AntMode
use station_a.RotatorLock.Types.{Angles, Park, Outcome, Motion, rotate, halt, World, Gate, locked}
use station_a.RotatorLock.Acting.{
  finish, save, step_start, set_az, jog_dir, set_az_override, stop, applied, persist_to, tell, new,
}
use station_a.RotatorLock.Refusing.{Held, Nudges, motion-Held}
use station_a.RotatorLock.Parking.{
  Ended, reload, over_park, stays, first, starts, overrides, park_once, stop-step_finish,
  finish-persist_to,
}

abbrev degrees : ℕ → Degrees
degrees n = record { bits = n }

abbrev within : ℕ → ℕ → ℕ → Bool
within a b d = leb a (b + d) && leb b (a + d)

abbrev of_ℤ : ℤ → Degrees
of_ℤ (ℤ.pos n) = degrees n
of_ℤ (ℤ.negsuc n) = degrees 0

instance abbrev whole : Angles
whole = record {
  of_int = of_ℤ;
  near = λ a b d. within a.bits b.bits d.bits;
  beyond = λ a b d. not (within a.bits b.bits d.bits);
  outside = λ a lo hi. ltb a.bits lo.bits || ltb hi.bits a.bits;
  at_most_zero = λ a. leb a.bits 0;
  stable_band = degrees 1;
  min_az = degrees 0;
  max_az = degrees 450;
  arrive_tol = degrees 3;
  default_nudge_max = degrees 10;
}

abbrev calm : World
calm = record { now = 9000000000; device_fails = false; write_fails = false }

abbrev grounded : AntMode.State
grounded = record {
  mode = AntMode.Mode.maintenance;
  lock =
      some (record {
        seq = 4;
        ground = true;
        retract = true;
        park_az = some (ℤ.pos 90);
        nudge = true;
      });
  power_hold = false;
}

-- A gate under a maintenance lock whose park to 90° was sent, the antenna being at 20°.
abbrev pub parking : Gate
parking = record (new 0 calm) {
  st = grounded;
  seen = true;
  online = true;
  az = degrees 20;
  stable_since = some 1;
  park = record {
    seq = 4;
    az = some (ℤ.pos 90);
    sent = true;
    arrived = false;
    cancelled = false;
    done = false;
  };
  state_path = "park.json";
  writing = some (record {
    seq = 4;
    az = some (ℤ.pos 90);
    sent = false;
    arrived = false;
    cancelled = false;
    done = false;
  });
}

motion-Held_example :
    (Held parking
      × (set_az (degrees 25) parking ≡ (err locked, parking))
      × (jog_dir "fwd" parking ≡ (err locked, parking))
      × ((set_az_override (degrees 25) "maintenance" parking ≡ (err locked, parking))
          ⊎ Nudges (degrees 25) "maintenance" parking))
    ⊎ (¬ Held parking
        × (set_az (degrees 25) parking ≡ tell (rotate (degrees 25)) parking)
        × (jog_dir "fwd" parking ≡ tell (Motion.jog "fwd") parking))
motion-Held_example = motion-Held parking (degrees 25) "fwd" "maintenance"

abbrev sent_park : Park
sent_park = record {
  seq = 4;
  az = some (ℤ.pos 90);
  sent = false;
  arrived = false;
  cancelled = false;
  done = false;
}

stop-step_finish_example :
    ((stop parking).1.told ≡ halt ∷ parking.told)
    × ((stop parking).0 ≡ (tell halt parking).0)
    × Ended parking sent_park
stop-step_finish_example = stop-step_finish parking sent_park

-- A park that a stop ended, and whose write is over.
abbrev cancelled : Gate
cancelled = record parking {
  park = record parking.park { cancelled = true; done = true };
  writing = none;
}

abbrev after : Gate
after = (set_az_override (degrees 25) "maintenance" (step_start cancelled)).1

park_once_example : (after.park.done ≡ true) × (after.writing ≡ none)
park_once_example =
    park_once (first (starts refl) (first (overrides (degrees 25) "maintenance") stays)) refl refl

finish-persist_to_example :
    (applied grounded (
      persist_to "park.json"
        (reload (save (finish Outcome.cancelled parking)).file)
        (new 5 calm))).park
    ≡ over_park 4 (ℤ.pos 90)
unfolding AntMode.locked new AntMode.lock_of
finish-persist_to_example =
    finish-persist_to Outcome.cancelled parking (new 5 calm) (ℤ.pos 90) grounded refl refl refl refl
      refl refl refl refl
