-- ===== src/AntModeEngine/Tests.antt =====
-- antmode/internal/engine/engine.go: the theorems on one engine, with whole degrees for the floats.
use station_a.Base.{
  ℕ, ◌+◌, ◌-◌, Bool, true, false, ◌&&◌, none, some, List, [], ◌∷◌, ℤ, pos, negsuc, ltb, leb, ◌==◌,
  ◌≡◌, refl, arith, Degrees,
}
use station_a.AntMode.{Mode, Lock}
use station_a.AntModePolicy.Types as Policy
use station_a.AntModePolicy.Types.{Format}
use station_a.AntModeEngine.Types.{
  grounding, Config, Borrow, no_sibling, Notice, no_ts, set_ant_mode, command, Engine, Outside,
}
use station_a.AntModeEngine.Heading.{storm}
use station_a.AntModeEngine.Bearing.{Chosen, storm-Chosen}
use station_a.AntModeEngine.Publishing.{persisted}
use station_a.AntModeEngine.Borrowing.{start_borrow}
use station_a.AntModeEngine.Stepping.{step_lock}
use station_a.AntModeEngine.Startup.{fresh_engine, new}
use station_a.AntModeEngine.Fitting.{Fit}
use station_a.AntModeEngine.Order.{Grows, step_lock-Grows}
use station_a.AntModeEngine.Histories.{
  Input, clock, connection, own_cmd, ticked, nina, ant_switch_doc, ant_switch_on, rotator_doc,
  ant_ctrl_doc, run, run-new-Fit,
}
use station_a.AntModeEngine.Carrying.{Extends}
use station_a.AntModeEngine.Remaining.{run-lock}
use station_a.AntModeEngine.Restarting.{Resumes, new-persisted}
use station_a.AntModeEngine.Published.{shown, heard, heard-Fit}
use station_a.AntModeEngine.Lending.{Lends, start_borrow-Lends}
use station_a.AntMode as AntMode
use station_a.Base.{ok}
use station_a.RotatorLock.Acting as Rotator
use station_a.RotatorLock.Tests.{parking}
use station_a.UltraBridge.Lock as Ultra
use station_a.UltraBridge.Tests.{stormy}
use station_a.PowerSeq.Tests.{station}
use station_a.PowerSeq.Types as PowerSeq
use station_a.PowerSeq.Inputs as Sequencing
use station_a.AntModeEngine.Publishing.{power_hold}

abbrev degrees : ℕ → Degrees
degrees n = record { bits = n }

abbrev of_ℤ : ℤ → Degrees
of_ℤ (pos n) = degrees n
of_ℤ (negsuc n) = degrees 0

abbrev width : ℤ → ℕ
width (pos n) = n
width (negsuc n) = 0

abbrev within : ℕ → ℕ → ℕ → Bool
within a b d = leb a (b + d) && leb b (a + d)

abbrev far : ℕ → ℕ → ℕ
far a b = (a - b) + (b - a)

-- All publications and writes succeed.
instance abbrev outside : Outside
outside = record {
  succeeds = λ n. true;
  state_text = λ s. s.fault;
  file_text = λ p. p.fault;
  fault_text = λ az t r. "timeout";
  of_int = of_ℤ;
  within = λ a b n. within a.bits b.bits (width n);
  offset = λ a n. pos (a.bits - width n);
  round = λ a. pos a.bits;
  finite = λ a. true;
  closer = λ c b az. ltb (far c az.bits) (far b az.bits);
  as_close = λ c b az. far c az.bits == far b az.bits;
}

instance abbrev plain : Format
plain = record { decimal = λ n. "n"; duration = λ d. "d" }

abbrev config : Config
config = record {
  borrow = true;
  devices_timeout_s = 60;
  ground_timeout_s = 10;
  tx_quiet_s = 2;
  retract_timeout_s = 30;
  rotate_timeout_s = 180;
  tolerance_deg = pos 5;
  drift_warn_deg = pos 10;
  max_az = pos 450;
  fallback_az = pos 90;
  maintenance_az = pos 0;
  wind_stale = 3600000000000;
}

abbrev automatic : Policy.Config
automatic = record { auto_enter = true; exit_holdoff = 3600000000000 }

storm-Chosen_example :
    Chosen
      (record {
        wind = some (degrees 270);
        az = some (degrees 20);
        max_az = pos 450;
        fallback_az = pos 90;
      })
      (some (degrees 270))
      (storm (record {
        wind = some (degrees 270);
        az = some (degrees 20);
        max_az = pos 450;
        fallback_az = pos 90;
      }))
storm-Chosen_example = storm-Chosen (record {
  wind = some (degrees 270);
  az = some (degrees 20);
  max_az = pos 450;
  fallback_az = pos 90;
})

abbrev hail : Notice
hail = record { warning = record { id = "w1"; event = "HAIL" }; onset = 0; expires = none }

-- From the start through the hold, a storm by the operator, its grounding and its retract.
abbrev stormy_day : List Input
stormy_day =
    connection true
    ∷ clock 4000000000
    ∷ ticked
    ∷ nina (some (hail ∷ []))
    ∷ own_cmd (command no_ts (set_ant_mode (some Mode.storm)))
    ∷ ant_switch_on true
    ∷ ant_switch_doc "off" true
    ∷ clock 90000000000
    ∷ ticked
    ∷ rotator_doc
        (record { az = some (degrees 20); target_az = none; moving = false; device_online = true })
    ∷ []

run-new-Fit_example : Fit (run stormy_day (new config automatic none 0))
run-new-Fit_example =
    run-new-Fit config automatic none 0 stormy_day (refl, refl, omega arith) tt
      (tt, (tt, (tt, (tt, (tt, (tt, (tt, (tt, (tt, (tt, tt))))))))))

abbrev policy : Policy.Policy
policy = record {
  config = automatic;
  state = record {
    mode = Mode.storm;
    source = Policy.by_operator;
    since = 0;
    seq = 4;
    acked = [];
    dismissed = [];
    quiet_for = 0;
    reason = "";
  };
  last_clean = none;
}

abbrev fresh_lock : Lock
fresh_lock = record { seq = 4; ground = true; retract = false; park_az = none; nudge = false }

-- An engine that grounds for a storm, the switch being at off.
abbrev grounds : Engine
grounds = record (fresh_engine config policy 1000) {
  ready = true;
  lock = some fresh_lock;
  phase = grounding;
  sw = record no_sibling { status = true; device = true; selected = "off" };
}

step_lock-Grows_example : Grows grounds fresh_lock (step_lock grounds).lock
unfolding fresh_engine AntMode.is_valid
step_lock-Grows_example = step_lock-Grows grounds fresh_lock refl (refl, refl, refl, refl, tt, refl)

abbrev commandless : List Input
commandless =
    ant_ctrl_doc
      (record { retracted = true; retract_seq = some 4; moving = false; device_online = true })
    ∷ clock 200000000000
    ∷ ticked
    ∷ ant_switch_on false
    ∷ []

run-lock_example :
    ((run commandless grounds).pol ≡ policy)
    × ((m : Lock) × (((run commandless grounds).lock ≡ some m) × Extends fresh_lock m))
unfolding fresh_engine AntMode.is_valid
run-lock_example =
    run-lock commandless grounds fresh_lock (tt, (tt, (tt, (tt, tt)))) (refl, refl, omega arith)
      (refl, refl, refl, refl, tt, refl) refl refl

new-persisted_example : Resumes grounds (new config automatic (some (persisted grounds)) 5000)
unfolding fresh_engine AntMode.is_valid
new-persisted_example =
    new-persisted config automatic 5000 grounds (refl, refl, refl, refl, tt, refl)

heard-Fit_example :
    (AntMode.parse (heard grounds) ≡ ok (shown grounds))
    × (Rotator.refuses (Rotator.apply (heard grounds) parking) ≡ true)
    × (Ultra.check_extend 0 (Ultra.apply_ant_mode (heard grounds) stormy) ≡ true)
    × ((Sequencing.set_ant_mode (heard grounds) (station 300 PowerSeq.running "1")).power_hold
        ≡ power_hold grounds)
unfolding fresh_engine AntMode.is_valid
heard-Fit_example =
    heard-Fit grounds parking stormy 0 (station 300 PowerSeq.running "1")
      (refl, refl, refl, refl, tt, refl)

abbrev loan : Borrow
loan = record {
  restore_to = "off";
  power_seq_phase = "standby";
  since = 0;
  sent = true;
  restore = true;
  taken_over = false;
}

-- An engine in a borrow that is to be restored.
abbrev lends : Engine
lends = record grounds { borrow = some loan; seq_status = true; seq_phase = "standby" }

-- The same, before the borrow.
abbrev dark : Engine
dark = record grounds {
  seq_status = true;
  seq_phase = "standby";
  pwr = record no_sibling { status = true; device = true; power = "off" };
}

start_borrow-Lends_example : Lends dark (start_borrow dark)
start_borrow-Lends_example = start_borrow-Lends dark
