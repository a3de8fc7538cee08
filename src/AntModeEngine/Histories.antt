-- ===== src/AntModeEngine/Histories.antt =====
-- antmode/internal/engine/engine.go: everything that reaches the engine, in any order.
use station_a.Base.{ℕ, String, Bool, true, false, Option, List, [], ◌∷◌, All}
use station_a.AntMode as AntMode
use station_a.AntModePolicy.Types as Policy
use station_a.AntModePolicy.Types.{Format}
use station_a.AntModeEngine.Types.{
  meta_published, Notice, Wind, Command, Config, Persisted, Engine, Outside,
}
use station_a.AntModeEngine.Parking.{note_park_target}
use station_a.AntModeEngine.Publishing.{attempt, publish_state, republish}
use station_a.AntModeEngine.Stepping.{note_tx}
use station_a.AntModeEngine.Startup.{Extra, new, own_state}
use station_a.AntModeEngine.Inputs as Inputs
use station_a.AntModeEngine.Inputs.{
  RotatorDoc, AntCtrlDoc, SeqDoc, blank, bad, phase, set_connected, cmd, tick, nina_result,
  wind_result, or_wind, power_seq_status, power_seq_state, rotator_status, rotator_state,
  ant_ctrl_status, ant_ctrl_state, ant_switch_status, ant_switch_state, radio_status, radio_state,
  power_status, power_state, note_seq_phase, or_az,
}
use station_a.AntModeEngine.Frames.{note_tx-Same, publish_state-Same, note_park_target-Same}
use station_a.AntModeEngine.Fitting.{Fit, CfgFit, Sound, Same-Sound}
use station_a.AntModeEngine.Invariant.{
  input_changed-Sound, cmd-Sound, tick-Sound, nina_result-Sound,
}
use station_a.AntModeEngine.Loading.{Filed, new-Sound, Retained, own_state-Sound}

-- What reaches the engine; `clock` is the passage of time to a moment.
pub data Input : Type 0 where
  clock : ℕ → Input
  connection : Bool → Input
  own : AntMode.Payload → Extra → Input
  own_cmd : Command → Input
  ticked republished : Input
  nina : Option (List Notice) → Input
  wind : Option Wind → Input
  seq_status rotator_on ant_ctrl_on ant_switch_on radio_on power_on : Bool → Input
  seq_doc : SeqDoc → Input
  rotator_doc : RotatorDoc → Input
  ant_ctrl_doc : AntCtrlDoc → Input
  ant_switch_doc : String → Bool → Input
  radio_doc : Bool → Bool → Input
  power_doc : String → Bool → Input

module _ ⦃out : Outside⦄ ⦃f : Format⦄ where
  unfoldable pub deliver : Input → Engine → Engine
  deliver (clock t) e = record e { now = t }
  deliver (connection on) e = set_connected on e
  deliver (own payload x) e = own_state payload x e
  deliver (own_cmd c) e = cmd c e
  deliver ticked e = tick e
  deliver republished e = republish e
  deliver (nina r) e = nina_result r e
  deliver (wind r) e = wind_result r e
  deliver (seq_status on) e = power_seq_status on e
  deliver (rotator_on on) e = rotator_status on e
  deliver (ant_ctrl_on on) e = ant_ctrl_status on e
  deliver (ant_switch_on on) e = ant_switch_status on e
  deliver (radio_on on) e = radio_status on e
  deliver (power_on on) e = power_status on e
  deliver (seq_doc d) e = power_seq_state d e
  deliver (rotator_doc d) e = rotator_state d e
  deliver (ant_ctrl_doc d) e = ant_ctrl_state d e
  deliver (ant_switch_doc s on) e = ant_switch_state s on e
  deliver (radio_doc tx on) e = radio_state tx on e
  deliver (power_doc p on) e = power_state p on e

  unfoldable pub run : List Input → Engine → Engine
  run [] e = e
  run (i ∷ is) e = run is (deliver i e)

-- A retained state that is read was published by an engine.
abbrev pub Trusted : Input → Type 0
Trusted (own payload x) = Retained (AntMode.parse payload) x
Trusted i = Unit

module _ ⦃out : Outside⦄ ⦃f : Format⦄ where
  republish-Sound : (e : Engine) → Sound e → Sound (republish e)
  unfolding republish
  republish-Sound e s =
      Same-Sound (attempt meta_published e) (publish_state true (attempt meta_published e))
        (publish_state-Same (attempt meta_published e) true) s

  power_seq_state-Sound : (d : SeqDoc) (e : Engine) → Sound e → Sound (power_seq_state d e)
  unfolding power_seq_state note_seq_phase
  power_seq_state-Sound blank e s = input_changed-Sound (record e { seq_phase = "" }) s
  power_seq_state-Sound bad e s = s
  power_seq_state-Sound (phase p) e s = input_changed-Sound (note_seq_phase p e) s

  radio_state-Sound : (tx on : Bool) (e : Engine) → Sound e → Sound (radio_state tx on e)
  unfolding radio_state
  radio_state-Sound tx on e s =
      input_changed-Sound (note_tx d)
        (Same-Sound d (note_tx d) (note_tx-Same d) (Same-Sound e (note_tx e) (note_tx-Same e) s))
    where
      d : Engine
      d = record (note_tx e) { radio = record e.radio { tx = tx; device = on } }

  noted-Sound :
      (fresh : Bool) (e : Engine)
      → Sound e
      → Sound (Inputs.input_changed (note_park_target fresh e))
  noted-Sound fresh e s =
      input_changed-Sound (note_park_target fresh e)
        (Same-Sound e (note_park_target fresh e) (note_park_target-Same e fresh) s)

  deliver-Sound : (i : Input) (e : Engine) → Trusted i → Sound e → Sound (deliver i e)
  unfolding deliver set_connected wind_result power_seq_status rotator_status rotator_state
      ant_ctrl_status ant_ctrl_state ant_switch_status ant_switch_state radio_status power_status
      power_state
  deliver-Sound (clock t) e c s = s
  deliver-Sound (connection on) e c s = s
  deliver-Sound (own payload x) e c s = own_state-Sound payload x e c s
  deliver-Sound (own_cmd m) e c s = cmd-Sound m e s
  deliver-Sound ticked e c s = tick-Sound e s
  deliver-Sound republished e c s = republish-Sound e s
  deliver-Sound (nina r) e c s = nina_result-Sound r e s
  deliver-Sound (wind r) e c s = input_changed-Sound (record e { wind = or_wind r e }) s
  deliver-Sound (seq_status on) e c s = input_changed-Sound (record e { seq_status = on }) s
  deliver-Sound (rotator_on on) e c s =
      noted-Sound false (record e { rot = record e.rot { status = on } }) s
  deliver-Sound (ant_ctrl_on on) e c s =
      input_changed-Sound (record e { ant = record e.ant { status = on } }) s
  deliver-Sound (ant_switch_on on) e c s =
      input_changed-Sound (record e { sw = record e.sw { status = on } }) s
  deliver-Sound (radio_on on) e c s =
      input_changed-Sound (record e { radio = record e.radio { status = on } }) s
  deliver-Sound (power_on on) e c s =
      input_changed-Sound (record e { pwr = record e.pwr { status = on } }) s
  deliver-Sound (seq_doc d) e c s = power_seq_state-Sound d e s
  deliver-Sound (rotator_doc d) e c s =
      noted-Sound true
        (record e {
          rot = record e.rot {
            az = or_az d.az e.rot.az;
            target = d.target_az;
            moving = d.moving;
            device = d.device_online;
          };
        })
        s
  deliver-Sound (ant_ctrl_doc d) e c s =
      input_changed-Sound
        (record e {
          ant = record e.ant {
            retracted = d.retracted;
            retract_seq = d.retract_seq;
            moving = d.moving;
            device = d.device_online;
          };
        })
        s
  deliver-Sound (ant_switch_doc t on) e c s =
      input_changed-Sound (record e { sw = record e.sw { selected = t; device = on } }) s
  deliver-Sound (radio_doc tx on) e c s = radio_state-Sound tx on e s
  deliver-Sound (power_doc p on) e c s =
      input_changed-Sound (record e { pwr = record e.pwr { power = p; device = on } }) s

  pub run-Sound : (is : List Input) (e : Engine) → All Trusted is → Sound e → Sound (run is e)
  unfolding run
  run-Sound [] e c s = s
  run-Sound (i ∷ is) e (c, cs) s = run-Sound is (deliver i e) cs (deliver-Sound i e c s)

  -- With configured azimuths within the travel of the rotator, a state file and retained states
  -- whose lock and phase were written together: after any inputs in any order, the mode is normal
  -- with no lock and phase idle, or it is a defined locked mode whose lock grounds, allows a nudge
  -- exactly in maintenance, has a park azimuth only within the travel and only beside the retract,
  -- while the phase retracting comes only with the retract and the phases rotating, parked and
  -- failed only with an azimuth.
  pub run-new-Fit :
      (cfg : Config) (pcfg : Policy.Config) (file : Option Persisted) (now : ℕ) (is : List Input)
      → CfgFit cfg
      → Filed file
      → All Trusted is
      → Fit (run is (new cfg pcfg file now))
  run-new-Fit cfg pcfg file now is k c cs =
      (run-Sound is (new cfg pcfg file now) cs (new-Sound cfg pcfg file now k c)).1
