-- ===== src/AntModeEngine/Remaining.antt =====
-- antmode/internal/engine/engine.go: a lock is carried through everything but commands and polls
-- of the warnings.
use station_a.Base.{Bool, true, false, some, List, [], ◌∷◌, ◌≡◌, refl, All, if-both, if-cases}
use station_a.AntMode.{Lock}
use station_a.AntModePolicy.Types.{Policy, Format}
use station_a.AntMode as AntMode
use station_a.AntModeEngine.Startup.{Extra, own_state}
use station_a.AntModeEngine.Types.{meta_published, Engine, Outside}
use station_a.AntModeEngine.Parking.{note_park_target}
use station_a.AntModeEngine.Publishing.{attempt, persist, publish_state, republish}
use station_a.AntModeEngine.Stepping.{note_tx, step}
use station_a.AntModeEngine.Inputs.{
  SeqDoc, blank, bad, phase, advanced, input_changed, set_connected, tick, wind_result, or_wind,
  or_az, note_seq_phase, power_seq_status, power_seq_state, rotator_status, rotator_state,
  ant_ctrl_status, ant_ctrl_state, ant_switch_status, ant_switch_state, radio_status, radio_state,
  power_status, power_state,
}
use station_a.AntModeEngine.Frames.{
  note_tx-Same, note_park_target-Same, persist-Same, publish_state-Same,
}
use station_a.AntModeEngine.Carrying.{Extends, Extends-refl, Carries, Same-Carries, step-Carries}
use station_a.AntModeEngine.Fitting.{Fit, CfgFit}
use station_a.AntModeEngine.Histories.{
  Input, clock, connection, own, own_cmd, ticked, republished, nina, wind, seq_status, rotator_on,
  ant_ctrl_on, ant_switch_on, radio_on, power_on, seq_doc, rotator_doc, ant_ctrl_doc,
  ant_switch_doc, radio_doc, power_doc, deliver, run,
}

-- All but the commands and the polls of the warnings.
abbrev pub IsOutside : Input → Type 0
IsOutside (own_cmd c) = ⊥
IsOutside (nina r) = ⊥
IsOutside i = Unit

module _ ⦃out : Outside⦄ ⦃f : Format⦄ (p : Policy) (l : Lock) where
  advanced-Carries : (force : Bool) (e : Engine) → Carries p l e → Carries p l (advanced force e)
  unfolding advanced
  advanced-Carries force e s =
      Same-Carries p l (persist (step e)) (publish_state force (persist (step e)))
        (publish_state-Same (persist (step e)) force)
        (Same-Carries p l (step e) (persist (step e)) (persist-Same (step e))
          (step-Carries p l e s))

  input_changed-Carries : (e : Engine) → Carries p l e → Carries p l (input_changed e)
  unfolding input_changed
  input_changed-Carries e s = if-both (Carries p l) e.ready (advanced-Carries false e s) s

  tick-Carries : (e : Engine) → Carries p l e → Carries p l (tick e)
  unfolding tick
  tick-Carries e (s, r, o, x) =
      if-cases (Carries p l) e.ready {x = advanced false e}
        (λ h. advanced-Carries false e (s, r, o, x)) (λ h. cc)

  noted-Carries :
      (fresh : Bool) (e : Engine)
      → Carries p l e
      → Carries p l (input_changed (note_park_target fresh e))
  noted-Carries fresh e s =
      input_changed-Carries (note_park_target fresh e)
        (Same-Carries p l e (note_park_target fresh e) (note_park_target-Same e fresh) s)

  power_seq_state-Carries :
      (d : SeqDoc) (e : Engine) → Carries p l e → Carries p l (power_seq_state d e)
  unfolding power_seq_state note_seq_phase
  power_seq_state-Carries blank e s = input_changed-Carries (record e { seq_phase = "" }) s
  power_seq_state-Carries bad e s = s
  power_seq_state-Carries (phase q) e s = input_changed-Carries (note_seq_phase q e) s

  radio_state-Carries :
      (tx on : Bool) (e : Engine) → Carries p l e → Carries p l (radio_state tx on e)
  unfolding radio_state
  radio_state-Carries tx on e s = input_changed-Carries (note_tx d) (
      Same-Carries p l d (note_tx d) (note_tx-Same d)
        (Same-Carries p l e (note_tx e) (note_tx-Same e) s))
    where
      d : Engine
      d = record (note_tx e) { radio = record e.radio { tx = tx; device = on } }

  -- A ready engine does not read its own retained state.
  own_state-Carries :
      (payload : AntMode.Payload) (x : Extra) (e : Engine)
      → Carries p l e
      → Carries p l (own_state payload x e)
  unfolding own_state
  own_state-Carries payload x e (s, r, o, y) =
      if-cases (Carries p l) e.ready {x = e} (λ h. (s, r, o, y)) (λ h. cc)

  deliver-Carries :
      (i : Input) (e : Engine) → IsOutside i → Carries p l e → Carries p l (deliver i e)
  unfolding deliver set_connected republish wind_result power_seq_status rotator_status
      rotator_state ant_ctrl_status ant_ctrl_state ant_switch_status ant_switch_state radio_status
      power_status power_state
  deliver-Carries (clock t) e c s = s
  deliver-Carries (connection on) e c s = s
  deliver-Carries ticked e c s = tick-Carries e s
  deliver-Carries republished e c s =
      Same-Carries p l (attempt meta_published e) (publish_state true (attempt meta_published e))
        (publish_state-Same (attempt meta_published e) true) s
  deliver-Carries (wind r) e c s = input_changed-Carries (record e { wind = or_wind r e }) s
  deliver-Carries (seq_status on) e c s = input_changed-Carries (record e { seq_status = on }) s
  deliver-Carries (rotator_on on) e c s =
      noted-Carries false (record e { rot = record e.rot { status = on } }) s
  deliver-Carries (ant_ctrl_on on) e c s =
      input_changed-Carries (record e { ant = record e.ant { status = on } }) s
  deliver-Carries (ant_switch_on on) e c s =
      input_changed-Carries (record e { sw = record e.sw { status = on } }) s
  deliver-Carries (radio_on on) e c s =
      input_changed-Carries (record e { radio = record e.radio { status = on } }) s
  deliver-Carries (power_on on) e c s =
      input_changed-Carries (record e { pwr = record e.pwr { status = on } }) s
  deliver-Carries (seq_doc d) e c s = power_seq_state-Carries d e s
  deliver-Carries (rotator_doc d) e c s =
      noted-Carries true
        (record e {
          rot = record e.rot {
            az = or_az d.az e.rot.az;
            target = d.target_az;
            moving = d.moving;
            device = d.device_online;
          };
        })
        s
  deliver-Carries (ant_ctrl_doc d) e c s =
      input_changed-Carries
        (record e {
          ant = record e.ant {
            retracted = d.retracted;
            retract_seq = d.retract_seq;
            moving = d.moving;
            device = d.device_online;
          };
        })
        s
  deliver-Carries (ant_switch_doc t on) e c s =
      input_changed-Carries (record e { sw = record e.sw { selected = t; device = on } }) s
  deliver-Carries (radio_doc tx on) e c s = radio_state-Carries tx on e s
  deliver-Carries (power_doc q on) e c s =
      input_changed-Carries (record e { pwr = record e.pwr { power = q; device = on } }) s
  deliver-Carries (own payload x) e c s = own_state-Carries payload x e s
  deliver-Carries (own_cmd m) e c s = absurd c
  deliver-Carries (nina r) e c s = absurd c

  run-Carries :
      (is : List Input) (e : Engine) → All IsOutside is → Carries p l e → Carries p l (run is e)
  unfolding run
  run-Carries [] e c s = s
  run-Carries (i ∷ is) e (c, cs) s = run-Carries is (deliver i e) cs (deliver-Carries i e c s)

module _ ⦃out : Outside⦄ ⦃f : Format⦄ where
  -- While a ready engine, whose mode, lock and phase fit and whose configured azimuths are within
  -- the travel, gets no command and no poll of the warnings, no other input, in any number and
  -- order, takes its lock away: the policy stays, the lock keeps its sequence number, its ground
  -- and its nudge, the retract once ordered stays ordered, and a park azimuth once chosen stays.
  pub run-lock :
      (is : List Input) (e : Engine) (l : Lock)
      → All IsOutside is
      → CfgFit e.cfg
      → Fit e
      → e.ready ≡ true
      → e.lock ≡ some l
      → ((run is e).pol ≡ e.pol) × ((m : Lock) × (((run is e).lock ≡ some m) × Extends l m))
  run-lock is e l c k g r h =
      by (run-Carries e.pol l is e c ((k, g), r, refl, (l, (h, Extends-refl l))))
    where
      by :
          Carries e.pol l (run is e)
          → ((run is e).pol ≡ e.pol) × ((m : Lock) × (((run is e).lock ≡ some m) × Extends l m))
      by (s, t, o, x) = (o, x)
