-- ===== src/AntModeEngine/Keeping.antt =====
-- antmode/internal/engine/engine.go: the steps of the lock keep the fit of mode, lock and phase.
use station_a.Base.{
  subst, true, false, not, ◌&&◌, ◌||◌, Option, none, some, ◌≡◌, ◌⊎◌, inl, inr, refl, ◌∙◌, ℤ,
  is_some, if-both, if◌then◌else◌, Option-cases,
}
use station_a.AntMode.{Lock}
use station_a.AntModeEngine.Types.{
  Phase, idle, grounding, retracting, awaiting_power, awaiting_devices, rotating, parked, failed,
  unknown, live, power_set, Borrow, Engine, Outside,
}
use station_a.AntModeEngine.Parking.{
  set_phase, compute_park, fail, note_park_target, update_drift, finish_park, park_of, at_park,
  nudged,
}
use station_a.AntModeEngine.Publishing.{succeeded, attempt}
use station_a.AntModeEngine.Borrowing.{pwr_on, mark_sent, send_power_on}
use station_a.AntModeEngine.Stepping as Stepping
use station_a.AntModeEngine.Stepping.{
  borrow_timed_out, has_elapsed, is_busy, is_grounded, is_retracted, await_power, await_devices,
  retract, rotate, recover, step_in, step_lock, late_borrow,
}
use station_a.AntModeEngine.Frames.{
  Same, late_borrow-Moves, note_park_target-Same, update_drift-Same,
}
use station_a.AntModeEngine.Fitting.{
  has_reached, Park, Fitting, Sound, set_phase-Sound, Same-Sound, Moves-Sound, compute_park-Sound,
}

module _ ⦃out : Outside⦄ (l : Lock) where
  -- The engine has this lock, and it is sound.
  abbrev Holds : Engine → Type 0
  Holds e = (e.lock ≡ some l) × Sound e

  fitting : (e : Engine) → Holds e → Fitting e.pol.state.mode (some l) e.phase
  fitting e (h, (k, f)) = subst (λ o. Fitting e.pol.state.mode o e.phase) h f

  phase-Sound : (e : Engine) (p : Phase) → Holds e → has_reached p l ≡ true → Sound (set_phase p e)
  phase-Sound e p (h, (k, f)) r = set_phase-Sound p e k (rw h (by (fitting e (h, (k, f)))))
    where
      by : Fitting e.pol.state.mode (some l) e.phase → Fitting e.pol.state.mode (some l) p
      by (a, b, c, d, q, r') = (a, b, c, d, q, r)

  await_power-Sound : (e : Engine) → Holds e → Sound (await_power e)
  unfolding await_power
  await_power-Sound e h =
      if-both Sound (pwr_on e) {x = set_phase awaiting_devices e}
        {y = if borrow_timed_out e then set_phase grounding e else e}
        (phase-Sound e awaiting_devices h refl)
        (if-both Sound (borrow_timed_out e) {x = set_phase grounding e} {y = e}
          (phase-Sound e grounding h refl) h.1)

  await_devices-Sound : (e : Engine) → Holds e → Sound (await_devices e)
  unfolding await_devices
  await_devices-Sound e h =
      if-both Sound ((live e.rot && live e.ant) || borrow_timed_out e) {x = set_phase grounding e}
        {y = e} (phase-Sound e grounding h refl) h.1

  ground-Sound : (e : Engine) → Holds e → Sound (Stepping.ground l e)
  unfolding Stepping.ground
  ground-Sound e (h, (k, f)) =
      if-both Sound (is_grounded e || (has_elapsed e.cfg.ground_timeout_s e && not (is_busy e)))
        {x = set_phase retracting (record e { lock = some (record l { retract = true }) })} {y = e}
        (set_phase-Sound retracting (record e { lock = some (record l { retract = true }) }) k
          (by (fitting e (h, (k, f)))))
        (k, f)
    where
      again : (z : Option ℤ) → Park l.retract z → Park true z
      again none q = q
      again (some z) (u, v) = (refl, v)

      by :
          Fitting e.pol.state.mode (some l) e.phase
          → Fitting e.pol.state.mode (some (record l { retract = true })) retracting
      by (a, b, c, d, q, r) = (a, b, c, d, again l.park_az q, refl)

  retract-Sound : (e : Engine) → Holds e → Sound (retract l e)
  unfolding retract
  retract-Sound e (h, (k, f)) =
      if-both Sound (is_retracted l e || has_elapsed e.cfg.retract_timeout_s e)
        {x = compute_park l e} {y = e} (compute_park-Sound e l k (fitting e (h, (k, f)))) (k, f)

  finish_park-Sound : (e : Engine) → Holds e → is_some l.park_az ≡ true → Sound (finish_park e)
  unfolding finish_park
  finish_park-Sound e h r =
      Same-Sound (set_phase parked (record e { fault = "" }))
        (update_drift (set_phase parked (record e { fault = "" })))
        (update_drift-Same (set_phase parked (record e { fault = "" })))
        (phase-Sound (record e { fault = "" }) parked h r)

  rotate-Sound : (e : Engine) → Holds e → is_some l.park_az ≡ true → Sound (rotate e)
  unfolding rotate fail
  rotate-Sound e h r = by (park_of e.lock)
    where
      ends : Option ℤ → Engine
      ends none = e
      ends (some az) =
          if at_park e || nudged e
          then finish_park e
          else if has_elapsed e.cfg.rotate_timeout_s e
          then fail (out.fault_text az e.cfg.rotate_timeout_s e.rot) e
          else e

      by : (o : Option ℤ) → Sound (ends o)
      by none = h.1
      by (some az) =
          if-both Sound (at_park e || nudged e) {x = finish_park e}
            {y = if has_elapsed e.cfg.rotate_timeout_s e
              then fail (out.fault_text az e.cfg.rotate_timeout_s e.rot) e
              else e}
            (finish_park-Sound e h r)
            (if-both Sound (has_elapsed e.cfg.rotate_timeout_s e)
              {x = fail (out.fault_text az e.cfg.rotate_timeout_s e.rot) e} {y = e}
              (phase-Sound (record e { fault = out.fault_text az e.cfg.rotate_timeout_s e.rot })
                failed h r)
              h.1)

  recover-Sound : (e : Engine) → Holds e → is_some l.park_az ≡ true → Sound (recover e)
  unfolding recover
  recover-Sound e h r =
      if-both Sound (at_park e || nudged e) {x = finish_park e} {y = e} (finish_park-Sound e h r)
        h.1

  sent-Holds : (e : Engine) → Holds e → Holds (send_power_on e)
  unfolding send_power_on
  sent-Holds e h =
      if-both Holds (succeeded e)
        {x = record (attempt (power_set "on") e) { borrow = mark_sent e.borrow }}
        {y = attempt (power_set "on") e} h h

  await-Sound :
      (e : Engine) (o : Option Borrow)
      → Holds e
      → Sound (elim o [
        | none ↦ set_phase grounding e
        | some b ↦ await_power (if b.sent then e else send_power_on e)
      ])
  await-Sound e none h = phase-Sound e grounding h refl
  await-Sound e (some b) h =
      await_power-Sound (if b.sent then e else send_power_on e)
        (if-both Holds b.sent h (sent-Holds e h))

  step_in-Sound :
      (e : Engine) (p : Phase) → Holds e → has_reached p l ≡ true → Sound (step_in p l e)
  unfolding step_in
  step_in-Sound e awaiting_power h r = await-Sound e e.borrow h
  step_in-Sound e awaiting_devices h r = await_devices-Sound e h
  step_in-Sound e grounding h r = ground-Sound e h
  step_in-Sound e retracting h r = retract-Sound e h
  step_in-Sound e rotating (h, s) r = by (note_park_target-Same e false)
    where
      by : Same e (note_park_target false e) → Sound (rotate (note_park_target false e))
      by (a, b, c, p, n) =
          rotate-Sound (note_park_target false e)
            (c ∙ h, Same-Sound e (note_park_target false e) (a, b, c, p, n) s) r
  step_in-Sound e parked (h, s) r = Same-Sound e (update_drift e) (update_drift-Same e) s
  step_in-Sound e failed h r = recover-Sound e h r
  step_in-Sound e idle h r = h.1
  step_in-Sound e (unknown t) h r = h.1

module _ ⦃out : Outside⦄ (e : Engine) where
  pub step_lock-Sound : Sound e → Sound (step_lock e)
  unfolding step_lock
  step_lock-Sound s = by e.lock refl
    where
      ends : Option Lock → Engine
      ends none = e
      ends (some l) = step_in e.phase l e

      reached :
          (l : Lock) → Fitting e.pol.state.mode (some l) e.phase → has_reached e.phase l ≡ true
      reached l (a, b, c, d, q, r) = r

      by : (o : Option Lock) → e.lock ≡ o → Sound (ends o)
      by none h = s
      by (some l) h = step_in-Sound l e e.phase (h, s) (reached l (fitting l e (h, s)))

  none-late : e.lock ≡ none → late_borrow e ≡ e
  unfolding late_borrow
  none-late h = rw h refl

  pub late_borrow-Sound : Sound e → Sound (late_borrow e)
  late_borrow-Sound s = by (Option-cases e.lock)
    where
      by : (e.lock ≡ none) ⊎ ((l : Lock) × (e.lock ≡ some l)) → Sound (late_borrow e)
      by (inl h) = rw (none-late h) s
      by (inr (l, h)) = Moves-Sound e (late_borrow e) l h (late_borrow-Moves e) s
