-- ===== src/AntModeEngine/Order.antt =====
-- antmode/internal/engine/engine.go: the order in which a lock is built.
use station_a.Base.{
  subst, true, false, ◌&&◌, ◌||◌, Option, none, some, ◌≡◌, ◌⊎◌, inl, inr, refl, sym, ap, ◌∙◌, ℤ,
  arith, is_some, if-both, if-cases, if◌then◌else◌,
}
use station_a.AntMode.{Lock}
use station_a.AntModeEngine.Types.{
  Phase, idle, grounding, retracting, awaiting_power, awaiting_devices, rotating, parked, failed,
  unknown, live, Borrow, Engine, Outside,
}
use station_a.AntModeEngine.Parking.{
  set_phase, compute_park, park_heading, fail, note_park_target, update_drift, finish_park, park_of,
  at_park, nudged,
}
use station_a.AntModeEngine.Publishing.{succeeded}
use station_a.AntModeEngine.Borrowing.{pwr_on, send_power_on}
use station_a.AntModeEngine.Stepping as Stepping
use station_a.AntModeEngine.Stepping.{
  borrow_timed_out, has_elapsed, is_busy, is_grounded, is_retracted, await_power, await_devices,
  retract, rotate, recover, step_in, step_lock,
}
use station_a.AntModeEngine.Guards.{
  may_retract, may_turn, MayRetract, MayTurn, may_retract-MayRetract, may_turn-MayTurn,
}
use station_a.AntModeEngine.Frames.{Same, note_park_target-Same, update_drift-Same}
use station_a.AntModeEngine.Fitting.{has_reached, Fitting, Fit}

module _ ⦃out : Outside⦄ where
  -- What a step may make of the lock `l`.
  abbrev pub Grows : Engine → Lock → Option Lock → Type 0
  Grows e l o =
      (o ≡ some l)
      ⊎ (((o ≡ some (record l { retract = true })) × (e.phase ≡ grounding) × MayRetract e)
          ⊎ ((o ≡ some (record l { park_az = some (park_heading e) }))
              × (l.park_az ≡ none)
              × (e.phase ≡ retracting)
              × (l.retract ≡ true)
              × MayTurn l e))

  -- The policy and readiness are kept.
  abbrev pub Keeps : Engine → Engine → Type 0
  Keeps e d = (d.pol ≡ e.pol) × (d.ready ≡ e.ready)

  -- The lock too.
  abbrev Only : Engine → Engine → Type 0
  Only e d = (d.lock ≡ e.lock) × (d.pol ≡ e.pol) × (d.ready ≡ e.ready)

  phase-Only : (p : Phase) (e : Engine) → Only e (set_phase p e)
  unfolding set_phase
  phase-Only p e = ground arith

  await_power-Only : (e : Engine) → Only e (await_power e)
  unfolding await_power
  await_power-Only e =
      if-both (Only e) (pwr_on e) (phase-Only awaiting_devices e)
        (if-both (Only e) (borrow_timed_out e) (phase-Only grounding e) (refl, refl, refl))

  await-Only :
      (e : Engine) (o : Option Borrow)
      → Only e (elim o [
        | none ↦ set_phase grounding e
        | some b ↦ await_power (if b.sent then e else send_power_on e)
      ])
  unfolding send_power_on
  await-Only e none = phase-Only grounding e
  await-Only e (some b) = by (await_power-Only sent) (
      if-both (Only e) b.sent (refl, refl, refl)
        (if-both (Only e) (succeeded e) (refl, refl, refl) (refl, refl, refl)))
    where
      sent : Engine
      sent = if b.sent then e else send_power_on e

      by : Only sent (await_power sent) → Only e sent → Only e (await_power sent)
      by (a, b, c) (a', b', c') = (a ∙ a', b ∙ b', c ∙ c')

  await_devices-Only : (e : Engine) → Only e (await_devices e)
  unfolding await_devices
  await_devices-Only e =
      if-both (Only e) ((live e.rot && live e.ant) || borrow_timed_out e) (phase-Only grounding e)
        (refl, refl, refl)

  recover-Only : (e : Engine) → Only e (recover e)
  unfolding recover finish_park update_drift
  recover-Only e =
      if-both (Only e) (at_park e || nudged e) {x = finish_park e}
        (phase-Only parked (record e { fault = "" })) (refl, refl, refl)

  rotate-Only : (e : Engine) → Only e (rotate e)
  unfolding rotate finish_park update_drift fail
  rotate-Only e = by (park_of e.lock)
    where
      failing : ℤ → Engine
      failing az =
          if has_elapsed e.cfg.rotate_timeout_s e
          then fail (out.fault_text az e.cfg.rotate_timeout_s e.rot) e
          else e

      by :
          (o : Option ℤ)
          → Only e (elim o [
            | none ↦ e
            | some az ↦ if at_park e || nudged e then finish_park e else failing az
          ])
      by none = (refl, refl, refl)
      by (some az) =
          if-both (Only e) (at_park e || nudged e) {x = finish_park e} {y = failing az}
            (phase-Only parked (record e { fault = "" }))
            (if-both (Only e) (has_elapsed e.cfg.rotate_timeout_s e)
              (phase-Only failed
                (record e { fault = out.fault_text az e.cfg.rotate_timeout_s e.rot }))
              (refl, refl, refl))

module _ ⦃out : Outside⦄ (e : Engine) (l : Lock) where
  -- What a step makes of the lock, the policy and readiness.
  abbrev Steps : Engine → Type 0
  Steps d = Grows e l d.lock × Keeps e d

  only : (d : Engine) → e.lock ≡ some l → Only e d → Steps d
  only d h (a, b, c) = (inl (a ∙ h), (b, c))

  ground-Steps : e.lock ≡ some l → e.phase ≡ grounding → Steps (Stepping.ground l e)
  unfolding Stepping.ground
  ground-Steps h p =
      if-cases Steps (may_retract e) {x = set_phase retracting begun} {y = e}
        (λ r. by r (phase-Only retracting begun)) (λ r. (inl h, (refl, refl)))
    where
      begun : Engine
      begun = record e { lock = some (record l { retract = true }) }

      by :
          may_retract e ≡ true
          → Only begun (set_phase retracting begun)
          → Steps (set_phase retracting begun)
      by r (a, b, c) = (inr (inl (a, p, may_retract-MayRetract e r)), (b, c))

  compute_park-Steps :
      e.lock ≡ some l
      → e.phase ≡ retracting
      → l.retract ≡ true
      → may_turn l e ≡ true
      → Steps (compute_park l e)
  unfolding compute_park
  compute_park-Steps h p r t =
      if-cases Steps (is_some l.park_az) {x = set_phase rotating again}
        {y = note_park_target false (set_phase rotating turned)}
        (λ z. known (phase-Only rotating again))
        (λ z.
          chosen z (phase-Only rotating turned)
            (note_park_target-Same (set_phase rotating turned) false))
    where
      again : Engine
      again = record e { lock = some (record l { retract = true }) }

      turned : Engine
      turned = record e {
        lock = some (record l { retract = true; park_az = some (park_heading e) });
      }

      known : Only again (set_phase rotating again) → Steps (set_phase rotating again)
      known (a, b, c) = (inl (a ∙ ap (λ x. some (record l { retract = x })) (sym r)), (b, c))

      none-is : (o : Option ℤ) → is_some o ≡ false → o ≡ none
      none-is none z = refl
      none-is (some a) z = cc

      chosen :
          is_some l.park_az ≡ false
          → Only turned (set_phase rotating turned)
          → Same (set_phase rotating turned) (note_park_target false (set_phase rotating turned))
          → Steps (note_park_target false (set_phase rotating turned))
      chosen z (a, b, c) (i, j, k, m, n) = (
        inr (
            inr (
              k
                  ∙ a
                  ∙ ap (λ x. some (record l { retract = x; park_az = some (park_heading e) }))
                      (sym r),
              none-is l.park_az z,
              p,
              r,
              may_turn-MayTurn l e t,
            )),
        (j ∙ b, n ∙ c),
      )

  step_in-Steps :
      (p : Phase) → e.lock ≡ some l → e.phase ≡ p → has_reached p l ≡ true → Steps (step_in p l e)
  unfolding step_in retract
  step_in-Steps awaiting_power h q r = only (step_in awaiting_power l e) h (await-Only e e.borrow)
  step_in-Steps awaiting_devices h q r = only (await_devices e) h (await_devices-Only e)
  step_in-Steps grounding h q r = ground-Steps h q
  step_in-Steps retracting h q r =
      if-cases Steps (may_turn l e) {x = compute_park l e} {y = e} (compute_park-Steps h q r)
        (λ t. (inl h, (refl, refl)))
  step_in-Steps rotating h q r =
      only (rotate (note_park_target false e)) h
        (by (note_park_target-Same e false) (rotate-Only (note_park_target false e)))
    where
      by :
          Same e (note_park_target false e)
          → Only (note_park_target false e) (rotate (note_park_target false e))
          → Only e (rotate (note_park_target false e))
      by (i, j, k, m, n) (a, b, c) = (a ∙ k, b ∙ j, c ∙ n)
  step_in-Steps parked h q r = only (update_drift e) h (by (update_drift-Same e))
    where
      by : Same e (update_drift e) → Only e (update_drift e)
      by (i, j, k, m, n) = (k, j, n)
  step_in-Steps failed h q r = only (recover e) h (recover-Only e)
  step_in-Steps idle h q r = (inl h, (refl, refl))
  step_in-Steps (unknown t) h q r = (inl h, (refl, refl))

  pub step_lock-Steps : e.lock ≡ some l → Fit e → Steps (step_lock e)
  unfolding step_lock
  step_lock-Steps h f =
      subst (λ o. Steps (ends o)) (sym h)
        (step_in-Steps e.phase h refl
          (reached (subst (λ o. Fitting e.pol.state.mode o e.phase) h f)))
    where
      ends : Option Lock → Engine
      ends none = e
      ends (some m) = step_in e.phase m e

      reached : Fitting e.pol.state.mode (some l) e.phase → has_reached e.phase l ≡ true
      reached (a, b, c, d, q, r) = r

  -- Where mode, lock and phase fit, one step of a lock leaves the lock as it is, or orders the
  -- retract, in grounding and only once the switch is at off or grounding timed out with the radio
  -- quiet; or it chooses a park azimuth, in retracting and only if none was chosen and the retract
  -- of this very lock is confirmed or timed out.
  pub step_lock-Grows : e.lock ≡ some l → Fit e → Grows e l (step_lock e).lock
  step_lock-Grows h f = (step_lock-Steps h f).0
