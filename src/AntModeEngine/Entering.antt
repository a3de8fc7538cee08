-- ===== src/AntModeEngine/Entering.antt =====
-- antmode/internal/engine/engine.go: a change of the mode keeps the fit of mode, lock and phase.
use station_a.Base.{
  subst, ℕ, ◌+◌, Bool, true, false, not, ◌||◌, Option, none, some, List, leb, ◌≡◌, refl, sym, ◌∙◌,
  arith, if-both, if-cases, if◌then◌else◌, ok, err, Result,
}
use station_a.AntMode.{Mode, Lock, is_valid, normal, storm}
use station_a.AntModePolicy.Types.{
  Source, Policy, Changes, Warning, Presence, Format, is_normal, same_mode, is_auto_storm,
  auto_storm, enter,
}
use station_a.AntModePolicy.Acting.{
  unacked, is_unmanned, elapsed, evaluate, set_mode, poll, quiet_poll, is_nil,
}
use station_a.AntModeEngine.Types.{Phase, idle, grounding, retracting, Engine, Outside}
use station_a.AntModeEngine.Parking.{set_phase, is_maintenance, capture_nudge_base}
use station_a.AntModeEngine.Borrowing.{attach_borrow}
use station_a.AntModeEngine.Stepping.{unlock, new_lock, restart_park, mode_changed, entered}
use station_a.AntModeEngine.Frames.{attach_borrow-Moves}
use station_a.AntModeEngine.Fitting.{
  has_reached, Fitting, CfgFit, Sound, set_phase-Sound, Moves-Sound,
}

-- What an operation of the policy reports: the mode that was left, if any, and then the new one is
-- a defined one.
abbrev pub Reports : Policy → Option Mode → Policy → Type 0
Reports p none q = q.state.mode ≡ p.state.mode
Reports p (some m) q = (m ≡ p.state.mode) × (is_valid q.state.mode ≡ true)

is_normal-eq : (m : Mode) → is_normal m ≡ true → normal ≡ m
is_normal-eq Mode.normal h = refl
is_normal-eq Mode.storm h = cc
is_normal-eq Mode.maintenance h = cc
is_normal-eq (Mode.other t) h = cc

auto_storm-eq : (m : Mode) (s : Source) → auto_storm m s ≡ true → storm ≡ m
auto_storm-eq Mode.normal s h = cc
auto_storm-eq Mode.storm s h = refl
auto_storm-eq Mode.maintenance s h = cc
auto_storm-eq (Mode.other t) s h = cc

module _ (p : Policy) where
  abbrev pub Follows : Policy × Changes → Type 0
  Follows (q, c) = Reports p c.mode_changed q

  pub evaluate-Follows :
      (now : ℕ) (active : List Warning) (who : Presence) (hold : Bool)
      → Follows (evaluate now active who hold p)
  unfolding evaluate enter is_valid
  evaluate-Follows now active who hold =
      if-cases Follows
        (hold
          || (not (is_normal p.state.mode) || (not (is_unmanned who) || not p.config.auto_enter)))
        (λ h. refl)
        (λ h.
          if-both Follows (is_nil (unacked active p.state.acked)) refl
            (is_normal-eq p.state.mode (ground arith), refl))

  pub poll-Follows :
      ⦃f : Format⦄ (now : ℕ) (success : Bool) (active : List Warning)
      → Follows (poll now success active p)
  unfolding poll quiet_poll enter is_valid
  poll-Follows now success active = if-both Follows (not success) refl (
      if-cases Follows (not (is_auto_storm p.state)) (λ h. refl)
        (λ h. if-both Follows (not (is_nil active)) refl (
          if-both Follows (leb p.config.exit_holdoff (p.state.quiet_for + elapsed p.last_clean now))
            (auto_storm-eq p.state.mode p.state.source (ground arith), refl) refl)))

  abbrev pub Followed : Result Mode (Policy × Changes) → Type 0
  Followed (ok r) = Follows r
  Followed (err m) = Unit

  pub set_mode-Followed :
      ⦃f : Format⦄ (m : Mode) (now : ℕ) (active : List Warning) → Followed (set_mode m now active p)
  unfolding set_mode enter is_valid
  set_mode-Followed m now active =
      if-cases Followed (not (is_valid m)) (λ h. tt)
        (λ h.
          if-both Followed (same_mode m p.state.mode) refl
            (if-both Followed (is_normal m) (refl, ground arith) (refl, ground arith)))

module _ ⦃out : Outside⦄ where
  -- A borrow joins an engine that has a lock.
  attached : (d : Engine) (l : Lock) → d.lock ≡ some l → Sound d → Sound (attach_borrow d)
  attached d l h s = Moves-Sound d (attach_borrow d) l h (attach_borrow-Moves d) s

  set_phase-lock : (p : Phase) (d : Engine) → (set_phase p d).lock ≡ d.lock
  unfolding set_phase
  set_phase-lock p d = ground arith

  unlock-Sound : (e : Engine) → CfgFit e.cfg → is_normal e.pol.state.mode ≡ true → Sound (unlock e)
  unfolding unlock
  unlock-Sound e k n =
      set_phase-Sound idle (record e { lock = none; nudge_base = none }) k (n, refl)

  -- The engine with a new or restarted lock, its park starting.
  begun :
      (p : Phase) (d : Engine) (l : Lock)
      → d.lock ≡ some l
      → CfgFit d.cfg
      → Fitting d.pol.state.mode (some l) p
      → Sound (attach_borrow (capture_nudge_base (set_phase p d)))
  unfolding capture_nudge_base
  begun p d l h k f =
      attached (capture_nudge_base (set_phase p d)) l (set_phase-lock p d ∙ h)
        (set_phase-Sound p d k (rw h f))

  pub restart_park-Sound :
      (l : Lock) (e : Engine)
      → CfgFit e.cfg
      → Fitting e.pol.state.mode (some l) grounding
      → Sound (restart_park l e)
  unfolding restart_park capture_nudge_base
  restart_park-Sound l e k (a, b, c, d, q, r) =
      attached (capture_nudge_base (record (set_phase to cleared) { phase_since = e.now }))
        restarted (set_phase-lock to cleared)
        (set_phase-Sound to cleared k (
          a,
          b,
          c,
          d,
          tt,
          if-cases (λ p. has_reached p restarted ≡ true) l.retract (λ h. h) (λ h. refl),
        ))
    where
      restarted : Lock
      restarted = record l { seq = e.pol.state.seq; park_az = none }

      cleared : Engine
      cleared = record e { lock = some restarted; drift = none; fault = "" }

      to : Phase
      to = if l.retract then retracting else grounding

  pub mode_changed-Sound :
      (from : Mode) (e : Engine)
      → CfgFit e.cfg
      → is_valid e.pol.state.mode ≡ true
      → Fitting from e.lock e.phase
      → Sound (mode_changed from e)
  unfolding mode_changed new_lock
  mode_changed-Sound from e k v f =
      if-cases Sound (is_normal e.pol.state.mode)
        (λ n. unlock-Sound (record e { drift = none; fault = "" }) k n)
        (λ n.
          if-cases Sound (is_normal from)
            (λ o.
              begun grounding (record e { drift = none; fault = ""; lock = some (new_lock e) })
                (new_lock e) refl k (n, v, refl, refl, tt, refl))
            (λ o. switched n o e.lock f))
    where
      switched :
          is_normal e.pol.state.mode ≡ false
          → is_normal from ≡ false
          → (l : Option Lock) → Fitting from l e.phase
          → Sound (elim l [
            | none ↦ record e { drift = none; fault = "" }
            | some l ↦
                restart_park
                  (record l { nudge = is_maintenance e.pol.state.mode })
                  (record e { drift = none; fault = "" })
          ])
      switched n o none (g, h) = cc
      switched n o (some l) (a, b, c, d, q, r) =
          restart_park-Sound (record l { nudge = is_maintenance e.pol.state.mode })
            (record e { drift = none; fault = "" }) k (n, v, c, refl, q, refl)

  pub entered-Sound :
      (e : Engine) (r : Policy × Changes) → Sound e → Follows e.pol r → Sound (entered e r)
  unfolding entered
  entered-Sound e (p, c) (k, f) h = by c.mode_changed h
    where
      ends : Option Mode → Engine
      ends none = record e { pol = p }
      ends (some from) = mode_changed from (record e { pol = p })

      by : (o : Option Mode) → Reports e.pol o p → Sound (ends o)
      by none q = (k, subst (λ m. Fitting m e.lock e.phase) (sym q) f)
      by (some from) (q, v) =
          mode_changed-Sound from (record e { pol = p }) k v
            (subst (λ m. Fitting m e.lock e.phase) (sym q) f)
