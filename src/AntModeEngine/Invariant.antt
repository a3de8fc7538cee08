-- ===== src/AntModeEngine/Invariant.antt =====
-- antmode/internal/engine/engine.go: everything that reaches the engine, in any order, and the
-- invariant it keeps.
use station_a.Base.{
  subst, ℕ, Bool, true, false, ◌&&◌, Option, none, some, List, [], ◌∷◌, ◌++◌, length, ltb, ◌≡◌,
  refl, sym, is_some, if-both, if◌then◌else◌, ok, err, Result,
}
use station_a.AntMode.{Mode, Lock}
use station_a.AntModePolicy.Types.{Policy, Format, Changes, is_normal}
use station_a.AntModePolicy.Acting as Acting
use station_a.AntModeEngine.Types.{
  Phase, grounding, Notice, Action, set_ant_mode, dismiss_suggestion, unknown_action, Command,
  command, cmd_cleared, Engine, Outside,
}
use station_a.AntModeEngine.Publishing.{
  active_at, attempt, persist, publish_state, track_presence, presence,
}
use station_a.AntModeEngine.Stepping.{
  restart_park, entered, note_tx, auto_enter, late_borrow, step_lock, step,
}
use station_a.AntModeEngine.Borrowing.{step_borrow}
use station_a.AntModeEngine.Inputs.{
  is_dropped, advanced, input_changed, set_mode_cmd, repark_cmd, act, apply_cmd, apply_all, cmd,
  become_ready, hold_over, tick, nina_ready, nina_result,
}
use station_a.AntModeEngine.Frames.{
  note_tx-Same, track_presence-Same, persist-Same, publish_state-Same, step_borrow-Same,
}
use station_a.AntModeEngine.Fitting.{Fitting, Sound, Same-Sound}
use station_a.AntModeEngine.Keeping.{step_lock-Sound, late_borrow-Sound}
use station_a.AntModeEngine.Entering.{
  Followed, evaluate-Follows, poll-Follows, set_mode-Followed, restart_park-Sound, entered-Sound,
}

module _ ⦃out : Outside⦄ (e : Engine) where
  auto_enter-Sound : Sound e → Sound (auto_enter e)
  unfolding auto_enter
  auto_enter-Sound s =
      entered-Sound e (Acting.evaluate e.now (active_at e.now e.warnings) (presence e) false e.pol)
        s (evaluate-Follows e.pol e.now (active_at e.now e.warnings) (presence e) false)

module _ ⦃out : Outside⦄ where
  step-Sound : (e : Engine) → Sound e → Sound (step e)
  unfolding step
  step-Sound e s = Same-Sound locked (step_borrow locked) (step_borrow-Same locked) (
      step_lock-Sound (late_borrow (auto_enter tracked)) (
        late_borrow-Sound (auto_enter tracked) (
          auto_enter-Sound tracked (
            Same-Sound (note_tx e) tracked (track_presence-Same (note_tx e))
              (Same-Sound e (note_tx e) (note_tx-Same e) s)))))
    where
      tracked : Engine
      tracked = track_presence (note_tx e)

      locked : Engine
      locked = step_lock (late_borrow (auto_enter tracked))

module _ ⦃out : Outside⦄ ⦃f : Format⦄ where
  pub advanced-Sound : (force : Bool) (e : Engine) → Sound e → Sound (advanced force e)
  unfolding advanced
  advanced-Sound force e s =
      Same-Sound (persist (step e)) (publish_state force (persist (step e)))
        (publish_state-Same (persist (step e)) force)
        (Same-Sound (step e) (persist (step e)) (persist-Same (step e)) (step-Sound e s))

  pub input_changed-Sound : (e : Engine) → Sound e → Sound (input_changed e)
  unfolding input_changed
  input_changed-Sound e s = if-both Sound e.ready (advanced-Sound false e s) s

  set_mode_cmd-Sound : (m : Mode) (e : Engine) → Sound e → Sound (set_mode_cmd m e)
  unfolding set_mode_cmd
  set_mode_cmd-Sound m e s =
      by (Acting.set_mode m e.now (active_at e.now e.warnings) e.pol)
        (set_mode-Followed e.pol m e.now (active_at e.now e.warnings))
    where
      by :
          (r : Result Mode (Policy × Changes))
          → Followed e.pol r
          → Sound (elim r [ err m' ↦ e | ok q ↦ entered e q ])
      by (err m') h = s
      by (ok r) h = entered-Sound e r s h

  polled : (now : ℕ) (p : Policy) → (Acting.poll now false [] p).0.state.mode ≡ p.state.mode
  unfolding Acting.poll
  polled now p = refl

  repark_cmd-Sound : (e : Engine) → Sound e → Sound (repark_cmd e)
  unfolding repark_cmd Acting.repark
  repark_cmd-Sound e s = by e.lock refl
    where
      pol : Policy
      pol = (Acting.repark e.pol).0

      kept : pol.state.mode ≡ e.pol.state.mode
      kept =
          if-both (λ (r : Policy × Changes). r.0.state.mode ≡ e.pol.state.mode)
            (is_normal e.pol.state.mode) refl refl

      repolled :
          (l : Option Lock) (p : Phase) → Fitting e.pol.state.mode l p → Fitting pol.state.mode l p
      repolled l p g = subst (λ m. Fitting m l p) (sym kept) g

      ends : Option Lock → Engine
      ends none = record e { pol = pol }
      ends (some l) =
          if (Acting.repark e.pol).1.reparked then restart_park l (record e { pol = pol }) else e

      started :
          (l : Lock) (p : Phase)
          → Fitting e.pol.state.mode (some l) p
          → Fitting e.pol.state.mode (some l) grounding
      started l p (a, b, c, d, q, r) = (a, b, c, d, q, refl)

      by : (o : Option Lock) → e.lock ≡ o → Sound (ends o)
      by none h = (s.0, repolled e.lock e.phase s.1)
      by (some l) h =
          if-both Sound (Acting.repark e.pol).1.reparked
            (restart_park-Sound l (record e { pol = pol }) s.0
              (repolled (some l) grounding
                (started l e.phase (subst (λ o. Fitting e.pol.state.mode o e.phase) h s.1))))
            s

  act-Sound : (a : Action) (e : Engine) → Sound e → Sound (act a e)
  unfolding act Acting.dismiss
  act-Sound (set_ant_mode none) e s = s
  act-Sound (set_ant_mode (some m)) e s = set_mode_cmd-Sound m e s
  act-Sound Action.repark e s = repark_cmd-Sound e s
  act-Sound dismiss_suggestion e s = s
  act-Sound unknown_action e s = s

  apply_cmd-Sound : (c : Command) (e : Engine) → Sound e → Sound (apply_cmd c e)
  unfolding apply_cmd
  apply_cmd-Sound (command t a) e s = if-both Sound (is_dropped t e.now) s (act-Sound a e s)
  apply_cmd-Sound Command.empty e s = s
  apply_cmd-Sound Command.undecodable e s = s

  apply_all-Sound : (cs : List Command) (e : Engine) → Sound e → Sound (apply_all cs e)
  unfolding apply_all
  apply_all-Sound [] e s = s
  apply_all-Sound (c ∷ cs) e s = apply_all-Sound cs (apply_cmd c e) (apply_cmd-Sound c e s)

  received :
      (c : Command) (e : Engine)
      → Sound e
      → Sound (
          let cleared = attempt cmd_cleared e in
          if e.ready
          then advanced false (apply_cmd c cleared)
          else if ltb (length e.pending_cmds) 8
          then record cleared { pending_cmds = e.pending_cmds ++ c ∷ [] }
          else cleared)
  received c e s =
      if-both Sound e.ready
        (advanced-Sound false (apply_cmd c (attempt cmd_cleared e))
          (apply_cmd-Sound c (attempt cmd_cleared e) s))
        (if-both Sound (ltb (length e.pending_cmds) 8)
          {x = record (attempt cmd_cleared e) { pending_cmds = e.pending_cmds ++ c ∷ [] }}
          {y = attempt cmd_cleared e} s s)

  pub cmd-Sound : (c : Command) (e : Engine) → Sound e → Sound (cmd c e)
  unfolding cmd
  cmd-Sound Command.empty e s = s
  cmd-Sound Command.undecodable e s = received Command.undecodable e s
  cmd-Sound (command t a) e s = received (command t a) e s

  pub become_ready-Sound : (e : Engine) → Sound e → Sound (become_ready e)
  unfolding become_ready
  become_ready-Sound e s =
      advanced-Sound true (apply_all e.pending_cmds d) (apply_all-Sound e.pending_cmds d s)
    where
      d : Engine
      d = record e {
        ready = true;
        adopt = false;
        phase_since = e.now;
        borrow_clock = if is_some e.borrow then e.now else e.borrow_clock;
        pending_cmds = [];
      }

  pub tick-Sound : (e : Engine) → Sound e → Sound (tick e)
  unfolding tick
  tick-Sound e s =
      if-both Sound e.ready (advanced-Sound false e s)
        (if-both Sound (e.connected && hold_over e.first_connect e.now) (become_ready-Sound e s) s)

  pub nina_result-Sound :
      (r : Option (List Notice)) (e : Engine) → Sound e → Sound (nina_result r e)
  unfolding nina_result nina_ready
  nina_result-Sound none e s =
      if-both Sound e.ready
        (advanced-Sound false (nina_ready none e)
          (s.0, subst (λ m. Fitting m e.lock e.phase) (sym (polled e.now e.pol)) s.1))
        s
  nina_result-Sound (some ws) e s =
      if-both Sound e.ready
        (advanced-Sound false (nina_ready (some ws) e) (
          entered-Sound (record e { warnings = ws; warn_ok = true })
            (Acting.poll e.now true (active_at e.now ws) e.pol) s
            (poll-Follows e.pol e.now true (active_at e.now ws))))
        s
