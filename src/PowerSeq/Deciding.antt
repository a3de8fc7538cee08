-- ===== src/PowerSeq/Deciding.antt =====
-- powerseq/internal/seq/seq.go: when the idle logic acts.
use station_a.Base.{
  ℕ, ◌+◌, ◌≤◌, ◌<◌, true, false, some, ◌≡◌, ◌≢◌, ◌↔◌, ◌⊎◌, arith, eq_iff, inl, inr, [],
  Option-cases, Bool-cases,
}
use station_a.PowerSeq.Types.{running, standby, Runtime, Command, wake, idle_shutdown, Sequencer}
use station_a.PowerSeq.Inputs.{state_text}
use station_a.PowerSeq.Phases.{standby_enabled, is_empty}
use station_a.PowerSeq.Idle.{
  has_doc, activity_time, last_activity, may_decide, standby_due, wake_due, shutdown_due,
  idle_decision,
}

-- The idle logic is configured and neither offline nor held, nor waiting for the hold after a
-- reconnect.
pub record IsAwake (now : ℕ) (s : Sequencer) : Type 0 where
  pub configured : s.activity_slot ≢ ""
  pub connected : s.online ≡ true
  pub not_held : s.power_hold ≡ false
  pub hold_known :
      (s.ant_mode_slot ≡ "") ⊎ ((s.ant_mode_seen ≡ true) ⊎ (s.ant_mode_wait_until ≤ now))

-- The activity slot is fit and inactive, and running has lasted the idle timeout without a
-- counted watch change in it.
pub record IsQuiet ⦃rt : Runtime⦄ (now : ℕ) (s : Sequencer) : Type 0 where
  pub phase : s.phase ≡ running
  pub slot_online : s.status s.activity_slot ≡ "online"
  pub slot_seen : has_doc (s.state s.activity_slot) ≡ true
  pub device_fit : state_text (s.state s.activity_slot) "device_online" ≢ "false"
  pub inactive : state_text (s.state s.activity_slot) "activity" ≡ "inactive"
  pub ran : s.running_since + s.config.idle_timeout ≤ now
  pub still : s.last_watch + s.config.idle_timeout ≤ now

-- A counted watch change, or a later `last_activity`, since standby was entered.
pub record HasWoken ⦃rt : Runtime⦄ (s : Sequencer) : Type 0 where
  pub phase : s.phase ≡ standby
  pub moved :
      (s.standby_since < s.last_watch)
      ⊎ ((has_doc (s.state s.activity_slot) ≡ true)
          × ((t : ℕ) × (activity_time s ≡ some t) × (s.standby_since < t)))

-- Standby with no reason to wake, where every clock of the last activity ran out.
pub record IsExpired ⦃rt : Runtime⦄ (now : ℕ) (s : Sequencer) : Type 0 where
  pub phase : s.phase ≡ standby
  pub asleep : ¬ HasWoken s
  pub has_list : s.idle_shut ≢ []
  pub slot_seen : has_doc (s.state s.activity_slot) ≡ true
  pub ran : s.running_since + s.config.shutdown_timeout ≤ now
  pub still : s.last_watch + s.config.shutdown_timeout ≤ now
  pub held : s.hold_ended_at + s.config.shutdown_timeout ≤ now
  pub inactive : (t : ℕ) → activity_time s ≡ some t → t + s.config.shutdown_timeout ≤ now

module _ ⦃rt : Runtime⦄ (now : ℕ) (s : Sequencer) where
  allowed-IsAwake : standby_enabled s ≡ true → may_decide now s ≡ true → IsAwake now s
  unfolding may_decide standby_enabled
  allowed-IsAwake e h = ground (arith, eq_iff s.activity_slot "", eq_iff s.ant_mode_slot "")

  IsAwake-allowed : IsAwake now s → (standby_enabled s ≡ true) × (may_decide now s ≡ true)
  unfolding may_decide standby_enabled
  IsAwake-allowed h = ground (arith, eq_iff s.activity_slot "", eq_iff s.ant_mode_slot "")

  standby_due-in : standby_due now s ≡ true → s.phase ≡ running → IsQuiet now s
  unfolding standby_due
  standby_due-in h p = ground (
    arith,
    eq_iff (s.status s.activity_slot) "online",
    eq_iff (state_text (s.state s.activity_slot) "device_online") "false",
    eq_iff (state_text (s.state s.activity_slot) "activity") "inactive",
  )

  standby_due-out : IsQuiet now s → standby_due now s ≡ true
  unfolding standby_due
  standby_due-out h = ground (
    arith,
    eq_iff (s.status s.activity_slot) "online",
    eq_iff (state_text (s.state s.activity_slot) "device_online") "false",
    eq_iff (state_text (s.state s.activity_slot) "activity") "inactive",
  )

  wake_due-in : wake_due s ≡ true → s.phase ≡ standby → HasWoken s
  unfolding wake_due
  wake_due-in h p = ground arith

  wake_due-out : HasWoken s → wake_due s ≡ true
  unfolding wake_due
  wake_due-out h = ground arith

  allowed-of-some :
      {c : Command}
      → idle_decision now s ≡ some c
      → (standby_enabled s ≡ true) × (may_decide now s ≡ true)
  unfolding idle_decision
  allowed-of-some h = ground arith

  in_running :
      standby_enabled s ≡ true
      → may_decide now s ≡ true
      → (idle_decision now s ≡ some Command.standby)
        ↔ ((s.phase ≡ running) × (standby_due now s ≡ true))
  unfolding idle_decision
  in_running e m = (λ h. ground arith, λ h. ground arith)

  in_standby :
      standby_enabled s ≡ true
      → may_decide now s ≡ true
      → (idle_decision now s ≡ some wake) ↔ ((s.phase ≡ standby) × (wake_due s ≡ true))
  unfolding idle_decision
  in_standby e m = (λ h. ground arith, λ h. ground arith)

  in_long_standby :
      standby_enabled s ≡ true
      → may_decide now s ≡ true
      → (idle_decision now s ≡ some idle_shutdown)
        ↔ ((s.phase ≡ standby) × (wake_due s ≡ false) × (shutdown_due now s ≡ true))
  unfolding idle_decision
  in_long_standby e m = (λ h. ground arith, λ h. ground arith)

  shutdown_due-in :
      shutdown_due now s ≡ true → wake_due s ≡ false → s.phase ≡ standby → IsExpired now s
  unfolding shutdown_due last_activity is_empty
  shutdown_due-in h w p = record {
    phase = p;
    asleep = λ woken. cc (wake_due-out woken);
    has_list = ground arith;
    slot_seen = ground arith;
    ran = ground arith;
    still = ground arith;
    held = ground arith;
    inactive = λ t e. ground arith;
  }

  IsExpired-asleep : IsExpired now s → wake_due s ≡ false
  IsExpired-asleep x = elim (Bool-cases (wake_due s)) [
    | inl woken ↦ absurd (x.asleep (wake_due-in woken x.phase))
    | inr asleep ↦ asleep
  ]

  shutdown_due-out : IsExpired now s → shutdown_due now s ≡ true
  unfolding shutdown_due last_activity is_empty
  shutdown_due-out x = elim (Option-cases (activity_time s)) [
    | inl e ↦ ground arith
    | inr (t, e) ↦ ground (arith, x.inactive t e)
  ]

  idle_decision-standby_iff :
      (idle_decision now s ≡ some Command.standby) ↔ (IsAwake now s × IsQuiet now s)
  idle_decision-standby_iff = (
    λ h.
        let (e, m) = allowed-of-some h in
        let (p, d) = (in_running e m).0 h in (allowed-IsAwake e m, standby_due-in d p),
    λ h. let (e, m) = IsAwake-allowed h.0 in (in_running e m).1 (h.1.phase, standby_due-out h.1),
  )

  idle_decision-wake_iff : (idle_decision now s ≡ some wake) ↔ (IsAwake now s × HasWoken s)
  idle_decision-wake_iff = (
    λ h.
        let (e, m) = allowed-of-some h in
        let (p, d) = (in_standby e m).0 h in (allowed-IsAwake e m, wake_due-in d p),
    λ h. let (e, m) = IsAwake-allowed h.0 in (in_standby e m).1 (h.1.phase, wake_due-out h.1),
  )

  idle_decision-idle_shutdown_iff :
      (idle_decision now s ≡ some idle_shutdown) ↔ (IsAwake now s × IsExpired now s)
  idle_decision-idle_shutdown_iff = (
    λ h.
        let (e, m) = allowed-of-some h in
        let (p, w, d) = (in_long_standby e m).0 h in (allowed-IsAwake e m, shutdown_due-in d w p),
    λ h.
        let (e, m) = IsAwake-allowed h.0 in
        (in_long_standby e m).1 (h.1.phase, IsExpired-asleep h.1, shutdown_due-out h.1),
  )

  -- The idle logic orders a standby exactly when it may decide and the running station is quiet:
  -- the activity slot online, fit and inactive, and the idle timeout past since the entry into
  -- running and since the last counted watch change. It orders a wake exactly when it may decide
  -- and, in standby, a watch change was counted or a `last_activity` was reported later than the
  -- entry into standby. It orders the idle shutdown exactly when it may decide and the standby has
  -- expired: nothing woke the station, an idle-shutdown list is configured, the activity slot was
  -- seen, and the shutdown timeout is past since the entry into running, the last counted watch
  -- change, the last end of a power hold and the reported `last_activity`, if there is one.
  pub idle_decision_iff :
      ((idle_decision now s ≡ some Command.standby) ↔ (IsAwake now s × IsQuiet now s))
      × ((idle_decision now s ≡ some wake) ↔ (IsAwake now s × HasWoken s))
      × ((idle_decision now s ≡ some idle_shutdown) ↔ (IsAwake now s × IsExpired now s))
  idle_decision_iff =
      (idle_decision-standby_iff, idle_decision-wake_iff, idle_decision-idle_shutdown_iff)
