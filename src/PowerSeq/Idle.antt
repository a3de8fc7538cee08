-- ===== src/PowerSeq/Idle.antt =====
-- powerseq/internal/seq/seq.go: the idle decision and the idle-shutdown clock.
use station_a.Base.{
  ℕ, ◌+◌, Bool, true, false, not, ◌&&◌, ◌||◌, Option, none, some, str_eq, ltb, leb, if◌then◌else◌,
}
use station_a.PowerSeq.Types.{
  Phase, running, standby, Runtime, Doc, nil_map, object, Command, wake, idle_shutdown, Sequencer,
}
use station_a.PowerSeq.Inputs.{state_text}
use station_a.PowerSeq.Phases.{standby_enabled, is_empty}

-- `m != nil`: a document that is an object.
abbrev pub has_doc : Option Doc → Bool
has_doc none = false
has_doc (some nil_map) = false
has_doc (some (object m)) = true

abbrev pub later : ℕ → ℕ → ℕ
later a b = if ltb b a then a else b

abbrev or_earlier : Option ℕ → ℕ → ℕ
or_earlier none t = t
or_earlier (some a) t = later a t

abbrev after_time : Option ℕ → ℕ → Bool
after_time none t = false
after_time (some a) t = ltb t a

module _ ⦃rt : Runtime⦄ where
  -- The parsed `last_activity` of the activity slot, if it has one.
  unfoldable pub activity_time : Sequencer → Option ℕ
  activity_time s = rt.parse_time (state_text (s.state s.activity_slot) "last_activity")

  -- `lastActivityLocked`
  unfoldable pub last_activity : Sequencer → ℕ
  last_activity s =
      or_earlier (activity_time s) (later s.hold_ended_at (later s.last_watch s.running_since))

  -- The broker is up, no power hold is on, and the hold is not unknown after a reconnect.
  unfoldable pub may_decide : ℕ → Sequencer → Bool
  may_decide now s =
      s.online
      && (not s.power_hold
          && not (
              not (str_eq s.ant_mode_slot "")
              && (not s.ant_mode_seen && ltb now s.ant_mode_wait_until)))

  unfoldable pub standby_due : ℕ → Sequencer → Bool
  standby_due now s =
      let m = s.state s.activity_slot in
      str_eq (s.status s.activity_slot) "online"
      && (has_doc m
          && (not (str_eq (state_text m "device_online") "false")
              && (str_eq (state_text m "activity") "inactive"
                  && (leb (s.running_since + s.config.idle_timeout) now
                      && leb (s.last_watch + s.config.idle_timeout) now))))

  unfoldable pub wake_due : Sequencer → Bool
  wake_due s =
      ltb s.standby_since s.last_watch
      || has_doc (s.state s.activity_slot) && after_time (activity_time s) s.standby_since

  unfoldable pub shutdown_due : ℕ → Sequencer → Bool
  shutdown_due now s =
      not (is_empty s.idle_shut)
      && (has_doc (s.state s.activity_slot)
          && leb (last_activity s + s.config.shutdown_timeout) now)

  decide_in : Phase → ℕ → Sequencer → Option Command
  decide_in running now s = if standby_due now s then some Command.standby else none
  decide_in standby now s =
      if wake_due s then some wake else if shutdown_due now s then some idle_shutdown else none
  decide_in p now s = none

  -- `idleDecision`; `none` is the empty command.
  unfoldable pub idle_decision : ℕ → Sequencer → Option Command
  unfolding decide_in
  idle_decision now s =
      if standby_enabled s && may_decide now s then decide_in s.phase now s else none
