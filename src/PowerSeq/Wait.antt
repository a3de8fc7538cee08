-- ===== src/PowerSeq/Wait.antt =====
-- powerseq/internal/seq/seq.go: the polling loop of the wait steps, and their conditions.
use station_a.Base.{
  ℕ, ◌+◌, String, Bool, true, false, not, ◌&&◌, ◌||◌, Option, none, some, List, [], ◌∷◌, str_eq,
  ltb, leb, ◌==◌, all, if◌then◌else◌,
}
use station_a.PowerSeq.Types.{Runtime, ResolvedStep, Sequencer}
use station_a.PowerSeq.Inputs.{is_online, state_field}
use station_a.PowerSeq.Observe.{Moment, Outcome, done, failed, blocked, resume}

-- One round of the loop of `wait`: it ends, or goes on with the start of the hold window.
pub data Verdict : Type 0 where
  gives_up : String → Verdict
  holds : Verdict
  goes_on : Option ℕ → Verdict

-- `heldSince` while the condition holds.
abbrev pub hold_start : Option ℕ → ℕ → ℕ
hold_start none now = now
hold_start (some t) now = t

unfoldable pub hold_verdict : ℕ → ℕ → ℕ → Verdict
hold_verdict hold since now =
    if hold == 0 || leb (since + hold) now then holds else goes_on (some since)

unfoldable pub verdict : ℕ → ℕ → Option ℕ → Bool → Sequencer → Verdict
unfolding hold_verdict
verdict deadline hold held met s =
    if s.world.cancelled
    then gives_up "interrupted"
    else if not s.online
    then gives_up "broker disconnected"
    else if ltb deadline s.world.now
    then gives_up "timeout"
    else if met
    then hold_verdict hold (hold_start held s.world.now) s.world.now
    else goes_on none

module _ ⦃rt : Runtime⦄ where
  -- The loop of `wait`: it sleeps the poll interval between two rounds.
  unfoldable pub wait_loop :
      ℕ → ℕ → (Sequencer → Bool) → Option ℕ → Sequencer → List Moment → Outcome
  wait_loop deadline hold cond held s [] = elim (verdict deadline hold held (cond s) s) [
    | gives_up reason ↦ failed reason s []
    | holds ↦ done s []
    | goes_on since ↦ blocked s
  ]
  wait_loop deadline hold cond held s (m ∷ script) = elim (verdict deadline hold held (cond s) s) [
    | gives_up reason ↦ failed reason s (m ∷ script)
    | holds ↦ done s (m ∷ script)
    | goes_on since ↦ elim (resume m s).world.cancelled [
      | true ↦ failed "interrupted" (resume m s) script
      | false ↦ wait_loop deadline hold cond since (resume m s) script
    ]
  ]

  unfoldable pub wait : ResolvedStep → (Sequencer → Bool) → Sequencer → List Moment → Outcome
  unfolding wait_loop verdict
  wait st cond s script = wait_loop (s.world.now + st.timeout) st.hold cond none s script

  -- The condition of `wait_status` on one slot.
  unfoldable pub slot_passes : String → Sequencer → String → Bool
  slot_passes want s slot =
      if str_eq want "online" then is_online s slot else str_eq (s.status slot) want

  unfoldable pub status_met : ResolvedStep → Sequencer → Bool
  unfolding slot_passes
  status_met st s = all (slot_passes st.state s) st.slots

  unfoldable pub state_met : ResolvedStep → Sequencer → Bool
  state_met st s = is_online s st.slot && str_eq (state_field s st.slot st.field) st.value
