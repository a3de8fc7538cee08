-- ===== src/PowerSeq/Run.antt =====
-- powerseq/internal/seq/seq.go: executing a step, a whole sequence, and one wake-up of the runner.
use station_a.Base.{
  String, str_append, true, false, ◌||◌, Option, none, some, List, [], ◌∷◌, str_eq, map, lookup,
  trim_prefix, join, if◌then◌else◌,
}
use station_a.PowerSeq.Types.{
  Phase, Runtime, Value, Doc, nil_map, object, cmd, wait_status, wait_state, delay, wol, other_kind,
  Kind, ResolvedStep, Sequencer, Command, sent_cmd, sent_wol,
}
use station_a.PowerSeq.Inputs.{field_of, coerce_to_string}
use station_a.PowerSeq.Phases.{set_step, set_phase, abort, begin, publish_state}
use station_a.PowerSeq.Idle.{idle_decision}
use station_a.PowerSeq.Persist.{persist}
use station_a.PowerSeq.Observe.{Moment, Outcome, done, failed, blocked, sleep}
use station_a.PowerSeq.Wait.{wait, status_met, state_met}

-- The `cmd` kind. A publish that timed out is an error, but may have been sent.
unfoldable pub exec_cmd : ResolvedStep → Sequencer → List Moment → Outcome
exec_cmd st s script =
    let sent = record s {
      outbox = sent_cmd (str_append st.slot "/cmd") st.retain st.action st.value ∷ s.outbox;
    } in
    if s.online
    then elim s.world.publish_error [
      | some e ↦
          failed (str_append "publish failed: " e) (if s.world.handed_over then sent else s) script
      | none ↦ done sent script
    ]
    else failed "broker disconnected" s script

-- The `wol` kind.
unfoldable pub exec_wol : ResolvedStep → Sequencer → List Moment → Outcome
exec_wol st s script = elim s.world.wol_error [
  | some e ↦ failed (str_append "wol failed: " e) s script
  | none ↦ done (record s { outbox = sent_wol st.mac st.broadcast ∷ s.outbox }) script
]

-- What wakes the runner.
pub data WakeUp : Type 0 where
  tick command republish : WakeUp

-- How a sequence ends: it returns, in the end phase or aborted, or is still under way.
pub data Ending : Type 0 where
  completed aborted : Sequencer → List Moment → Ending
  underway : Sequencer → Ending

module _ ⦃rt : Runtime⦄ where
  device_part : Option Value → String
  device_part none = ""
  device_part (some v) = str_append " device_online=" (coerce_to_string v)

  field_part : String → Doc → String
  field_part field m =
      if str_eq field "" || str_eq field "device_online"
      then ""
      else str_append " " (str_append field (str_append "=" (coerce_to_string (field_of m field))))

  doc_part : String → Option Doc → String
  unfolding device_part field_part
  doc_part field none = " state=none"
  doc_part field (some nil_map) = field_part field nil_map
  doc_part field (some (object members)) =
      str_append (device_part (lookup "device_online" members)) (field_part field (object members))

  -- `observed`
  unfoldable pub observed : Sequencer → String → String → String
  unfolding doc_part
  observed s field slot = str_append (trim_prefix slot (str_append s.config.site "/")) (
      str_append " status=" (
        str_append (if str_eq (s.status slot) "" then "none" else s.status slot)
          (doc_part field (s.state slot))))

  -- `withObserved`
  unfoldable pub with_observed : List String → String → Outcome → Outcome
  unfolding observed
  with_observed slots field (done s script) = done s script
  with_observed slots field (blocked s) = blocked s
  with_observed slots field (failed reason s script) =
      failed
        (if str_eq reason "timeout"
          then str_append reason
              (str_append " (" (str_append (join "; " (map (observed s field) slots)) ")"))
          else reason)
        s script

  unfoldable pub exec_kind : Kind → ResolvedStep → Sequencer → List Moment → Outcome
  exec_kind cmd st s script = exec_cmd st s script
  exec_kind delay st s script = sleep st.duration s script
  exec_kind wol st s script = exec_wol st s script
  exec_kind wait_status st s script = with_observed st.slots "" (wait st (status_met st) s script)
  exec_kind wait_state st s script =
      with_observed (st.slot ∷ []) st.field (wait st (state_met st) s script)
  exec_kind (other_kind k) st s script = failed (str_append "unknown step kind " k) s script

  -- `execStep`
  unfoldable pub exec_step : ResolvedStep → Sequencer → List Moment → Outcome
  unfolding exec_kind
  exec_step st s script = exec_kind st.kind st s script

  -- `runSequence`
  unfoldable pub run_sequence : List ResolvedStep → Phase → Sequencer → List Moment → Ending
  run_sequence [] end_phase s script = completed (set_phase end_phase "" "" s) script
  run_sequence (st ∷ steps) end_phase s script = elim s.world.cancelled [
    | true ↦ aborted (abort (str_append st.name ": interrupted") s) script
    | false ↦ elim (exec_step st (set_step st.name s) script) [
      | failed reason s' rest ↦
          aborted (abort (str_append st.name (str_append ": " reason)) s') rest
      | blocked s' ↦ underway s'
      | done s' rest ↦ run_sequence steps end_phase s' rest
    ]
  ]

  -- `begin` and the sequence it starts; `none` when the guard refuses.
  unfoldable pub run_command : Command → Sequencer → List Moment → Option Ending
  run_command c s script = elim (begin c s) [
    | none ↦ none
    | some q ↦ some (run_sequence q.steps q.end_phase q.state script)
  ]

  -- A wake-up of `Run` that leads to no sequence leaves the sequencer in this state; the others
  -- run one. The command at the head of the queue has been taken off.
  abbrev pub ending_or : Sequencer → List Moment → Option Ending → Ending
  ending_or s script none = completed s script
  ending_or s script (some e) = e

  abbrev pub decided : Option Command → Sequencer → List Moment → Ending
  decided none s script = completed s script
  decided (some c) s script = ending_or s script (run_command c s script)

  -- The idle tick.
  unfoldable pub wake_tick : Sequencer → List Moment → Ending
  wake_tick s script =
      let t = persist s.world.now true s in decided (idle_decision t.world.now t) t script

  unfoldable pub take_command : List Command → Sequencer → List Moment → Ending
  take_command [] s script = completed s script
  take_command (c ∷ cs) s script =
      let t = record s { queue = cs } in ending_or t script (run_command c t script)

  -- The next queued command.
  unfoldable pub wake_command : Sequencer → List Moment → Ending
  wake_command s script = take_command s.queue s script

  -- A request to publish the state again.
  unfoldable pub wake_republish : Sequencer → List Moment → Ending
  wake_republish s script = completed (publish_state (record s { republish = false })) script

  -- The `select` of `Run`: one of the three wakes the runner.
  unfoldable pub wake_up : WakeUp → Sequencer → List Moment → Ending
  wake_up tick s script = wake_tick s script
  wake_up command s script = wake_command s script
  wake_up republish s script = wake_republish s script

-- The entry of `Run`, before its loop.
unfoldable pub run_entry : Sequencer → Sequencer
run_entry s = publish_state (persist s.world.now false s)

-- The end of `Run`, deferred: what the idle ticks left unwritten is flushed to the state file.
unfoldable pub run_exit : Sequencer → Sequencer
run_exit s = persist s.world.now false s
