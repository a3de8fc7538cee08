-- ===== src/PowerSeq/Phases.antt =====
-- powerseq/internal/seq/seq.go: the phase transitions, the operator's requests, and the runner's
-- authoritative guard `begin`.
use station_a.Base.{
  ℕ, ◌+◌, String, Bool, true, false, not, ◌&&◌, Option, none, some, List, [], ◌∷◌, ◌++◌, str_eq,
  ltb, length, if◌then◌else◌,
}
use station_a.PowerSeq.Types.{
  Phase, idle, starting, running, stopping, entering_standby, standby, waking, ResolvedStep,
  Command, start, stop, wake, idle_shutdown, sent_state, Sequencer,
}
use station_a.PowerSeq.Persist.{persist, eqb_phase}

unfoldable pub standby_enabled : Sequencer → Bool
standby_enabled s = not (str_eq s.activity_slot "")

unfoldable pub is_empty : List ResolvedStep → Bool
is_empty [] = true
is_empty (x ∷ xs) = false

-- `publishState`: an error is logged only, and does not say that nothing was sent.
unfoldable pub publish_state : Sequencer → Sequencer
publish_state s =
    let sent = record s { outbox = sent_state s.phase s.step s.fault s.stop_reason ∷ s.outbox } in
    elim s.world.publish_error [ none ↦ sent | some e ↦ if s.world.handed_over then sent else s ]

-- The entry times that `setPhase` stamps.
abbrev entered : Phase → Phase → ℕ → ℕ → Phase → ℕ
entered target next now old prev =
    if eqb_phase next target && not (eqb_phase prev target) then now else old

-- `setPhase` before it persists and publishes.
unfoldable pub move_phase : Phase → String → String → Sequencer → Sequencer
move_phase p step fault s = record s {
  running_since = entered running p s.world.now s.running_since s.phase;
  standby_since = entered standby p s.world.now s.standby_since s.phase;
  settle_until =
      if eqb_phase s.phase p then s.settle_until else s.world.now + s.config.watch_settle;
  phase = p;
  step = step;
  fault = fault;
}

unfoldable pub record_state : Sequencer → Sequencer
unfolding persist publish_state
record_state s = publish_state (persist s.world.now false s)

unfoldable pub set_phase : Phase → String → String → Sequencer → Sequencer
unfolding move_phase record_state
set_phase p step fault s = record_state (move_phase p step fault s)

unfoldable pub set_step : String → Sequencer → Sequencer
unfolding record_state
set_step step s = record_state (record s { step = step; fault = "" })

-- `abort`: back to idle with a fault, and no rollback.
unfoldable pub abort : String → Sequencer → Sequencer
unfolding set_phase
abort reason s = set_phase idle "" reason s

-- What an operator may ask for in a phase; the fast test of `request`.
unfoldable pub request_allowed : Command → Phase → Bool
request_allowed start idle = true
request_allowed start standby = true
request_allowed stop running = true
request_allowed stop idle = true
request_allowed stop standby = true
request_allowed c p = false

-- `request`: queued if allowed and the queue (of four) has room, dropped otherwise.
unfoldable pub request : Command → Sequencer → Sequencer
unfolding request_allowed
request c s =
    if request_allowed c s.phase && ltb (length s.queue) 4
    then record s { queue = s.queue ++ c ∷ [] }
    else s

unfoldable pub request_republish : Sequencer → Sequencer
request_republish s = record s { republish = true }

pub record Sequence : Type 0 where
  pub steps : List ResolvedStep
  pub end_phase : Phase
  pub state : Sequencer

abbrev pub go : Phase → List ResolvedStep → Phase → Sequencer → Option Sequence
go mid steps end_phase s = some (record {
  steps = steps;
  end_phase = end_phase;
  state = record s { phase = mid; step = ""; fault = "" };
})

abbrev pub stop_for : String → Sequencer → Sequencer
stop_for reason s = record s { stop_reason = reason }

-- The switch of `begin` on command and phase, under the lock.
unfoldable pub dispatch : Command → Phase → Sequencer → Option Sequence
dispatch start idle s = go starting s.startup running (stop_for "" s)
dispatch start standby s = go waking s.wake running s
dispatch stop running s = go stopping s.shutdown idle (stop_for "operator" s)
dispatch stop idle s = go stopping s.shutdown idle (stop_for "operator" s)
dispatch stop standby s = go stopping s.shutdown idle (stop_for "operator" s)
dispatch idle_shutdown standby s =
    if not (is_empty s.idle_shut)
    then go stopping s.idle_shut idle (stop_for "idle_shutdown" s)
    else none
dispatch Command.standby running s =
    if standby_enabled s then go entering_standby s.standby standby s else none
dispatch wake standby s = if standby_enabled s then go waking s.wake running s else none
dispatch c p s = none

abbrev pub recorded : Sequence → Sequence
recorded q = record q { state = record_state q.state }

-- `begin`: the mid-phase is on disk and published before the first step runs.
unfoldable pub begin : Command → Sequencer → Option Sequence
unfolding dispatch
begin c s = elim (dispatch c s.phase s) [ none ↦ none | some q ↦ some (recorded q) ]
