-- ===== src/PowerSeq/Observe.antt =====
-- powerseq/internal/seq/seq.go: what reaches the sequencer while its runner is suspended. Between
-- two of the runner's steps lies a suspension (a sleep, or the wait for the next wake-up). A
-- `Moment` says what happens during one: the observations that the mqtt layer reports, in order,
-- and the outside as the runner finds it afterwards. A run over a list of moments is `blocked`
-- when the moments end before the code does.
use station_a.Base.{ℕ, zero, suc, String, Bool, Option, List, [], ◌∷◌, if◌then◌else◌}
use station_a.AntMode.{Payload}
use station_a.PowerSeq.Types.{Runtime, Doc, World, Sequencer, Command}
use station_a.PowerSeq.Inputs.{set_status, set_state, set_broker_online, set_ant_mode}
use station_a.PowerSeq.Phases.{request, request_republish}

pub data Observation : Type 0 where
  status_seen : (slot : String) → Bool → Observation
  state_seen : (slot : String) → Option Doc → Observation
  broker_seen : Bool → Observation
  ant_mode_seen : Payload → Observation
  requested : Command → Observation
  republish_asked : Observation

-- An observation, and the clock when it is made.
pub record Arrival : Type 0 where
  pub at : ℕ
  pub what : Observation

pub record Moment : Type 0 where
  pub arrivals : List Arrival
  pub world : World

pub data Outcome : Type 0 where
  done : Sequencer → List Moment → Outcome
  failed : (reason : String) → Sequencer → List Moment → Outcome
  blocked : Sequencer → Outcome

-- `Start` and `Stop` are the only requests from outside.
unfoldable pub ask : Command → Sequencer → Sequencer
ask Command.start s = request Command.start s
ask Command.stop s = request Command.stop s
ask c s = s

-- The end of a sleep.
unfoldable pub woken : Sequencer → List Moment → Outcome
woken s script = if s.world.cancelled then failed "interrupted" s script else done s script

module _ ⦃rt : Runtime⦄ where
  unfoldable pub observe : Observation → Sequencer → Sequencer
  observe (status_seen slot b) s = set_status slot b s
  observe (state_seen slot d) s = set_state slot d s
  observe (broker_seen b) s = set_broker_online b s
  observe (ant_mode_seen p) s = set_ant_mode p s
  observe (requested c) s = ask c s
  observe republish_asked s = request_republish s

  unfoldable pub arrive : Arrival → Sequencer → Sequencer
  arrive a s = observe a.what (record s { world = record (s.world) { now = a.at } })

  unfoldable pub observe_all : List Arrival → Sequencer → Sequencer
  observe_all [] s = s
  observe_all (o ∷ os) s = observe_all os (arrive o s)

  -- What a suspension does to the sequencer.
  unfoldable pub resume : Moment → Sequencer → Sequencer
  resume m s = record (observe_all m.arrivals s) { world = m.world }

  -- `sleepCtx`
  unfoldable pub sleep : ℕ → Sequencer → List Moment → Outcome
  unfolding woken
  sleep zero s script = woken s script
  sleep (suc d) s [] = blocked s
  sleep (suc d) s (m ∷ script) = woken (resume m s) script
