-- ===== src/Lib.antt =====
-- Verification library of StationA's core logic: the power sequencer, the antenna selection, the
-- antenna-mode policy, the contract that ties them together, and how the bridges of the rotator and
-- of the Ultrabeam obey it, with the wire formats of two bridges. The daemons are separate programs
-- that meet on an MQTT bus: each owns a slot with a retained /state, reads the /state and /status
-- of others and takes commands on /cmd. Modelled are the parts that decide; the broker client,
-- files and sockets are outside, and what they answer enters as data.
--
-- - Base: shared names, Boolean tests, lists, results, integers and texts.
-- - Schema: the addresses of the bus (shared/schema/schema.go).
-- - AntMode: the antenna-mode slot as its consumers read it (shared/antmode/antmode.go). A payload
--   is what trimming and JSON decoding leave: nothing, garbage or a decoded snapshot. Reading
--   holds the theorem on Parse.
-- - AntModePolicy: who put the station into a mode and when automation may change it
--   (antmode/internal/policy/policy.go): SetMode is set_mode, Poll is poll, Evaluate is evaluate,
--   and so on. Types holds the state and the sets of warning ids, Acting the operations. Sorted
--   search is written as the walk to the first text that is not smaller, which is what it finds in
--   a sorted list; TextOrder is about that order. Package fmt is a parameter. Deciding, Standing,
--   Setting, Acknowledging and Remembering hold the theorems.
-- - AntModeEngine: the engine of the antenna mode (antmode/internal/engine/engine.go) and the storm
--   heading (antmode/internal/heading/heading.go). The one mutable Engine is passed from state to
--   state; it keeps all that it published, commanded and wrote, the newest first, each with whether
--   it succeeded, and the clock of the running operation.
--   + Types: Engine, Persisted, State (here Snapshot) and the rest of the data. Heading: Storm.
--   + Parking: setPhase, computePark, atPark, nudged, parked. Publishing: presence, powerHold,
--     CurrentState, persist, publishState. Borrowing: startBorrowIfNeeded, attachBorrow, stepBorrow.
--     Stepping: modeChanged, restartPark, stepLock, step. Startup: New, normalizeLoaded, OwnState.
--     Inputs: Cmd, Tick, NinaResult, WindResult and the handlers of the other slots.
--   + The record Outside says whether each publication or write succeeds and what json.Marshal
--     prints, and has the arithmetic on azimuths. Histories puts the inputs into one type.
--   + Frames, Fitting, Keeping, Entering, Invariant, Loading, Histories, Guards, Order, Carrying,
--     Remaining, Restarting, Published, Lending and Bearing hold the theorems; Published is about
--     the gate, the antenna controller and the sequencer that read what the engine publishes.
-- - AntennaSelect: the ladder Resolve, portForBand and Next
--   (antennaselect/internal/reconcile/reconcile.go), and the inversion of the wiring map
--   (antennaselect/internal/config/config.go). Ladder, Emitting and Wiring hold
--   the theorems.
-- - PowerSeq: the sequencer (powerseq/internal/seq/seq.go and persist.go).
--   + Types: Config, Step, Sequencer and the rest of the data. The one mutable Sequencer is passed
--     from state to state; it carries its surroundings (clock, context, what publishing and
--     writing would answer), the state file on disk and everything sent, the newest first. A
--     publish that reports an error was handed to the client (and counts as sent) or was not:
--     World.handed_over says which.
--   + Inputs: SetStatus, SetState, SetBrokerOnline, SetAntMode and the watches.
--   + Persist: the state file. Phases: setPhase, abort, request, begin. Idle: idleDecision.
--   + Observe: what reaches the sequencer while its runner sleeps; a Moment is one suspension.
--     Wait: the loop of wait. Run: execStep, runSequence and one round of Run.
--   + Resolve: New and resolve.
--   + Deciding, Waiting, Frames, Sending, Invariant, Restarting, Crashing, Watching and
--     Configuring hold the theorems.
-- - RotatorLock: the gate between every control path and the rotator
--   (wrc-rotator-bridge/internal/lock/gate.go). Types holds Gate and its data, Acting the operations:
--   Apply is apply, Observe is observe, Stop is stop, and so on; Step is step_start and
--   step_finish, since a stop may overtake its device write. The angles' float arithmetic is the
--   record Angles. The park whose write is in flight, the state file and all that the device was
--   told are fields. Refusing and Parking hold the theorems.
-- - UltraBridge: the bridge of the Ultrabeam antenna (ultrabridge/internal/ub).
--   + Packet: the frames (protocol/packet.go) and the reader readOnePacket
--     (transport/device.go). Reading holds the theorem.
--   + Commands: the replies (protocol/commands.go). Lock: the lock and the retract latch
--     (service/lock.go, persist.go, state.go). Controlling: Refresh, Retract, SetFrequency, SetMode
--     and EnsureRetract (service/controller.go, lock.go). SetFrequency and SetMode pass the gate
--     (pass_frequency, pass_mode) and are carried out later (carry_out), so that a lock may land
--     between; History keeps those that passed. The device is the record Rcu, which answers every
--     exchange as it likes; else the operations run one at a time.
--   + Locking, Retracting, History and Promises hold the theorems.
-- - Civ: the CI-V protocol of the radio bridge (icom9700-radio-bridge/internal/civ). Codec is
--   codec.go, Frame is civ.go and commands.go, Buffer and Sent are the two buffers of seq.go, whose
--   radio is the record Radio. Digits, Parsing, Delivering and Resending hold the theorems.
--
-- The mqtt callbacks run beside the runner, under one lock. They are interleaved at the runner's
-- suspensions; a callback between two of its short critical sections is not modelled. A loop that
-- sleeps runs over a list of moments and is blocked when the list ends first; no fuel is used, and
-- that a wait returns is a theorem. Times are natural numbers of nanoseconds, and the clock may go
-- anywhere between two moments. A float64 is known by its bits; parsing, printing and comparing it,
-- and parsing times and hardware addresses, are the record Runtime. Durations are not negative.
--
-- Not modelled: the metadata payloads, the subscription lists of the sequencer, the polls of the weather services, log lines, JSON
-- encoding and the atomic replacement of the state files, the broker clients, the serial ports and
-- sockets of the device bridges, operations of the Ultrabeam controller that interleave within one
-- another's exchanges, the web and desktop interfaces, and the daemons not named here. The modules named Tests hold the
-- theorems at concrete stations.
pub mod Base
pub mod Schema
pub mod AntMode
pub mod AntModePolicy
pub mod AntModeEngine
pub mod AntennaSelect
pub mod PowerSeq
pub mod RotatorLock
pub mod UltraBridge
pub mod Civ
