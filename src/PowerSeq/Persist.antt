-- ===== src/PowerSeq/Persist.antt =====
-- powerseq/internal/seq/persist.go: the phase on disk, written as the sequencer moves and read
-- back by a restart. The atomic replacement of the file is one step that succeeds or fails.
use station_a.Base.{
  ℕ, ◌+◌, String, str_append, Bool, true, false, not, ◌&&◌, ◌||◌, Option, none, some, str_eq, ltb,
  ◌==◌, if◌then◌else◌,
}
use station_a.PowerSeq.Types.{
  Phase, idle, starting, running, stopping, entering_standby, standby, waking, SavedState,
  Sequencer,
}

unfoldable pub transitional : Phase → Bool
transitional starting = true
transitional stopping = true
transitional entering_standby = true
transitional waking = true
transitional p = false

abbrev pub phase_text : Phase → String
phase_text idle = "idle"
phase_text starting = "starting"
phase_text running = "running"
phase_text stopping = "stopping"
phase_text entering_standby = "entering_standby"
phase_text standby = "standby"
phase_text waking = "waking"

abbrev phase_index : Phase → ℕ
phase_index idle = 0
phase_index starting = 1
phase_index running = 2
phase_index stopping = 3
phase_index entering_standby = 4
phase_index standby = 5
phase_index waking = 6

-- Whether two phases are one: the comparison of their names.
abbrev pub eqb_phase : Phase → Phase → Bool
eqb_phase p q = phase_index p == phase_index q

abbrev same_phase_name : Option Phase → Option Phase → Bool
same_phase_name none none = true
same_phase_name (some p) (some q) = eqb_phase p q
same_phase_name p q = false

unfoldable pub same_phase : SavedState → SavedState → Bool
same_phase a b =
    same_phase_name a.phase b.phase
    && (str_eq a.step b.step && (str_eq a.fault b.fault && str_eq a.stop_reason b.stop_reason))

unfoldable pub same_clocks : SavedState → SavedState → Bool
same_clocks a b =
    a.running_since == b.running_since
    && (a.standby_since == b.standby_since
        && (a.last_watch == b.last_watch && a.hold_ended_at == b.hold_ended_at))

abbrev pub state_file_version : ℕ
state_file_version = 1

unfoldable pub snapshot : Sequencer → SavedState
snapshot s = record {
  version = state_file_version;
  phase = some s.phase;
  step = s.step;
  fault = s.fault;
  stop_reason = s.stop_reason;
  running_since = s.running_since;
  standby_since = s.standby_since;
  last_watch = s.last_watch;
  hold_ended_at = s.hold_ended_at;
  saved_at = 0;
}

-- Whether the snapshot is written: not when nothing changed, and a change of the clocks alone
-- not within the throttle of an idle tick.
unfoldable pub must_write : Sequencer → ℕ → Bool → Bool
unfolding same_phase same_clocks snapshot
must_write s now clock_tick = elim s.saved [
  | none ↦ true
  | some old ↦ not (
      same_phase (snapshot s) old
      && (same_clocks (snapshot s) old || clock_tick && ltb now (s.saved_at + s.persist_every)))
]

-- `persist`: the attempt counts as saved also when the write fails.
unfoldable pub persist : ℕ → Bool → Sequencer → Sequencer
unfolding must_write snapshot
persist now clock_tick s =
    if str_eq s.config.state_file "" || not (must_write s now clock_tick)
    then s
    else let snap = record (snapshot s) { saved_at = now } in
      record s {
        saved = some snap;
        saved_at = now;
        file = if s.world.write_fails then s.file else some snap;
      }

-- What reading the state file gives: no file, an unusable one, or its content.
pub data ReadFile : Type 0 where
  missing unusable : ReadFile
  content : SavedState → ReadFile

abbrev known_phase : Option Phase → Bool
known_phase none = false
known_phase (some p) = true

-- `readStateFile`; the text of the file enters decoded, `none` if it is no JSON of that shape.
unfoldable pub read_state_file : Option (Option SavedState) → ReadFile
read_state_file none = missing
read_state_file (some none) = unusable
read_state_file (some (some st)) =
    if st.version == state_file_version && known_phase st.phase then content st else unusable

abbrev at_step : String → Phase → String
at_step step p = if str_eq step "" then phase_text p else step

unfoldable pub interrupted : String → Phase → String
interrupted step p =
    str_append (at_step step p)
      (str_append ": interrupted by a powerseq restart (" (str_append (phase_text p) ")"))

abbrev pub lost_standby : String
lost_standby = "standby: restored, but [[standby]]/[[wake]] are no longer configured"

-- The phase and fault of a restored sequencer.
unfoldable pub restored_phase : Bool → SavedState → Phase → Phase × String
unfolding interrupted transitional
restored_phase enabled st p =
    if transitional p
    then (idle, interrupted st.step p)
    else if eqb_phase p standby && not enabled
    then (idle, lost_standby)
    else (p, st.fault)

unfoldable pub restore_from : ℕ → SavedState → Phase → Sequencer → Sequencer
restore_from now st p s =
    let r = restored_phase (not (str_eq s.activity_slot "")) st p in
    record s {
      saved = some st;
      saved_at = now;
      stop_reason = st.stop_reason;
      running_since = st.running_since;
      standby_since = st.standby_since;
      last_watch = st.last_watch;
      hold_ended_at = st.hold_ended_at;
      settle_until = now + s.config.watch_settle;
      phase = r.0;
      fault = r.1;
    }

unfoldable pub restore_content : ℕ → SavedState → Option Phase → Sequencer → Sequencer
restore_content now st none s = s
restore_content now st (some p) s = restore_from now st p s

unfoldable pub restore : ℕ → Option (Option SavedState) → Sequencer → Sequencer
restore now disk s = elim (read_state_file disk) [
  | missing ↦ s
  | unusable ↦ s
  | content st ↦ restore_content now st st.phase s
]
