-- ===== src/PowerSeq/Crashing.antt =====
-- powerseq/internal/seq: the state file while a sequence runs, and a crash in the middle of one.
use station_a.Base.{
  ℕ, Bool, true, false, Option, none, some, ◌≡◌, ◌≢◌, inl, inr, refl, sym, ap, ◌∙◌, arith, eq_iff,
  eq_refl, Bool-cases, Option-cases, str_eq,
}
use station_a.PowerSeq.Types.{
  Phase, idle, starting, running, stopping, entering_standby, standby, waking, SavedState,
  Sequencer, Command, start, stop, idle_shutdown,
}
use station_a.PowerSeq.Persist.{
  transitional, same_phase, snapshot, must_write, persist, restore, interrupted,
}
use station_a.PowerSeq.Phases.{Sequence, publish_state, record_state, dispatch, recorded, begin}
use station_a.PowerSeq.Restarting.{Restored, restore-Restored}

-- The state file shows the sequencer's phase, step, fault and stop reason.
pub record OnDisk (s : Sequencer) : Type 0 where
  pub st : SavedState
  pub written : s.file ≡ some st
  pub version : st.version ≡ 1
  pub same : same_phase (snapshot s) st ≡ true

-- What was saved last is what is on disk: no write has failed since.
abbrev pub InSync : Sequencer → Type 0
InSync s = (s.saved ≡ s.file) × ((st : SavedState) → s.file ≡ some st → st.version ≡ 1)

same_phase_refl :
    (s : Sequencer) (now : ℕ)
    → same_phase (snapshot s) (record (snapshot s) { saved_at = now }) ≡ true
unfolding same_phase snapshot
same_phase_refl s now = ground (arith, eq_refl s.step, eq_refl s.fault, eq_refl s.stop_reason)

unwritten :
    (now : ℕ) (clock_tick : Bool) (s : Sequencer)
    → must_write s now clock_tick ≡ false
    → (old : SavedState) × (s.saved ≡ some old) × (same_phase (snapshot s) old ≡ true)
unfolding must_write
unwritten now clock_tick s h = elim (Option-cases s.saved) [
  | inl e ↦ absurd (cc (rw (e, must_write) at h))
  | inr (old, e) ↦ (old, e, ground arith)
]

snapshot-persist :
    (now : ℕ) (clock_tick : Bool) (s : Sequencer) → snapshot (persist now clock_tick s) ≡ snapshot s
unfolding persist snapshot
snapshot-persist now clock_tick s = ground arith

persist-written :
    (now : ℕ) (clock_tick : Bool) (s : Sequencer)
    → s.config.state_file ≢ ""
    → s.world.write_fails ≡ false
    → must_write s now clock_tick ≡ true
    → (persist now clock_tick s).file ≡ some (record (snapshot s) { saved_at = now })
unfolding persist
persist-written now clock_tick s named works w = ground (arith, eq_iff s.config.state_file "")

persist-skipped :
    (now : ℕ) (clock_tick : Bool) (s : Sequencer)
    → must_write s now clock_tick ≡ false
    → (persist now clock_tick s).file ≡ s.file
unfolding persist
persist-skipped now clock_tick s n = ground arith

persist-OnDisk :
    (now : ℕ) (clock_tick : Bool) (s : Sequencer)
    → s.config.state_file ≢ ""
    → s.world.write_fails ≡ false
    → InSync s
    → OnDisk (persist now clock_tick s)
persist-OnDisk now clock_tick s named works sync = elim (Bool-cases (must_write s now clock_tick)) [
  | inl w ↦ record {
    st = record (snapshot s) { saved_at = now };
    written = persist-written now clock_tick s named works w;
    version = unfold snapshot in refl;
    same = rw (snapshot-persist now clock_tick s) (same_phase_refl s now);
  }
  | inr n ↦
      let (old, e, p) = unwritten now clock_tick s n in
      record {
        st = old;
        written = persist-skipped now clock_tick s n ∙ sym sync.0 ∙ e;
        version = sync.1 old (sym sync.0 ∙ e);
        same = rw (snapshot-persist now clock_tick s) p;
      }
]

snapshot-publish_state :
    (s : Sequencer) → (snapshot (publish_state s) ≡ snapshot s) × ((publish_state s).file ≡ s.file)
unfolding publish_state snapshot
snapshot-publish_state s = ground arith

publish_state-OnDisk : (p : Sequencer) → OnDisk p → OnDisk (publish_state p)
publish_state-OnDisk p d =
    let (e, f) = snapshot-publish_state p in
    record { st = d.st; written = f ∙ d.written; version = d.version; same = rw e d.same }

record_state-OnDisk :
    (s : Sequencer)
    → s.config.state_file ≢ ""
    → s.world.write_fails ≡ false
    → InSync s
    → OnDisk (record_state s)
unfolding record_state
record_state-OnDisk s named works sync =
    publish_state-OnDisk (persist s.world.now false s)
      (persist-OnDisk s.world.now false s named works sync)

record_state-shown :
    (s : Sequencer) → ((record_state s).phase ≡ s.phase) × ((record_state s).step ≡ s.step)
unfolding record_state
record_state-shown s = ground arith

-- The saved phase is the sequencer's.
OnDisk-phase :
    (s : Sequencer) (d : OnDisk s) → (d.st.phase ≡ some s.phase) × (str_eq s.step d.st.step ≡ true)
unfolding same_phase snapshot
OnDisk-phase s d = ground (arith, d.same)

-- What `begin` hands over: a mid-phase with no step yet, over the same file.
abbrev HandsOver : Sequencer → Option Sequence → Type 0
HandsOver s none = Unit
HandsOver s (some q) =
    (transitional q.state.phase ≡ true)
    × (q.state.step ≡ "")
    × (q.state.config ≡ s.config)
    × (q.state.world ≡ s.world)
    × (q.state.saved ≡ s.saved)
    × (q.state.file ≡ s.file)

dispatch-HandsOver : (c : Command) (p : Phase) (s : Sequencer) → HandsOver s (dispatch c p s)
unfolding dispatch transitional
dispatch-HandsOver start idle s = ground arith
dispatch-HandsOver start standby s = ground arith
dispatch-HandsOver stop running s = ground arith
dispatch-HandsOver stop idle s = ground arith
dispatch-HandsOver stop standby s = ground arith
dispatch-HandsOver idle_shutdown standby s = ground arith
dispatch-HandsOver Command.standby running s = ground arith
dispatch-HandsOver Command.wake standby s = ground arith
dispatch-HandsOver _ _ s = tt

Restored-transitional :
    (st : SavedState) (p : Phase) (s t : Sequencer)
    → transitional p ≡ true
    → Restored st p s t
    → (t.phase ≡ idle) × (t.fault ≡ interrupted st.step p)
unfolding transitional
Restored-transitional st idle s t e r = cc
Restored-transitional st running s t e r = cc
Restored-transitional st standby s t e r = cc
Restored-transitional st starting s t e r = r
Restored-transitional st stopping s t e r = r
Restored-transitional st entering_standby s t e r = r
Restored-transitional st waking s t e r = r

-- What a restart makes of a state that is on disk in mid-sequence.
restart-mid_phase :
    (s : Sequencer) (p : Phase) (d : OnDisk s)
    → s.phase ≡ p
    → s.step ≡ ""
    → transitional p ≡ true
    → (now : ℕ) (t : Sequencer)
    → let u = restore now (some (some d.st)) t in
      (u.phase ≡ idle) × (u.fault ≡ interrupted "" p) × (u.outbox ≡ t.outbox)
restart-mid_phase s p d e f h now t =
    let (phase, step) = OnDisk-phase s d in
    let r = restore-Restored now d.st p t d.version (phase ∙ ap some e) in
    let (i, j) = Restored-transitional d.st p t _ h r.0 in
    let none_yet : d.st.step ≡ "" = ground (arith, eq_iff s.step d.st.step) in
    (i, j ∙ ap (λ x. interrupted x p) none_yet, r.7)

begun :
    (s : Sequencer) (o : Option Sequence) (q : Sequence)
    → HandsOver s o
    → elim o [ none ↦ none | some x ↦ some (recorded x) ] ≡ some q
    → s.config.state_file ≢ ""
    → s.world.write_fails ≡ false
    → InSync s
    → OnDisk q.state × (transitional q.state.phase ≡ true) × (q.state.step ≡ "")
begun s none q h e named works sync = cc
begun s (some x) q (mid, step, config, world, saved, file) e named works sync =
    let same : recorded x ≡ q = cc in
    let (p, st) = record_state-shown x.state in
    rw (← same) (
      record_state-OnDisk x.state (rw config named) (rw world works)
          (rw (saved, file) sync.0, λ d g. sync.1 d (sym file ∙ g)),
      rw p mid,
      st ∙ step,
    )

-- A crash right after `begin`, or before the first step, is restored as an interrupted sequence.
-- Where the phase is persisted, the last write reached the disk and the next one does not fail,
-- the state file holds the mid-phase when `begin` returns: a restart from it shows `idle` with
-- the fault of an interrupted sequence, and sends nothing.
pub begin-crash :
    (c : Command) (s : Sequencer) (q : Sequence)
    → s.config.state_file ≢ ""
    → s.world.write_fails ≡ false
    → InSync s
    → begin c s ≡ some q
    → (now : ℕ) (t : Sequencer)
    → (st : SavedState) × (q.state.file ≡ some st)
      × (let u = restore now (some (some st)) t in
          (u.phase ≡ idle) × (u.fault ≡ interrupted "" q.state.phase) × (u.outbox ≡ t.outbox))
unfolding begin
begin-crash c s q named works sync e now t =
    let (d, mid, step) =
      begun s (dispatch c s.phase s) q (dispatch-HandsOver c s.phase s) e named works sync in
    (d.st, d.written, restart-mid_phase q.state q.state.phase d refl step mid now t)
