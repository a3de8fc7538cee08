-- ===== src/PowerSeq/Restarting.antt =====
-- powerseq/internal/seq/persist.go: what a restart makes of the state file.
use station_a.Base.{ℕ, ◌+◌, Option, some, ◌≡◌, ◌≢◌, ◌⊎◌, refl, arith, eq_iff}
use station_a.PowerSeq.Types.{Phase, idle, running, standby, SavedState, Sequencer}
use station_a.PowerSeq.Persist.{
  transitional, restore, content, read_state_file, restored_phase, restore_from, restore_content,
  interrupted, lost_standby,
}

-- What a restart shows for a saved phase: a sequence in flight becomes a fault in `idle`, and so
-- does a standby that is no longer configured; the other phases come back with their fault.
abbrev pub Restored : SavedState → Phase → Sequencer → Sequencer → Type 0
Restored st idle s t = (t.phase ≡ idle) × (t.fault ≡ st.fault)
Restored st running s t = (t.phase ≡ running) × (t.fault ≡ st.fault)
Restored st standby s t =
    ((s.activity_slot ≢ "") × (t.phase ≡ standby) × (t.fault ≡ st.fault))
    ⊎ ((s.activity_slot ≡ "") × (t.phase ≡ idle) × (t.fault ≡ lost_standby))
Restored st p s t = (t.phase ≡ idle) × (t.fault ≡ interrupted st.step p)

read-content :
    (st : SavedState) (p : Phase)
    → st.version ≡ 1
    → st.phase ≡ some p
    → read_state_file (some (some st)) ≡ content st
unfolding read_state_file
read-content st p v e = ground arith

content-some :
    (now : ℕ) (st : SavedState) (p : Phase) (q : Option Phase) (s : Sequencer)
    → q ≡ some p
    → restore_content now st q s ≡ restore_from now st p s
unfolding restore_content
content-some now st p q s e = rw e

restore-content :
    (now : ℕ) (st : SavedState) (p : Phase) (s : Sequencer)
    → st.version ≡ 1
    → st.phase ≡ some p
    → restore now (some (some st)) s ≡ restore_from now st p s
unfolding restore restore_content
restore-content now st p s v e =
    rw (read-content st p v e, restore) (content-some now st p st.phase s e)

restore_from-Restored :
    (now : ℕ) (st : SavedState) (p : Phase) (s : Sequencer)
    → Restored st p s (restore_from now st p s)
unfolding restore_from restored_phase transitional
restore_from-Restored now st idle s = ground arith
restore_from-Restored now st standby s = ground (arith, eq_iff s.activity_slot "")
restore_from-Restored now st _ s = (refl, refl)

-- A restart restores the stop reason and the idle clocks as they were saved, opens a settle
-- window, sends nothing, and shows the saved phase by the rules of `Restored`: idle, running and
-- a configured standby as they were; a sequence in flight, or a standby that is no longer
-- configured, as idle with a fault.
pub restore-Restored :
    (now : ℕ) (st : SavedState) (p : Phase) (s : Sequencer)
    → st.version ≡ 1
    → st.phase ≡ some p
    → let t = restore now (some (some st)) s in
      Restored st p s t
      × (t.stop_reason ≡ st.stop_reason)
      × (t.running_since ≡ st.running_since)
      × (t.standby_since ≡ st.standby_since)
      × (t.last_watch ≡ st.last_watch)
      × (t.hold_ended_at ≡ st.hold_ended_at)
      × (t.settle_until ≡ now + s.config.watch_settle)
      × (t.outbox ≡ s.outbox)
restore-Restored now st p s v e = rw (restore-content now st p s v e) (
  restore_from-Restored now st p s,
  unfold restore_from in refl,
  unfold restore_from in refl,
  unfold restore_from in refl,
  unfold restore_from in refl,
  unfold restore_from in refl,
  unfold restore_from in refl,
  unfold restore_from in refl,
)
