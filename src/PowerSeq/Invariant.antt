-- ===== src/PowerSeq/Invariant.antt =====
-- powerseq/internal/seq: what holds of the sequencer and of its state file, whatever happens.
pub mod Handlers
pub mod Restoring
pub mod Histories
use station_a.Base.{
  ℕ, String, Bool, true, false, Option, none, some, List, [], ◌∷◌, ◌≡◌, ◌≢◌, ◌⊎◌, inl, inr, refl,
  arith, eq_iff, Bool-cases, Option-cases,
}
use station_a.PowerSeq.Types.{
  Phase, idle, starting, running, stopping, entering_standby, standby, waking, SavedState,
  Sequencer,
}

-- A fault is shown in `idle` only.
abbrev pub Faultless : Phase → String → Type 0
Faultless idle fault = Unit
Faultless p fault = fault ≡ ""

-- Why the station stops or stopped; nothing once it was started.
abbrev pub Reasoned : Phase → String → Type 0
Reasoned idle r = (r ≡ "") ⊎ ((r ≡ "operator") ⊎ (r ≡ "idle_shutdown"))
Reasoned stopping r = (r ≡ "operator") ⊎ (r ≡ "idle_shutdown")
Reasoned p r = r ≡ ""

-- The phases of the idle standby need its configuration.
abbrev pub Configured : Phase → String → Type 0
Configured entering_standby slot = slot ≢ ""
Configured standby slot = slot ≢ ""
Configured p slot = Unit

abbrev SavedOk : Option Phase → SavedState → Type 0
SavedOk none st = Unit
SavedOk (some p) st = Faultless p st.fault × Reasoned p st.stop_reason

-- The state file, if there is one, could have been written by a sequencer with the invariant.
abbrev pub FileOk : Option SavedState → Type 0
FileOk none = Unit
FileOk (some st) = SavedOk st.phase st

pub record Inv (s : Sequencer) : Type 0 where
  pub faultless : Faultless s.phase s.fault
  pub reasoned : Reasoned s.phase s.stop_reason
  pub configured : Configured s.phase s.activity_slot
  pub on_disk : FileOk s.file

-- The fields that the invariant reads.
pub record IsKept (s t : Sequencer) : Type 0 where
  pub phase : t.phase ≡ s.phase
  pub fault : t.fault ≡ s.fault
  pub stop_reason : t.stop_reason ≡ s.stop_reason
  pub activity_slot : t.activity_slot ≡ s.activity_slot
  pub file : t.file ≡ s.file

pub IsKept-Inv : (s t : Sequencer) → IsKept s t → Inv s → Inv t
IsKept-Inv s t k h = record {
  faultless = rw (k.phase, k.fault) h.faultless;
  reasoned = rw (k.phase, k.stop_reason) h.reasoned;
  configured = rw (k.phase, k.activity_slot) h.configured;
  on_disk = rw k.file h.on_disk;
}
