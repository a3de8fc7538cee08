-- ===== src/PowerSeq/Invariant/Restoring.antt =====
-- powerseq/internal/seq: what `New` builds and restores satisfies the invariant.
use station_a.Base.{
  ℕ, String, Bool, true, false, Option, none, some, ◌≡◌, ◌≢◌, inl, inr, refl, arith, subst, eq_iff,
  Result, ok, err, if◌then◌else◌, not, str_eq, ◌>>=◌,
}
use station_a.PowerSeq.Types.{
  Phase, idle, starting, running, stopping, entering_standby, standby, waking, SavedState,
  Sequencer, Config, World, Runtime,
}
use station_a.PowerSeq.Persist.{
  restore, read_state_file, missing, unusable, content, restored_phase, restore_from,
  restore_content, transitional,
}
use station_a.PowerSeq.Resolve.{Lists, ConfigError, resolve_all, fresh, new}
use station_a.PowerSeq.Invariant.{Faultless, Reasoned, Configured, FileOk, Inv}

restored_phase-ok :
    (enabled : Bool) (slot : String) (st : SavedState) (p : Phase)
    → (enabled ≡ true → slot ≢ "")
    → Faultless p st.fault
    → Reasoned p st.stop_reason
    → let r = restored_phase enabled st p in
      Faultless r.0 r.1 × Reasoned r.0 st.stop_reason × Configured r.0 slot
unfolding restored_phase transitional
restored_phase-ok enabled slot st starting k f r = (tt, inl r, tt)
restored_phase-ok enabled slot st stopping k f (inl r) = (tt, inr (inl r), tt)
restored_phase-ok enabled slot st stopping k f (inr r) = (tt, inr (inr r), tt)
restored_phase-ok enabled slot st entering_standby k f r = (tt, inl r, tt)
restored_phase-ok enabled slot st waking k f r = (tt, inl r, tt)
restored_phase-ok enabled slot st idle k f r = (tt, r, tt)
restored_phase-ok enabled slot st running k f r = (f, r, tt)
restored_phase-ok true slot st standby k f r = (f, r, k refl)
restored_phase-ok false slot st standby k f r = (tt, inl r, tt)

enabled_slot : (slot : String) → not (str_eq slot "") ≡ true → slot ≢ ""
enabled_slot slot h = ground (arith, eq_iff slot "")

-- The content of the state file as `New` finds it.
abbrev pub DiskOk : Option (Option SavedState) → Type 0
DiskOk none = Unit
DiskOk (some st) = FileOk st

restore_from-Inv :
    (now : ℕ) (st : SavedState) (p : Phase) (s : Sequencer)
    → Faultless p st.fault
    → Reasoned p st.stop_reason
    → Inv s
    → Inv (restore_from now st p s)
unfolding restore_from
restore_from-Inv now st p s f r h =
    let ok' =
      restored_phase-ok (not (str_eq s.activity_slot "")) s.activity_slot st p
        (enabled_slot s.activity_slot) f r in
    record { faultless = ok'.0; reasoned = ok'.1; configured = ok'.2; on_disk = h.on_disk }

restore_content-Inv :
    (now : ℕ) (st : SavedState) (p : Option Phase) (s : Sequencer)
    → st.phase ≡ p
    → FileOk (some st)
    → Inv s
    → Inv (restore_content now st p s)
unfolding restore_content
restore_content-Inv now st none s e f h = h
restore_content-Inv now st (some p) s e f h =
    let (a, b) = rw e at f in restore_from-Inv now st p s a b h

usable-Inv :
    (now : ℕ) (st : SavedState) (b : Bool) (s : Sequencer)
    → FileOk (some st)
    → Inv s
    → Inv (elim (if b then content st else unusable) [
      | missing ↦ s
      | unusable ↦ s
      | content st' ↦ restore_content now st' st'.phase s
    ])
usable-Inv now st true s f h = restore_content-Inv now st st.phase s refl f h
usable-Inv now st false s f h = h

restore-Inv :
    (now : ℕ) (disk : Option (Option SavedState)) (s : Sequencer)
    → DiskOk disk
    → Inv s
    → Inv (restore now disk s)
unfolding restore read_state_file
restore-Inv now none s d h = h
restore-Inv now (some none) s d h = h
restore-Inv now (some (some st)) s d h = usable-Inv now st _ s d h

fresh-Inv :
    (c : Config) (l : Lists) (w : World) (disk : Option SavedState)
    → FileOk disk
    → Inv (fresh c l w disk)
unfolding fresh
fresh-Inv c l w disk d = record {
  faultless = tt;
  reasoned = inl refl;
  configured = tt;
  on_disk = d;
}

flat :
    (disk : Option (Option SavedState))
    → DiskOk disk
    → FileOk (elim disk [ none ↦ none | some d ↦ d ])
flat none d = tt
flat (some st) d = d

either-Inv : (b : Bool) (s t : Sequencer) → Inv s → Inv t → Inv (if b then s else t)
either-Inv true s t h k = h
either-Inv false s t h k = k

module _ ⦃rt : Runtime⦄ where
  built :
      Config
      → World
      → Option (Option SavedState)
      → Result ConfigError Lists
      → Result ConfigError Sequencer
  built c w disk r = r >>= λ l.
      let s = fresh c l w (elim disk [ none ↦ none | some d ↦ d ]) in
      ok (if str_eq c.state_file "" then s else restore w.now disk s)

  built-Inv :
      (c : Config) (w : World) (disk : Option (Option SavedState)) (r : Result ConfigError Lists)
      (s : Sequencer)
      → DiskOk disk
      → built c w disk r ≡ ok s
      → Inv s
  unfolding built
  built-Inv c w disk (err x) s d e = cc
  built-Inv c w disk (ok l) s d e =
      let made = fresh c l w (elim disk [ none ↦ none | some x ↦ x ]) in
      let inv = fresh-Inv c l w _ (flat disk d) in
      let same : (if str_eq c.state_file "" then made else restore w.now disk made) ≡ s = cc in
      subst Inv same
        (either-Inv _ made (restore w.now disk made) inv (restore-Inv w.now disk made d inv))

  pub new-Inv :
      (c : Config) (w : World) (disk : Option (Option SavedState)) (s : Sequencer)
      → DiskOk disk
      → new c w disk ≡ ok s
      → Inv s
  unfolding new
  new-Inv c w disk s d e = built-Inv c w disk (resolve_all c) s d (unfold built in e)
