-- ===== src/PowerSeq/Invariant/Histories.antt =====
-- powerseq/internal/seq: the whole life of the sequencer, restarts and crashes included.
use station_a.Base.{true, false, Option, none, some, List, [], ◌∷◌, ◌≡◌, ◌⊎◌, inl, inr, ok}
use station_a.PowerSeq.Types.{SavedState, Sequencer, Config, World, Runtime, Command}
use station_a.PowerSeq.Phases.{Sequence, begin}
use station_a.PowerSeq.Observe.{Moment, resume}
use station_a.PowerSeq.Run.{
  WakeUp, tick, command, republish, Ending, underway, run_sequence, run_command, ending_or, decided,
  wake_tick, take_command, wake_command, wake_republish, wake_up, run_entry, run_exit,
}
use station_a.PowerSeq.Resolve.{new}
use station_a.PowerSeq.Invariant.{FileOk, Inv}
use station_a.PowerSeq.Invariant.Handlers.{
  persist-Inv, publish_state-Inv, resume-Inv, left, run_sequence-Inv, Started, begin-Started,
}
use station_a.PowerSeq.Invariant.Restoring.{DiskOk, new-Inv}

module _ ⦃rt : Runtime⦄ where
  -- What becomes of a command, from what `begin` says.
  Started-Inv :
      (o : Option Sequence) (s : Sequencer) (script : List Moment)
      → Inv s
      → Started o
      → Inv (
          left (
            ending_or s script (elim o [
              | none ↦ none
              | some q ↦ some (run_sequence q.steps q.end_phase q.state script)
            ])))
  Started-Inv none s script h k = h
  Started-Inv (some q) s script h (k, l) = run_sequence-Inv q.steps q.end_phase q.state script l k

  take_command-Inv :
      (cs : List Command) (s : Sequencer) (script : List Moment)
      → Inv s
      → Inv (left (take_command cs s script))
  unfolding take_command run_command
  take_command-Inv [] s script h = h
  take_command-Inv (c ∷ cs) s script h =
      let t = record s { queue = cs } in
      let k : Inv t = record {
        faultless = h.faultless;
        reasoned = h.reasoned;
        configured = h.configured;
        on_disk = h.on_disk;
      } in
      Started-Inv (begin c t) t script k (begin-Started c t k)

  decided-Inv :
      (c : Option Command) (s : Sequencer) (script : List Moment)
      → Inv s
      → Inv (left (decided c s script))
  unfolding run_command
  decided-Inv none s script h = h
  decided-Inv (some c) s script h = Started-Inv (begin c s) s script h (begin-Started c s h)

  wake_up-Inv :
      (k : WakeUp) (s : Sequencer) (script : List Moment) → Inv s → Inv (left (wake_up k s script))
  unfolding wake_up wake_tick wake_republish wake_command
  wake_up-Inv tick s script h = decided-Inv _ _ script (persist-Inv s.world.now true s h)
  wake_up-Inv command s script h = take_command-Inv s.queue s script h
  wake_up-Inv republish s script h = publish_state-Inv _ (record {
    faultless = h.faultless;
    reasoned = h.reasoned;
    configured = h.configured;
    on_disk = h.on_disk;
  })

  abbrev IsOver : Ending → Type 0
  IsOver (underway t) = ⊥
  IsOver x = Unit

  -- What a restart can find of the state file: its content, or no usable text.
  abbrev Found : Option SavedState → Option (Option SavedState) → Type 0
  Found none disk = (disk ≡ none) ⊎ (disk ≡ some none)
  Found (some st) disk = (disk ≡ some (some st)) ⊎ (disk ≡ some none)

  -- A sequencer whose runner waits for a wake-up, after any history of starts, suspensions,
  -- wake-ups with the sequences that they ran to an end, restarts, and crashes in the middle of
  -- a sequence.
  pub data Alive (c : Config) : Sequencer → Type 0 where
    born : {s : Sequencer} (w : World) → new c w none ≡ ok s → Alive c (run_entry s)
    exited : {s : Sequencer} → Alive c s → Alive c (run_exit s)
    suspended : {s : Sequencer} (m : Moment) → Alive c s → Alive c (resume m s)
    woken :
        {s : Sequencer} (k : WakeUp) (script : List Moment)
        → Alive c s
        → IsOver (wake_up k s script)
        → Alive c (left (wake_up k s script))
    restarted :
        {s t : Sequencer} (w : World) (disk : Option (Option SavedState))
        → Alive c s
        → Found s.file disk
        → new c w disk ≡ ok t
        → Alive c (run_entry t)
    crashed :
        {s t : Sequencer} (k : WakeUp) (script : List Moment) (w : World)
        (disk : Option (Option SavedState))
        → Alive c s
        → Found (left (wake_up k s script)).file disk
        → new c w disk ≡ ok t
        → Alive c (run_entry t)

  Found-DiskOk :
      (file : Option SavedState) (disk : Option (Option SavedState))
      → FileOk file
      → Found file disk
      → DiskOk disk
  Found-DiskOk none disk f (inl e) = rw e tt
  Found-DiskOk none disk f (inr e) = rw e tt
  Found-DiskOk (some st) disk f (inl e) = rw e f
  Found-DiskOk (some st) disk f (inr e) = rw e tt

  run_entry-Inv : (s : Sequencer) → Inv s → Inv (run_entry s)
  unfolding run_entry
  run_entry-Inv s h = publish_state-Inv _ (persist-Inv s.world.now false s h)

  run_exit-Inv : (s : Sequencer) → Inv s → Inv (run_exit s)
  unfolding run_exit
  run_exit-Inv s h = persist-Inv s.world.now false s h

  -- After every history, restarts and crashes in the middle of a sequence included, a fault
  -- is shown only in `idle`; the stop reason is empty in every phase that a start led to,
  -- and one of the two reasons in `stopping`; the phases `entering_standby` and `standby`
  -- are entered only if idle standby is configured; and the phase, fault and stop reason in
  -- the state file, if it has a phase, are so related too.
  pub Alive-Inv : (c : Config) {s : Sequencer} → Alive c s → Inv s
  Alive-Inv c (born {s = s} w e) = run_entry-Inv s (new-Inv c w none s tt e)
  Alive-Inv c (exited {s = s} a) = run_exit-Inv s (Alive-Inv c a)
  Alive-Inv c (suspended {s = s} m a) = resume-Inv m s (Alive-Inv c a)
  Alive-Inv c (woken {s = s} k script a o) = wake_up-Inv k s script (Alive-Inv c a)
  Alive-Inv c (restarted {s = s} {t = t} w disk a f e) =
      run_entry-Inv t (new-Inv c w disk t (Found-DiskOk s.file disk (Alive-Inv c a).on_disk f) e)
  Alive-Inv c (crashed {s = s} {t = t} k script w disk a f e) =
      let inv = wake_up-Inv k s script (Alive-Inv c a) in
      run_entry-Inv t (new-Inv c w disk t (Found-DiskOk _ disk inv.on_disk f) e)
