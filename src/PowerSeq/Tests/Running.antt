-- ===== src/PowerSeq/Tests/Running.antt =====
-- powerseq/internal/seq: the theorems on waits, sequences, restarts and crashes at a small station.
use station_a.Base.{
  ℕ, ◌+◌, ◌≤◌, true, false, none, some, [], ◌∷◌, ◌≡◌, inl, refl, arith, eq_iff, Bool, err,
}
use station_a.PowerSeq.Types.{
  idle, starting, running, stopping, text, object, Doc, SavedState, start, Sequencer, Step, delay,
}
use station_a.PowerSeq.Observe.{Moment, resume, observe_all}
use station_a.PowerSeq.Wait.{wait, wait_loop, verdict, hold_verdict}
use station_a.PowerSeq.Waiting.{Held, GivesUp}
use station_a.PowerSeq.Waiting.Done.{wait-done}
use station_a.PowerSeq.Waiting.Ends.{HasReturned, wait-failed, wait-returns}
use station_a.PowerSeq.Run.{run_entry}
use station_a.PowerSeq.Invariant.{Inv}
use station_a.PowerSeq.Invariant.Histories.{born, suspended, Alive-Inv}
use station_a.PowerSeq.Persist.{restore, read_state_file, interrupted}
use station_a.PowerSeq.Restarting.{restore-Restored}
use station_a.PowerSeq.Phases.{Sequence, recorded, begin}
use station_a.PowerSeq.Crashing.{begin-crash}
use station_a.PowerSeq.Inputs.{coerce_to_string, field_of, watch_moved, set_state}
use station_a.PowerSeq.Watching.{set_state-last_watch}
use station_a.PowerSeq.Resolve.{
  resolve, resolve_step, resolve_all, resolve_kind, resolve_delay, plain_step, fresh, new, Lists,
  bad_step, unknown_duration,
}
use station_a.PowerSeq.Configuring.{Checked, resolve-Checked}
use station_a.PowerSeq.Tests.{switch_on, plain, world, config, switched, station}

abbrev at : ℕ → Moment
at t = record { arrivals = []; world = world t }

abbrev connected : Sequencer → Bool
connected s = s.online

wait-done_example :
    let s = station 1000 starting "" in
    let t = resume (at 1010) s in
    (true ≡ true)
    × ((false ≡ false) × (true ≡ true) × (1010 ≤ 1050))
    × Held connected 5 s (at 1010 ∷ []) t []
unfolding wait wait_loop verdict hold_verdict resume observe_all
wait-done_example =
    wait-done switched connected (station 1000 starting "") (at 1010 ∷ [])
      (resume (at 1010) (station 1000 starting "")) [] refl

abbrev offline : Sequencer
offline = record (station 1000 starting "") { online = false }

wait-failed_example : GivesUp 1050 "broker disconnected" offline
unfolding wait wait_loop verdict
wait-failed_example =
    wait-failed switched connected offline [] "broker disconnected" offline [] refl

wait-returns_example : HasReturned (wait switched connected offline (at 1010 ∷ at 2000 ∷ []))
wait-returns_example =
    wait-returns switched connected offline (at 1010 ∷ []) [] (at 2000) (omega arith)

abbrev saved : SavedState
saved = record {
  version = 1;
  phase = some stopping;
  step = "psu";
  fault = "";
  stop_reason = "operator";
  running_since = 1;
  standby_since = 2;
  last_watch = 3;
  hold_ended_at = 4;
  saved_at = 5;
}

restore-Restored_example :
    let t = restore 7 (some (some saved)) (station 1000 idle "") in
    ((t.phase ≡ idle) × (t.fault ≡ interrupted "psu" stopping))
    × (t.stop_reason ≡ "operator")
    × (t.running_since ≡ 1)
    × (t.standby_since ≡ 2)
    × (t.last_watch ≡ 3)
    × (t.hold_ended_at ≡ 4)
    × (t.settle_until ≡ 7 + 10)
    × (t.outbox ≡ [])
restore-Restored_example = restore-Restored 7 saved stopping (station 1000 idle "") refl refl

abbrev begun : Sequence
begun = recorded (record {
  steps = switched ∷ [];
  end_phase = running;
  state = record (station 1000 idle "") {
    stop_reason = "";
    phase = starting;
    step = "";
    fault = "";
  };
})

begin-crash_example :
    (st : SavedState) × (begun.state.file ≡ some st)
    × (let u = restore 2000 (some (some st)) (station 2000 idle "") in
        (u.phase ≡ idle) × (u.fault ≡ interrupted "" begun.state.phase) × (u.outbox ≡ []))
unfolding begin
begin-crash_example =
    begin-crash start (station 1000 idle "") begun (ground (arith, eq_iff "state.json" "")) refl
      (refl, λ st e. absurd (cc)) refl 2000 (station 2000 idle "")

abbrev resolved : Lists
resolved = record {
  startup = switched ∷ [];
  shutdown = switched ∷ [];
  standby = switched ∷ [];
  wake = switched ∷ [];
  idle_shut = switched ∷ [];
}

-- A delay by a name that stands for nothing.
abbrev paused : Step
paused = record switch_on { name = "pause"; kind = delay; duration = "later" }

resolve-Checked_example :
    Checked config "site/home/power_sequencer" "startup"
      (switch_on ∷ paused ∷ [])
      (err (bad_step "startup" "pause" (unknown_duration "later")))
unfolding resolve resolve_step resolve_kind resolve_delay plain_step
resolve-Checked_example =
    resolve-Checked (switch_on ∷ paused ∷ []) config "site/home/power_sequencer" "startup"

Alive-Inv_example : Inv (resume (at 5) (run_entry (fresh config resolved (world 0) none)))
unfolding new fresh restore read_state_file resolve_all resolve resolve_step resolve_kind plain_step
Alive-Inv_example =
    Alive-Inv config
      (suspended (at 5) (born {s = fresh config resolved (world 0) none} (world 0) refl))

abbrev turned : Doc
turned = object (("azimuth", text "50") ∷ [])

set_state-last_watch_example :
    (set_state "site/rotator" (some turned) (station 1000 running "")).last_watch ≡ 1000
unfolding coerce_to_string field_of watch_moved
set_state-last_watch_example =
    (set_state-last_watch "site/rotator" turned (station 1000 running "")).0
      (record { phase = inl refl; past = omega arith; not_held = refl })
      (record { bridge = refl; device = ground (arith, eq_iff "" "false") })
      (inl (record {
        here = refl;
        baseline = ground (arith, eq_iff "10" "");
        value = ground (arith, eq_iff "50" "");
        moved = refl;
      }))
