-- ===== src/PowerSeq/Invariant/Handlers.antt =====
-- powerseq/internal/seq: every operation keeps the invariant.
use station_a.Base.{
  ℕ, String, Bool, false, Option, none, some, List, [], ◌∷◌, ◌≡◌, inl, inr, refl, arith, ◌∙◌,
  eq_iff, Bool-cases,
}
use station_a.PowerSeq.Types.{
  Phase, idle, starting, running, stopping, entering_standby, standby, waking, Sequencer, Kind, cmd,
  wait_status, wait_state, delay, wol, other_kind, ResolvedStep, Runtime, Command, start, stop,
  idle_shutdown,
}
use station_a.PowerSeq.Persist.{persist}
use station_a.PowerSeq.Phases.{
  Sequence, publish_state, record_state, move_phase, set_phase, set_step, abort, begin, dispatch,
  recorded, standby_enabled,
}
use station_a.PowerSeq.Observe.{Moment, Outcome, done, failed, blocked, resume}
use station_a.PowerSeq.Run.{
  Ending, completed, aborted, underway, exec_cmd, exec_wol, with_observed, exec_kind, exec_step,
  run_sequence,
}
use station_a.PowerSeq.Wait.{status_met, state_met}
use station_a.PowerSeq.Frames.{
  IsUntouched, after, wait-IsUntouched, sleep-IsUntouched, resume-IsUntouched,
}
use station_a.PowerSeq.Sending.{Outcome-cases}
use station_a.PowerSeq.Invariant.{Faultless, Reasoned, Configured, FileOk, Inv, IsKept, IsKept-Inv}

IsUntouched-IsKept : {s t : Sequencer} → IsUntouched s t → IsKept s t
IsUntouched-IsKept h = ground arith

pub persist-Inv : (now : ℕ) (tick : Bool) (s : Sequencer) → Inv s → Inv (persist now tick s)
unfolding persist
persist-Inv now tick s h = ground arith

publish_state-IsKept : (s : Sequencer) → IsKept s (publish_state s)
unfolding publish_state
publish_state-IsKept s = ground arith

pub publish_state-Inv : (s : Sequencer) → Inv s → Inv (publish_state s)
publish_state-Inv s = IsKept-Inv s (publish_state s) (publish_state-IsKept s)

record_state-Inv : (s : Sequencer) → Inv s → Inv (record_state s)
unfolding record_state
record_state-Inv s h = publish_state-Inv _ (persist-Inv s.world.now false s h)

record_state-phase : (s : Sequencer) → (record_state s).phase ≡ s.phase
unfolding record_state
record_state-phase s = ground arith

set_step-phase : (name : String) (s : Sequencer) → (set_step name s).phase ≡ s.phase
unfolding set_step
set_step-phase name s = record_state-phase (record s { step = name; fault = "" })

cleared : (p : Phase) → Faultless p ""
cleared idle = tt
cleared _ = refl

set_step-Inv : (name : String) (s : Sequencer) → Inv s → Inv (set_step name s)
unfolding set_step
set_step-Inv name s h =
    record_state-Inv (record s { step = name; fault = "" })
      (record {
        faultless = cleared s.phase;
        reasoned = h.reasoned;
        configured = h.configured;
        on_disk = h.on_disk;
      })

stopped : (p : Phase) (r : String) → Reasoned p r → Reasoned idle r
stopped stopping r (inl e) = inr (inl e)
stopped stopping r (inr e) = inr (inr e)
stopped idle r h = h
stopped starting r h = inl h
stopped running r h = inl h
stopped entering_standby r h = inl h
stopped standby r h = inl h
stopped waking r h = inl h

abort-Inv : (reason : String) (s : Sequencer) → Inv s → Inv (abort reason s)
unfolding abort
abort-Inv reason s h = record_state-Inv (move_phase idle "" reason s) (record {
  faultless = tt;
  reasoned = stopped s.phase s.stop_reason h.reasoned;
  configured = tt;
  on_disk = h.on_disk;
})

-- The phase that a sequence in this phase leads to.
abbrev pub Leads : Phase → Phase → Type 0
Leads starting p = p ≡ running
Leads waking p = p ≡ running
Leads entering_standby p = p ≡ standby
Leads stopping p = p ≡ idle
Leads q p = ⊥

arrived :
    (mid p : Phase) (r slot : String)
    → Leads mid p
    → Reasoned mid r
    → Configured mid slot
    → Reasoned p r × Configured p slot
arrived starting p r slot e h c = rw e (h, tt)
arrived waking p r slot e h c = rw e (h, tt)
arrived entering_standby p r slot e h c = rw e (h, c)
arrived stopping p r slot e (inl h) c = rw e (inr (inl h), tt)
arrived stopping p r slot e (inr h) c = rw e (inr (inr h), tt)
arrived idle p r slot e h c = absurd e
arrived running p r slot e h c = absurd e
arrived standby p r slot e h c = absurd e

set_phase-Inv : (p : Phase) (s : Sequencer) → Leads s.phase p → Inv s → Inv (set_phase p "" "" s)
unfolding set_phase
set_phase-Inv p s e h =
    let (reasoned, configured) =
      arrived s.phase p s.stop_reason s.activity_slot e h.reasoned h.configured in
    record_state-Inv (move_phase p "" "" s) (record {
      faultless = cleared p;
      reasoned = reasoned;
      configured = configured;
      on_disk = h.on_disk;
    })

module _ ⦃rt : Runtime⦄ where
  pub resume-Inv : (m : Moment) (s : Sequencer) → Inv s → Inv (resume m s)
  resume-Inv m s = IsKept-Inv s (resume m s) (IsUntouched-IsKept (resume-IsUntouched m s))

exec_cmd-IsKept :
    (st : ResolvedStep) (s : Sequencer) (script : List Moment)
    → IsKept s (after (exec_cmd st s script))
unfolding exec_cmd
exec_cmd-IsKept st s script = ground arith

exec_wol-IsKept :
    (st : ResolvedStep) (s : Sequencer) (script : List Moment)
    → IsKept s (after (exec_wol st s script))
unfolding exec_wol
exec_wol-IsKept st s script = ground arith

module _ ⦃rt : Runtime⦄ where
  with_observed-IsKept :
      (slots : List String) (field : String) (s : Sequencer) (o : Outcome)
      → IsUntouched s (after o)
      → IsKept s (after (with_observed slots field o))
  unfolding with_observed
  with_observed-IsKept slots field s (done t rest) h = IsUntouched-IsKept h
  with_observed-IsKept slots field s (failed reason t rest) h = IsUntouched-IsKept h
  with_observed-IsKept slots field s (blocked t) h = IsUntouched-IsKept h

  exec_kind-IsKept :
      (k : Kind) (st : ResolvedStep) (s : Sequencer) (script : List Moment)
      → IsKept s (after (exec_kind k st s script))
  unfolding exec_kind
  exec_kind-IsKept cmd st s script = exec_cmd-IsKept st s script
  exec_kind-IsKept wait_status st s script =
      with_observed-IsKept st.slots "" s _ (wait-IsUntouched st (status_met st) s script)
  exec_kind-IsKept wait_state st s script =
      with_observed-IsKept (st.slot ∷ []) st.field s _ (wait-IsUntouched st (state_met st) s script)
  exec_kind-IsKept delay st s script = IsUntouched-IsKept (sleep-IsUntouched st.duration s script)
  exec_kind-IsKept wol st s script = exec_wol-IsKept st s script
  exec_kind-IsKept (other_kind k) st s script = record {
    phase = refl;
    fault = refl;
    stop_reason = refl;
    activity_slot = refl;
    file = refl;
  }

  exec_step-IsKept :
      (st : ResolvedStep) (s : Sequencer) (script : List Moment)
      → IsKept s (after (exec_step st s script))
  unfolding exec_step
  exec_step-IsKept st s script = exec_kind-IsKept st.kind st s script

-- The state that an ending leaves, also where the sequence is still under way.
abbrev pub left : Ending → Sequencer
left (completed t rest) = t
left (aborted t rest) = t
left (underway t) = t

module _ ⦃rt : Runtime⦄ where
  pub run_sequence-Inv :
      (steps : List ResolvedStep) (end_phase : Phase) (s : Sequencer) (script : List Moment)
      → Leads s.phase end_phase
      → Inv s
      → Inv (left (run_sequence steps end_phase s script))
  unfolding run_sequence
  run_sequence-Inv [] end_phase s script l h = set_phase-Inv end_phase s l h
  run_sequence-Inv (st ∷ steps) end_phase s script l h = elim (Bool-cases s.world.cancelled) [
    | inl cut ↦ simp (cut, run_sequence) (abort-Inv _ s h)
    | inr on ↦
        let s' = set_step st.name s in
        let kept = exec_step-IsKept st s' script in
        let inv = IsKept-Inv s' _ kept (set_step-Inv st.name s h) in
        elim (Outcome-cases (exec_step st s' script)) [
          | inl (r, t, rest, e) ↦ simp (on, e, run_sequence) (abort-Inv _ t (rw e at inv))
          | inr (inl (t, rest, e)) ↦
              let phase : t.phase ≡ s.phase = (rw e at kept.phase) ∙ set_step-phase st.name s in
              simp (on, e, run_sequence)
                (run_sequence-Inv steps end_phase t rest (rw phase l) (rw e at inv))
          | inr (inr (t, e)) ↦ simp (on, e, run_sequence) (rw e at inv)
        ]
  ]

-- A started sequence has the invariant, and its mid-phase leads to its end phase.
abbrev pub Started : Option Sequence → Type 0
Started none = Unit
Started (some q) = Inv q.state × Leads q.state.phase q.end_phase

dispatch-Started :
    (c : Command) (p : Phase) (s : Sequencer)
    → Reasoned p s.stop_reason
    → Configured p s.activity_slot
    → FileOk s.file
    → Started (dispatch c p s)
unfolding dispatch standby_enabled
dispatch-Started start idle s r k f = ground arith
dispatch-Started start standby s r k f = ground arith
dispatch-Started stop running s r k f = ground arith
dispatch-Started stop idle s r k f = ground arith
dispatch-Started stop standby s r k f = ground arith
dispatch-Started idle_shutdown standby s r k f = ground arith
dispatch-Started Command.standby running s r k f = ground (arith, eq_iff s.activity_slot "")
dispatch-Started Command.wake standby s r k f = ground arith
dispatch-Started _ _ s r k f = tt

recorded-Started :
    (o : Option Sequence)
    → Started o
    → Started (elim o [ none ↦ none | some q ↦ some (recorded q) ])
recorded-Started none h = tt
recorded-Started (some q) h = (record_state-Inv q.state h.0, rw (record_state-phase q.state) h.1)

pub begin-Started : (c : Command) (s : Sequencer) → Inv s → Started (begin c s)
unfolding begin
begin-Started c s h =
    recorded-Started (dispatch c s.phase s)
      (dispatch-Started c s.phase s h.reasoned h.configured h.on_disk)
