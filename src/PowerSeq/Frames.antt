-- ===== src/PowerSeq/Frames.antt =====
-- powerseq/internal/seq/seq.go: what an observation, and so a suspended runner, leaves alone.
use station_a.Base.{
  ℕ, zero, suc, ◌+◌, String, Bool, Option, none, some, List, [], ◌∷◌, ◌≡◌, arith, inl, inr,
  Bool-cases,
}
use station_a.AntMode.{Payload}
use station_a.PowerSeq.Types.{Runtime, ResolvedStep, Sequencer, Command, Doc}
use station_a.PowerSeq.Inputs.{set_status, set_state, set_broker_online, set_ant_mode}
use station_a.PowerSeq.Phases.{request, request_republish}
use station_a.PowerSeq.Observe.{
  Observation, status_seen, state_seen, broker_seen, ant_mode_seen, requested, republish_asked,
  Arrival, Moment, Outcome, done, failed, blocked, ask, observe, arrive, observe_all, resume, woken,
  sleep,
}
use station_a.PowerSeq.Wait.{gives_up, holds, goes_on, verdict, wait_loop, wait}
use station_a.PowerSeq.Waiting.{Verdict-cases}

-- The phase with what it shows, the step lists, what was sent and what is on disk.
pub record IsUntouched (s t : Sequencer) : Type 0 where
  pub phase : t.phase ≡ s.phase
  pub step : t.step ≡ s.step
  pub fault : t.fault ≡ s.fault
  pub stop_reason : t.stop_reason ≡ s.stop_reason
  pub running_since : t.running_since ≡ s.running_since
  pub standby_since : t.standby_since ≡ s.standby_since
  pub activity_slot : t.activity_slot ≡ s.activity_slot
  pub config : t.config ≡ s.config
  pub file : t.file ≡ s.file
  pub saved : t.saved ≡ s.saved
  pub outbox : t.outbox ≡ s.outbox

pub IsUntouched-refl : (s : Sequencer) → IsUntouched s s
IsUntouched-refl s = ground arith

pub IsUntouched-trans : {s t u : Sequencer} → IsUntouched s t → IsUntouched t u → IsUntouched s u
IsUntouched-trans h k = ground arith

set_status-IsUntouched :
    (slot : String) (b : Bool) (s : Sequencer) → IsUntouched s (set_status slot b s)
unfolding set_status
set_status-IsUntouched slot b s = ground arith

set_broker_online-IsUntouched : (b : Bool) (s : Sequencer) → IsUntouched s (set_broker_online b s)
unfolding set_broker_online
set_broker_online-IsUntouched b s = ground arith

set_ant_mode-IsUntouched : (p : Payload) (s : Sequencer) → IsUntouched s (set_ant_mode p s)
unfolding set_ant_mode
set_ant_mode-IsUntouched p s = ground arith

ask-IsUntouched : (c : Command) (s : Sequencer) → IsUntouched s (ask c s)
unfolding ask request
ask-IsUntouched c s = ground arith

abbrev pub after : Outcome → Sequencer
after (done t rest) = t
after (failed reason t rest) = t
after (blocked t) = t

after-woken : (s : Sequencer) (script : List Moment) → after (woken s script) ≡ s
unfolding woken
after-woken s script = elim (Bool-cases s.world.cancelled) [
  | inl cut ↦ rw (cut, woken)
  | inr on ↦ rw (on, woken)
]

module _ ⦃rt : Runtime⦄ where
  set_state-IsUntouched :
      (slot : String) (d : Option Doc) (s : Sequencer) → IsUntouched s (set_state slot d s)
  unfolding set_state
  set_state-IsUntouched slot none s = ground arith
  set_state-IsUntouched slot (some d) s = ground arith

  observe-IsUntouched : (o : Observation) (s : Sequencer) → IsUntouched s (observe o s)
  unfolding observe request_republish
  observe-IsUntouched (status_seen slot b) s = set_status-IsUntouched slot b s
  observe-IsUntouched (state_seen slot d) s = set_state-IsUntouched slot d s
  observe-IsUntouched (broker_seen b) s = set_broker_online-IsUntouched b s
  observe-IsUntouched (ant_mode_seen p) s = set_ant_mode-IsUntouched p s
  observe-IsUntouched (requested c) s = ask-IsUntouched c s
  observe-IsUntouched republish_asked s = ground arith

  observe_all-IsUntouched : (os : List Arrival) (s : Sequencer) → IsUntouched s (observe_all os s)
  unfolding observe_all arrive
  observe_all-IsUntouched [] s = IsUntouched-refl s
  observe_all-IsUntouched (o ∷ os) s =
      let t = record s { world = record (s.world) { now = o.at } } in
      let h : IsUntouched s (observe o.what t) = ground (arith, observe-IsUntouched o.what t) in
      IsUntouched-trans h (observe_all-IsUntouched os (arrive o s))

  pub resume-IsUntouched : (m : Moment) (s : Sequencer) → IsUntouched s (resume m s)
  unfolding resume
  resume-IsUntouched m s = ground (arith, observe_all-IsUntouched m.arrivals s)

  wait_loop-IsUntouched :
      (deadline hold : ℕ) (cond : Sequencer → Bool) (held : Option ℕ) (s : Sequencer)
      (script : List Moment)
      → IsUntouched s (after (wait_loop deadline hold cond held s script))
  unfolding wait_loop
  wait_loop-IsUntouched deadline hold cond held s [] =
      elim (verdict deadline hold held (cond s) s)
        as (λ v. IsUntouched s (
          after (elim v [
            | gives_up reason ↦ failed reason s []
            | holds ↦ done s []
            | goes_on since ↦ blocked s
          ]))) [
            | gives_up reason ↦ IsUntouched-refl s
            | holds ↦ IsUntouched-refl s
            | goes_on since ↦ IsUntouched-refl s
          ]
  wait_loop-IsUntouched deadline hold cond held s (m ∷ script) =
      elim (Verdict-cases (verdict deadline hold held (cond s) s)) [
        | inl (r, e) ↦ rw (e, wait_loop) (IsUntouched-refl s)
        | inr (inl e) ↦ rw (e, wait_loop) (IsUntouched-refl s)
        | inr (inr (since, e)) ↦ elim (Bool-cases (resume m s).world.cancelled) [
          | inl cut ↦ rw (e, cut, wait_loop) (resume-IsUntouched m s)
          | inr on ↦
              rw (e, on, wait_loop)
                (IsUntouched-trans (resume-IsUntouched m s)
                  (wait_loop-IsUntouched deadline hold cond since (resume m s) script))
        ]
      ]

  pub wait-IsUntouched :
      (st : ResolvedStep) (cond : Sequencer → Bool) (s : Sequencer) (script : List Moment)
      → IsUntouched s (after (wait st cond s script))
  unfolding wait
  wait-IsUntouched st cond s script =
      wait_loop-IsUntouched (s.world.now + st.timeout) st.hold cond none s script

  pub sleep-IsUntouched :
      (d : ℕ) (s : Sequencer) (script : List Moment) → IsUntouched s (after (sleep d s script))
  unfolding sleep
  sleep-IsUntouched zero s script = rw (after-woken s script) (IsUntouched-refl s)
  sleep-IsUntouched (suc d) s [] = IsUntouched-refl s
  sleep-IsUntouched (suc d) s (m ∷ script) =
      rw (after-woken (resume m s) script) (resume-IsUntouched m s)
