-- ===== src/PowerSeq/Waiting.antt =====
-- powerseq/internal/seq/seq.go: what the wait loop guarantees; one round of it, and the words for
-- a whole wait.
pub mod Done
pub mod Ends
use station_a.Base.{
  ℕ, ◌+◌, ◌≤◌, ◌<◌, String, Bool, true, false, Option, none, some, List, [], ◌∷◌, All, ◌≡◌, refl,
  ◌⊎◌, inl, inr, arith, Bool-cases,
}
use station_a.PowerSeq.Types.{Runtime, ResolvedStep, Sequencer}
use station_a.PowerSeq.Observe.{Moment, Outcome, done, failed, blocked, resume}
use station_a.PowerSeq.Wait.{
  Verdict, gives_up, holds, goes_on, hold_start, hold_verdict, verdict, wait_loop, wait,
}

-- The polls of a wait go from one state and script to another.
pub data Reaches ⦃rt : Runtime⦄ : Sequencer → List Moment → Sequencer → List Moment → Type 0 where
  at_once : {s : Sequencer} {script : List Moment} → Reaches s script s script
  polled :
      {m : Moment} {s t : Sequencer} {script rest : List Moment}
      → Reaches (resume m s) script t rest
      → Reaches s (m ∷ script) t rest

-- The condition is met at every poll of the way, the first and the last included.
pub data Holding ⦃rt : Runtime⦄ (cond : Sequencer → Bool)
    : Sequencer → List Moment → Sequencer → List Moment → Type 0 where
  met : {s : Sequencer} {script : List Moment} → cond s ≡ true → Holding cond s script s script
  kept :
      {m : Moment} {s t : Sequencer} {script rest : List Moment}
      → cond s ≡ true
      → Holding cond (resume m s) script t rest
      → Holding cond s (m ∷ script) t rest

-- From some poll on the condition was met at every poll, for at least the hold time.
pub record Held ⦃rt : Runtime⦄ (cond : Sequencer → Bool) (hold : ℕ) (s : Sequencer)
    (script : List Moment) (t : Sequencer) (rest : List Moment) : Type 0 where
  pub from : Sequencer
  pub polls : List Moment
  pub before : Reaches s script from polls
  pub during : Holding cond from polls t rest
  pub long : from.world.now + hold ≤ t.world.now

-- Why a wait gives up, at the state where it does.
abbrev pub GivesUp : ℕ → String → Sequencer → Type 0
GivesUp deadline reason t =
    ((reason ≡ "interrupted") × (t.world.cancelled ≡ true))
    ⊎ (((reason ≡ "broker disconnected") × (t.online ≡ false))
        ⊎ ((reason ≡ "timeout") × (deadline < t.world.now)))

abbrev InTime : ℕ → Sequencer → Type 0
InTime deadline t = (t.world.cancelled ≡ false) × (t.online ≡ true) × (t.world.now ≤ deadline)

module _ (deadline hold : ℕ) (held : Option ℕ) (c : Bool) (s : Sequencer) where
  verdict-gives_up :
      (reason : String)
      → verdict deadline hold held c s ≡ gives_up reason
      → GivesUp deadline reason s
  unfolding verdict
  verdict-gives_up reason h = ground arith

  verdict-holds :
      verdict deadline hold held c s ≡ holds
      → InTime deadline s
        × (c ≡ true)
        × ((hold ≡ 0) ⊎ (hold_start held s.world.now + hold ≤ s.world.now))
  unfolding verdict
  verdict-holds h = ground arith

  verdict-goes_on :
      (since : Option ℕ)
      → verdict deadline hold held c s ≡ goes_on since
      → InTime deadline s
        × (((c ≡ true) × (since ≡ some (hold_start held s.world.now))) ⊎ (since ≡ none))
  unfolding verdict
  verdict-goes_on since h = ground arith

pub Verdict-cases :
    (v : Verdict)
    → ((r : String) × (v ≡ gives_up r)) ⊎ ((v ≡ holds) ⊎ ((u : Option ℕ) × (v ≡ goes_on u)))
Verdict-cases (gives_up r) = inl (r, refl)
Verdict-cases holds = inr (inl refl)
Verdict-cases (goes_on u) = inr (inr (u, refl))
