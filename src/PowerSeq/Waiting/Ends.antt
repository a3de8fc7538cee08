-- ===== src/PowerSeq/Waiting/Ends.antt =====
-- powerseq/internal/seq/seq.go: a wait that fails, and that every wait ends.
use station_a.Base.{
  ℕ, ◌+◌, ◌≤◌, ◌<◌, Bool, false, Option, none, String, List, [], ◌∷◌, ◌++◌, All, ◌≡◌, ◌≢◌, refl,
  inl, inr, arith, Bool-cases,
}
use station_a.PowerSeq.Types.{Runtime, ResolvedStep, Sequencer}
use station_a.PowerSeq.Observe.{Moment, Outcome, done, failed, blocked, resume}
use station_a.PowerSeq.Wait.{verdict, wait_loop, wait}
use station_a.PowerSeq.Waiting.{GivesUp, verdict-gives_up, verdict-goes_on, Verdict-cases}

-- Every moment of the script lies before the deadline and was not cancelled.
abbrev AllInTime : ℕ → List Moment → Type 0
AllInTime deadline = All (λ m. (m.world.cancelled ≡ false) × (m.world.now ≤ deadline))

module _ ⦃rt : Runtime⦄ (deadline hold : ℕ) (cond : Sequencer → Bool) where
  failed-GivesUp :
      (r' r : String) (s t : Sequencer) (script rest : List Moment)
      → GivesUp deadline r' s
      → failed r' s script ≡ failed r t rest
      → GivesUp deadline r t
  failed-GivesUp r' r s t script rest g h =
      let p : s ≡ t = cc in let q : r' ≡ r = cc in rw (← p, ← q) g

  wait_loop-failed :
      (held : Option ℕ) (s : Sequencer) (script : List Moment) (r : String) (t : Sequencer)
      (rest : List Moment)
      → wait_loop deadline hold cond held s script ≡ failed r t rest
      → GivesUp deadline r t
  unfolding wait_loop
  wait_loop-failed held s [] r t rest h =
      elim (Verdict-cases (verdict deadline hold held (cond s) s)) [
        | inl (r', e) ↦
            failed-GivesUp r' r s t [] rest (verdict-gives_up deadline hold held (cond s) s r' e)
              (rw (e, wait_loop) at h)
        | inr (inl e) ↦ absurd (cc (rw (e, wait_loop) at h))
        | inr (inr (since, e)) ↦ absurd (cc (rw (e, wait_loop) at h))
      ]
  wait_loop-failed held s (m ∷ script) r t rest h =
      elim (Verdict-cases (verdict deadline hold held (cond s) s)) [
        | inl (r', e) ↦
            failed-GivesUp r' r s t (m ∷ script) rest
              (verdict-gives_up deadline hold held (cond s) s r' e) (rw (e, wait_loop) at h)
        | inr (inl e) ↦ absurd (cc (rw (e, wait_loop) at h))
        | inr (inr (since, e)) ↦ elim (Bool-cases (resume m s).world.cancelled) [
          | inl cut ↦
              failed-GivesUp "interrupted" r (resume m s) t script rest (inl (refl, cut))
                (rw (e, cut, wait_loop) at h)
          | inr on ↦
              wait_loop-failed since (resume m s) script r t rest (rw (e, on, wait_loop) at h)
        ]
      ]

  blocked-here :
      (s : Sequencer) (script : List Moment) (t : Sequencer) (held : Option ℕ)
      → wait_loop deadline hold cond held s script ≡ blocked t
      → (s.world.cancelled ≡ false) × (s.world.now ≤ deadline)
  unfolding wait_loop
  blocked-here s [] t held h = elim (Verdict-cases (verdict deadline hold held (cond s) s)) [
    | inl (r', e) ↦ absurd (cc (rw (e, wait_loop) at h))
    | inr (inl e) ↦ absurd (cc (rw (e, wait_loop) at h))
    | inr (inr (since, e)) ↦
        let i = verdict-goes_on deadline hold held (cond s) s since e in (i.0.0, i.0.2)
  ]
  blocked-here s (m ∷ script) t held h =
      elim (Verdict-cases (verdict deadline hold held (cond s) s)) [
        | inl (r', e) ↦ absurd (cc (rw (e, wait_loop) at h))
        | inr (inl e) ↦ absurd (cc (rw (e, wait_loop) at h))
        | inr (inr (since, e)) ↦
            let i = verdict-goes_on deadline hold held (cond s) s since e in (i.0.0, i.0.2)
      ]

  wait_loop-blocked :
      (held : Option ℕ) (s : Sequencer) (script : List Moment) (t : Sequencer)
      → wait_loop deadline hold cond held s script ≡ blocked t
      → AllInTime deadline script
  unfolding wait_loop
  wait_loop-blocked held s [] t h = tt
  wait_loop-blocked held s (m ∷ script) t h =
      elim (Verdict-cases (verdict deadline hold held (cond s) s)) [
        | inl (r', e) ↦ absurd (cc (rw (e, wait_loop) at h))
        | inr (inl e) ↦ absurd (cc (rw (e, wait_loop) at h))
        | inr (inr (since, e)) ↦ elim (Bool-cases (resume m s).world.cancelled) [
          | inl cut ↦ absurd (cc (rw (e, cut, wait_loop) at h))
          | inr on ↦
              let h' = rw (e, on, wait_loop) at h in
              (
                unfold resume in blocked-here (resume m s) script t since h',
                wait_loop-blocked since (resume m s) script t h',
              )
        ]
      ]

abbrev pub HasReturned : Outcome → Type 0
HasReturned (blocked s) = ⊥
HasReturned o = Unit

returned : (o : Outcome) → ((t : Sequencer) → o ≢ blocked t) → HasReturned o
returned (done t rest) h = tt
returned (failed reason t rest) h = tt
returned (blocked t) h = h t refl

AllInTime-late :
    (deadline : ℕ) (before after : List Moment) (m : Moment)
    → deadline < m.world.now
    → AllInTime deadline (before ++ m ∷ after)
    → ⊥
AllInTime-late deadline [] after m late h = absurd (omega arith)
AllInTime-late deadline (b ∷ before) after m late h =
    AllInTime-late deadline before after m late h.1

module _ ⦃rt : Runtime⦄ (st : ResolvedStep) (cond : Sequencer → Bool) (s : Sequencer)
    (script : List Moment) where
  -- A wait fails only for one of three reasons, and says which: the context was cancelled, the
  -- broker is disconnected, or the deadline is past.
  pub wait-failed :
      (reason : String) (t : Sequencer) (rest : List Moment)
      → wait st cond s script ≡ failed reason t rest
      → GivesUp (s.world.now + st.timeout) reason t
  unfolding wait
  wait-failed reason t rest h =
      wait_loop-failed (s.world.now + st.timeout) st.hold cond none s script reason t rest h

module _ ⦃rt : Runtime⦄ (st : ResolvedStep) (cond : Sequencer → Bool) (s : Sequencer) where
  -- A wait ends: whatever else happens, it has returned, with success or a failure, by the first
  -- moment whose clock is past the deadline.
  pub wait-returns :
      (before after : List Moment) (m : Moment)
      → s.world.now + st.timeout < m.world.now
      → HasReturned (wait st cond s (before ++ m ∷ after))
  unfolding wait
  wait-returns before after m late = returned _ λ t h.
      AllInTime-late (s.world.now + st.timeout) before after m late
        (wait_loop-blocked (s.world.now + st.timeout) st.hold cond none s (before ++ m ∷ after) t h)
