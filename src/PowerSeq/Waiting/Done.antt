-- ===== src/PowerSeq/Waiting/Done.antt =====
-- powerseq/internal/seq/seq.go: a wait that succeeds.
use station_a.Base.{
  ℕ, ◌+◌, ◌≤◌, Bool, true, false, Option, none, some, List, [], ◌∷◌, ◌≡◌, ◌⊎◌, inl, inr, arith,
  Bool-cases,
}
use station_a.PowerSeq.Types.{Runtime, ResolvedStep, Sequencer}
use station_a.PowerSeq.Observe.{Moment, done, resume}
use station_a.PowerSeq.Wait.{holds, goes_on, hold_start, verdict, wait_loop, wait}
use station_a.PowerSeq.Waiting.{
  at_once, polled, Holding, met, kept, Held, InTime, verdict-holds, verdict-goes_on, Verdict-cases,
}

done-injective : {s t : Sequencer} {a b : List Moment} → done s a ≡ done t b → (s ≡ t) × (a ≡ b)
done-injective h = (cc, cc)

module _ ⦃rt : Runtime⦄ (deadline hold : ℕ) (cond : Sequencer → Bool) where
  -- The window that was open before the first poll is still open at the end.
  Continued : Option ℕ → Sequencer → List Moment → Sequencer → List Moment → Type 0
  Continued none s script t rest = ⊥
  Continued (some since) s script t rest =
      Holding cond s script t rest × (since + hold ≤ t.world.now)

  Window : Option ℕ → Sequencer → List Moment → Sequencer → List Moment → Type 0
  Window held s script t rest = Continued held s script t rest ⊎ Held cond hold s script t rest

  Window-here :
      (held : Option ℕ) (s : Sequencer) (script : List Moment)
      → cond s ≡ true
      → (hold ≡ 0) ⊎ (hold_start held s.world.now + hold ≤ s.world.now)
      → Window held s script s script
  unfolding Window Continued
  Window-here none s script c h =
      inr
        (record { from = s; polls = script; before = at_once; during = met c; long = omega arith })
  Window-here (some since) s script c (inl h) =
      inr
        (record { from = s; polls = script; before = at_once; during = met c; long = omega arith })
  Window-here (some since) s script c (inr h) = inl (met c, h)

  Held-polled :
      (m : Moment) (s : Sequencer) (script : List Moment) (t : Sequencer) (rest : List Moment)
      → Held cond hold (resume m s) script t rest
      → Held cond hold s (m ∷ script) t rest
  Held-polled m s script t rest h = record {
    from = h.from;
    polls = h.polls;
    before = polled h.before;
    during = h.during;
    long = h.long;
  }

  Window-polled :
      (held : Option ℕ) (m : Moment) (s : Sequencer) (script : List Moment) (t : Sequencer)
      (rest : List Moment)
      → cond s ≡ true
      → Window (some (hold_start held s.world.now)) (resume m s) script t rest
      → Window held s (m ∷ script) t rest
  unfolding Window Continued
  Window-polled none m s script t rest c (inl w) =
      inr
        (record { from = s; polls = m ∷ script; before = at_once; during = kept c w.0; long = w.1 })
  Window-polled (some since) m s script t rest c (inl w) = inl (kept c w.0, w.1)
  Window-polled held m s script t rest c (inr w) = inr (Held-polled m s script t rest w)

  -- What a finished wait has shown.
  Passed : Option ℕ → Sequencer → List Moment → Sequencer → List Moment → Type 0
  Passed held s script t rest = (cond t ≡ true) × InTime deadline t × Window held s script t rest

  Passed-here :
      (held : Option ℕ) (s : Sequencer) (script : List Moment) (t : Sequencer) (rest : List Moment)
      → verdict deadline hold held (cond s) s ≡ holds
      → done s script ≡ done t rest
      → Passed held s script t rest
  unfolding Passed
  Passed-here held s script t rest e h =
      let (intime, c, w) = verdict-holds deadline hold held (cond s) s e in
      let (p, q) = done-injective h in rw (← p, ← q) (c, intime, Window-here held s script c w)

  Window-broken :
      (held : Option ℕ) (m : Moment) (s : Sequencer) (script : List Moment) (t : Sequencer)
      (rest : List Moment)
      → Window none (resume m s) script t rest
      → Window held s (m ∷ script) t rest
  unfolding Window Continued
  Window-broken held m s script t rest (inl w) = absurd w
  Window-broken held m s script t rest (inr w) = inr (Held-polled m s script t rest w)

  Passed-polled :
      (held since : Option ℕ) (m : Moment) (s : Sequencer) (script : List Moment) (t : Sequencer)
      (rest : List Moment)
      → verdict deadline hold held (cond s) s ≡ goes_on since
      → Passed since (resume m s) script t rest
      → Passed held s (m ∷ script) t rest
  unfolding Passed
  Passed-polled held since m s script t rest e (c, intime, w) = (
    c,
    intime,
    elim (verdict-goes_on deadline hold held (cond s) s since e).1 [
      | inl (cs, p) ↦ Window-polled held m s script t rest cs (rw p at w)
      | inr p ↦ Window-broken held m s script t rest (rw p at w)
    ],
  )

  wait_loop-done :
      (held : Option ℕ) (s : Sequencer) (script : List Moment) (t : Sequencer) (rest : List Moment)
      → wait_loop deadline hold cond held s script ≡ done t rest
      → Passed held s script t rest
  unfolding wait_loop
  wait_loop-done held s [] t rest h = elim (Verdict-cases (verdict deadline hold held (cond s) s)) [
    | inl (r, e) ↦ absurd (cc (rw (e, wait_loop) at h))
    | inr (inl e) ↦ Passed-here held s [] t rest e (rw (e, wait_loop) at h)
    | inr (inr (since, e)) ↦ absurd (cc (rw (e, wait_loop) at h))
  ]
  wait_loop-done held s (m ∷ script) t rest h =
      elim (Verdict-cases (verdict deadline hold held (cond s) s)) [
        | inl (r, e) ↦ absurd (cc (rw (e, wait_loop) at h))
        | inr (inl e) ↦ Passed-here held s (m ∷ script) t rest e (rw (e, wait_loop) at h)
        | inr (inr (since, e)) ↦ elim (Bool-cases (resume m s).world.cancelled) [
          | inl cut ↦ absurd (cc (rw (e, cut, wait_loop) at h))
          | inr on ↦
              Passed-polled held since m s script t rest e
                (wait_loop-done since (resume m s) script t rest (rw (e, on, wait_loop) at h))
        ]
      ]

module _ ⦃rt : Runtime⦄ (st : ResolvedStep) (cond : Sequencer → Bool) (s : Sequencer)
    (script : List Moment) where
  -- A wait that succeeds ends where its condition is met, the broker is connected, the context
  -- is live and the deadline is not past; and from some earlier poll on, at least the hold time
  -- before, the condition was met at every poll.
  pub wait-done :
      (t : Sequencer) (rest : List Moment)
      → wait st cond s script ≡ done t rest
      → (cond t ≡ true)
        × ((t.world.cancelled ≡ false)
            × (t.online ≡ true)
            × (t.world.now ≤ s.world.now + st.timeout))
        × Held cond st.hold s script t rest
  unfolding wait Passed Window Continued
  wait-done t rest h =
      let (c, i, w) =
        wait_loop-done (s.world.now + st.timeout) st.hold cond none s script t rest h in
      (c, i, elim w [ inl no_window ↦ absurd no_window | inr held ↦ held ])
