-- ===== src/AntModePolicy/Deciding.antt =====
-- antmode/internal/policy/policy.go: when automation changes the mode, and when it never does.
use station_a.AntMode.{normal, storm}
use station_a.Base.{
  ℕ, ◌+◌, ◌≤◌, String, Bool, true, false, none, some, List, [], ◌∷◌, ◌≡◌, ◌⊎◌, inl, inr, refl,
  arith, Bool-cases, leb,
}
use station_a.AntModePolicy.Types.{
  Presence, by_automation, Format, Warning, Changes, Policy, is_normal, is_auto_storm, bumped,
  contains, enter, unchanged,
}
use station_a.AntModePolicy.Acting.{
  is_unmanned, is_nil, elapsed, unacked, evaluate, poll, quiet_poll,
}

-- Some active warning is not acknowledged.
abbrev pub Unacked : List Warning → List String → Type 0
Unacked [] acked = ⊥
Unacked (w ∷ ws) acked = (contains acked w.id ≡ false) ⊎ Unacked ws acked

unacked-Unacked :
    (ws : List Warning) (acked : List String) → is_nil (unacked ws acked) ≡ false → Unacked ws acked
unfolding unacked
unacked-Unacked [] acked e = absurd (cc)
unacked-Unacked (w ∷ ws) acked e = elim (Bool-cases (contains acked w.id)) [
  | inl c ↦ inr (unacked-Unacked ws acked (simp c at e))
  | inr c ↦ inl c
]

Unacked-unacked :
    (ws : List Warning) (acked : List String) → Unacked ws acked → is_nil (unacked ws acked) ≡ false
unfolding unacked
Unacked-unacked [] acked u = absurd u
Unacked-unacked (w ∷ ws) acked (inl c) = simp c refl
Unacked-unacked (w ∷ ws) acked (inr u) = elim (Bool-cases (contains acked w.id)) [
  | inl c ↦ simp c (Unacked-unacked ws acked u)
  | inr c ↦ simp c refl
]

module _ (now : ℕ) (active : List Warning) (presence : Presence) (hold : Bool) (p : Policy) where
  -- When automation enters the storm.
  abbrev pub Enters : Type 0
  Enters =
      (hold ≡ false)
      × (is_normal p.state.mode ≡ true)
      × (is_unmanned presence ≡ true)
      × (p.config.auto_enter ≡ true)
      × Unacked active p.state.acked

  evaluate-enters :
      Enters
      → let (q, c) = evaluate now active presence hold p in
        (c.mode_changed ≡ some normal)
        × (q.state.mode ≡ storm)
        × (q.state.source ≡ by_automation)
        × (q.state.seq ≡ bumped p.state.seq)
        × (q.state.acked ≡ p.state.acked)
        × (q.state.quiet_for ≡ 0)
        × (q.last_clean ≡ none)
  unfolding evaluate enter
  evaluate-enters (h, n, u, a, w) =
      simp (h, n, u, a, Unacked-unacked _ _ w) (refl, refl, refl, refl, refl, refl, refl)

  evaluate-stays : ¬ Enters → evaluate now active presence hold p ≡ (p, unchanged)
  unfolding evaluate
  evaluate-stays out = elim (Bool-cases hold) [
    | inl h ↦ simp h refl
    | inr h ↦ elim (Bool-cases (is_normal p.state.mode)) [
      | inr n ↦ simp (h, n) refl
      | inl n ↦ elim (Bool-cases (is_unmanned presence)) [
        | inr u ↦ simp (h, n, u) refl
        | inl u ↦ elim (Bool-cases p.config.auto_enter) [
          | inr a ↦ simp (h, n, u, a) refl
          | inl a ↦ elim (Bool-cases (is_nil (unacked active p.state.acked))) [
            | inl e ↦ simp (h, n, u, a, e) refl
            | inr e ↦ absurd (out (h, n, u, a, unacked-Unacked _ _ e))
          ]
        ]
      ]
    ]
  ]

  -- Automation enters the storm exactly if nothing holds it back, the mode is normal, the station
  -- is unmanned, automatic entry is on and some active warning is not acknowledged. The entry bumps
  -- the lock sequence and starts the quiet time anew; otherwise nothing changes at all.
  pub evaluate-Enters :
      let (q, c) = evaluate now active presence hold p in
      (Enters
        → (c.mode_changed ≡ some normal)
          × (q.state.mode ≡ storm)
          × (q.state.source ≡ by_automation)
          × (q.state.seq ≡ bumped p.state.seq)
          × (q.state.acked ≡ p.state.acked)
          × (q.state.quiet_for ≡ 0)
          × (q.last_clean ≡ none))
      × (¬ Enters → evaluate now active presence hold p ≡ (p, unchanged))
  evaluate-Enters = (evaluate-enters, evaluate-stays)

to_leb : {m n : ℕ} → m ≤ n → leb m n ≡ true
to_leb h = ground (arith, h)

-- What a poll reports and leaves, if it exits and if it does not.
abbrev pub Exited : Policy → Policy × Changes → Type 0
Exited p (q, c) =
    (c.mode_changed ≡ some storm) × (q.state.mode ≡ normal) × (q.state.seq ≡ p.state.seq)

abbrev pub Remained : Policy → Policy × Changes → Type 0
Remained p (q, c) =
    (c.mode_changed ≡ none)
    × (q.state.mode ≡ p.state.mode)
    × (q.state.source ≡ p.state.source)
    × (q.state.seq ≡ p.state.seq)

module _ ⦃f : Format⦄ (now : ℕ) (p : Policy) where
  -- When a poll ends the storm.
  abbrev pub Exits : List Warning → Type 0
  Exits active =
      (is_auto_storm p.state ≡ true)
      × (is_nil active ≡ true)
      × (p.config.exit_holdoff ≤ p.state.quiet_for + elapsed p.last_clean now)

  poll-exit : (active : List Warning) → Exits active → Exited p (poll now true active p)
  unfolding poll quiet_poll enter
  poll-exit active (s, n, h) = simp (s, n, to_leb h) (refl, refl, refl)

  poll-remain : (active : List Warning) → ¬ Exits active → Remained p (poll now true active p)
  unfolding poll quiet_poll
  poll-remain active out = elim (Bool-cases (is_auto_storm p.state)) [
    | inr s ↦ simp s (refl, refl, refl, refl)
    | inl s ↦ elim (Bool-cases (is_nil active)) [
      | inr n ↦ simp (s, n) (refl, refl, refl, refl)
      | inl n ↦
          elim (Bool-cases
            (leb p.config.exit_holdoff (p.state.quiet_for + elapsed p.last_clean now))) [
              | inr h ↦ simp (s, n, h) (refl, refl, refl, refl)
              | inl h ↦ absurd (out (s, n, ground (arith, h)))
            ]
    ]
  ]

  -- A successful poll ends a storm exactly if automation entered it, no warning is active and the
  -- quiet time, with what passed since the last clean poll, fills the holdoff; an outage changes
  -- nothing but that the time up to the next poll does not count.
  pub poll-Exits :
      (active : List Warning)
      → (Exits active → Exited p (poll now true active p))
        × (¬ Exits active → Remained p (poll now true active p))
        × (poll now false active p ≡ (record p { last_clean = none }, unchanged))
  unfolding poll
  poll-Exits active = (poll-exit active, poll-remain active, refl)
