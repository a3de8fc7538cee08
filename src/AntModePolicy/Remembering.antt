-- ===== src/AntModePolicy/Remembering.antt =====
-- antmode/internal/policy/policy.go: an acknowledgement lasts as long as its warnings.
use station_a.AntMode.{Mode, normal, storm, maintenance, other, is_valid}
use station_a.Base.{
  ℕ, String, Bool, true, false, List, [], ◌∷◌, All, ◌≡◌, ◌⊎◌, inl, inr, refl, sym, subst, eq_iff,
  eq_refl, arith, Bool-cases, precedes, str_eq, Result, ok, err, if-both,
}
use station_a.AntModePolicy.Types.{
  Source, Format, Warning, Presence, Changes, Policy, unchanged, is_normal, auto_storm,
  is_auto_storm, contains, prune, same_mode, enter,
}
use station_a.AntModePolicy.Acting.{is_active, pruned, set_mode, evaluate, poll, repark, dismiss}
use station_a.AntModePolicy.Deciding.{evaluate-Enters}
use station_a.AntModePolicy.Acknowledging.{acknowledged, not-Unacked, both_ways}
use station_a.AntModePolicy.Standing.{Event, polled, evaluated, dismissing, reparking, after, run}

-- What a poll or an evaluation sees are these warnings.
abbrev pub Sees : List Warning → Event → Type 0
Sees active (polled now success ws) = ws ≡ active
Sees active (evaluated now ws presence hold) = ws ≡ active
Sees active e = Unit

Acked : List Warning → List String → Type 0
Acked ws s = All (λ w. contains s w.id ≡ true) ws

contains-prune :
    (s : List String) (keep : String → Bool) (v : String)
    → keep v ≡ true
    → contains s v ≡ true
    → contains (prune s keep) v ≡ true
unfolding contains prune
contains-prune [] keep v k h = h
contains-prune (x ∷ xs) keep v k h = elim (Bool-cases (precedes v x)) [
  | inl p ↦
      let same : str_eq x v ≡ true = simp p at h in
      let kept : keep x ≡ true = subst (λ y. keep y ≡ true) (sym ((eq_iff x v).0 same)) k in
      simp (kept, p) same
  | inr p ↦
      let rest = contains-prune xs keep v k (simp p at h) in
      elim (Bool-cases (keep x)) [ inl q ↦ simp (q, p) rest | inr q ↦ simp q rest ]
]

later-active :
    (w : Warning) (ws us : List Warning)
    → All (λ u. is_active ws u.id ≡ true) us
    → All (λ u. is_active (w ∷ ws) u.id ≡ true) us
later-active w ws [] a = tt
later-active w ws (u ∷ us) (h, a) = (ground arith, later-active w ws us a)

each_active : (ws : List Warning) → All (λ w. is_active ws w.id ≡ true) ws
each_active [] = tt
each_active (w ∷ ws) = (rw (eq_refl w.id) refl, later-active w ws ws (each_active ws))

pruned-Acked :
    (active ws : List Warning) (s : List String)
    → All (λ w. is_active active w.id ≡ true) ws
    → Acked ws s
    → Acked ws (prune s (is_active active))
unfolding Acked
pruned-Acked active [] s a h = tt
pruned-Acked active (w ∷ ws) s (a, bs) (h, hs) =
    (contains-prune s (is_active active) w.id a h, pruned-Acked active ws s bs hs)

-- The mode is normal with all these warnings acknowledged, or a locked one that no automation
-- entered.
Settles : List Warning → Policy → Type 0
Settles active q =
    ((is_normal q.state.mode ≡ false) × ((s : Source) → auto_storm q.state.mode s ≡ false))
    ⊎ ((is_normal q.state.mode ≡ true) × Acked active q.state.acked)

normal-auto_storm : (m : Mode) (s : Source) → is_normal m ≡ true → auto_storm m s ≡ false
normal-auto_storm normal s h = refl
normal-auto_storm storm s h = absurd (cc)
normal-auto_storm maintenance s h = absurd (cc)
normal-auto_storm (other t) s h = absurd (cc)

named-auto_storm : (m : Mode) (s : Source) → same_mode normal m ≡ true → auto_storm m s ≡ false
named-auto_storm normal s h = refl
named-auto_storm storm s h = absurd (cc)
named-auto_storm maintenance s h = refl
named-auto_storm (other t) s h = refl

Settles-auto_storm :
    (active : List Warning) (q : Policy) → Settles active q → is_auto_storm q.state ≡ false
unfolding Settles
Settles-auto_storm active q (inl (n, a)) = a q.state.source
Settles-auto_storm active q (inr (n, a)) = normal-auto_storm q.state.mode q.state.source n

module _ ⦃f : Format⦄ where
  Settled : List Warning → Result Mode (Policy × Changes) → Type 0
  Settled active (err m) = Unit
  Settled active (ok (q, c)) = Settles active q

  set_mode-Settled :
      (now : ℕ) (active : List Warning) (p : Policy)
      → is_normal p.state.mode ≡ false
      → Settled active (set_mode normal now active p)
  unfolding set_mode enter Settled Settles is_valid Acked
  set_mode-Settled now active p l = elim (Bool-cases (same_mode normal p.state.mode)) [
    | inl s ↦ simp s (inl (l, λ src. named-auto_storm p.state.mode src s))
    | inr s ↦ simp s (inr (refl, acknowledged active p.state.acked))
  ]

  evaluate-Settles :
      (active : List Warning) (q : Policy)
      → Settles active q
      → (later : ℕ) (presence : Presence) (hold : Bool)
      → evaluate later active presence hold q ≡ (q, unchanged)
  unfolding Settles Acked
  evaluate-Settles active q (inl (n, a)) later presence hold =
      (evaluate-Enters later active presence hold q).1 (λ x. both_ways x.1 n)
  evaluate-Settles active q (inr (n, a)) later presence hold =
      (evaluate-Enters later active presence hold q).1 (λ x. not-Unacked active q.state.acked a x.4)

  poll-quiet :
      (now : ℕ) (active : List Warning) (q : Policy)
      → is_auto_storm q.state ≡ false
      → (poll now true active q).0 ≡ pruned active q
  unfolding poll
  poll-quiet now active q n = rw n refl

  pruned-Settles :
      (active : List Warning) (q : Policy) → Settles active q → Settles active (pruned active q)
  unfolding Settles
  pruned-Settles active q (inl x) = inl x
  pruned-Settles active q (inr (n, a)) =
      inr (n, pruned-Acked active active q.state.acked (each_active active) a)

  poll-Settles :
      (now : ℕ) (success : Bool) (active : List Warning) (q : Policy)
      → Settles active q
      → Settles active (poll now success active q).0
  unfolding poll Settles
  poll-Settles now false active q s = s
  poll-Settles now true active q s =
      subst (Settles active) (sym (poll-quiet now active q (Settles-auto_storm active q s)))
        (pruned-Settles active q s)

  after-Settles :
      (active : List Warning) (e : Event) (q : Policy)
      → Sees active e
      → Settles active q
      → Settles active (after e q)
  unfolding Settles dismiss repark
  after-Settles active (polled now success ws) q h s =
      subst (λ us. Settles active (poll now success us q).0) (sym h)
        (poll-Settles now success active q s)
  after-Settles active (evaluated now ws presence hold) q h s =
      subst (λ us. Settles active (evaluate now us presence hold q).0) (sym h)
        (subst (λ r. Settles active r.0) (sym (evaluate-Settles active q s now presence hold)) s)
  after-Settles active (dismissing ws) q h s = s
  after-Settles active reparking q h s =
      if-both (λ (r : Policy × Changes). Settles active r.0) (is_normal q.state.mode) s s

  run-Settles :
      (active : List Warning) (es : List Event) (q : Policy)
      → All (Sees active) es
      → Settles active q
      → Settles active (run es q)
  run-Settles active [] q hs s = s
  run-Settles active (e ∷ es) q (h, hs) s =
      run-Settles active es (after e q) hs (after-Settles active e q h s)

  -- After the operator has set normal in a locked mode, the warnings that were active then
  -- never enter the storm by themselves: as long as every poll and every evaluation since
  -- saw these same warnings, whatever polls, failed or not, evaluations, dismissals and
  -- reparks there were, an evaluation changes nothing, at any time, manned or not.
  pub set_mode-run :
      (now : ℕ) (active : List Warning) (p q : Policy) (c : Changes) (es : List Event) (later : ℕ)
      (presence : Presence) (hold : Bool)
      → is_normal p.state.mode ≡ false
      → set_mode normal now active p ≡ ok (q, c)
      → All (Sees active) es
      → evaluate later active presence hold (run es q) ≡ (run es q, unchanged)
  unfolding Settled
  set_mode-run now active p q c es later presence hold l e hs =
      evaluate-Settles active (run es q)
        (run-Settles active es q hs (subst (Settled active) e (set_mode-Settled now active p l)))
        later presence hold
