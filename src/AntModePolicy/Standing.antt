-- ===== src/AntModePolicy/Standing.antt =====
-- antmode/internal/policy/policy.go: a locked mode that the operator entered, under whatever
-- happens but the operator's `set_ant_mode`.
use station_a.AntMode.{Mode, normal, storm, maintenance, other}
use station_a.Base.{
  ℕ, Bool, true, false, List, [], ◌∷◌, ◌≡◌, refl, sym, subst, ◌∙◌, inl, inr, arith, Bool-cases,
}
use station_a.AntModePolicy.Deciding.{evaluate-Enters, poll-Exits}
use station_a.AntModePolicy.Types.{
  Presence, Source, by_operator, by_automation, no_source, Format, Warning, Policy, is_normal,
  auto_storm, is_auto_storm,
}
use station_a.AntModePolicy.Acting.{evaluate, poll, repark, dismiss}

-- What calls the policy, but for `SetMode`.
pub data Event : Type 0 where
  polled : ℕ → Bool → List Warning → Event
  evaluated : ℕ → List Warning → Presence → Bool → Event
  dismissing : List Warning → Event
  reparking : Event

abbrev pub after : ⦃f : Format⦄ → Event → Policy → Policy
after (polled now success active) p = (poll now success active p).0
after (evaluated now active presence hold) p = (evaluate now active presence hold p).0
after (dismissing active) p = (dismiss active p).0
after reparking p = (repark p).0

abbrev pub run : ⦃f : Format⦄ → List Event → Policy → Policy
run [] p = p
run (e ∷ es) p = run es (after e p)

abbrev pub Standing : Policy → Mode → Type 0
Standing p m = (p.state.mode ≡ m) × (p.state.source ≡ by_operator)

auto_storm-operator : (m : Mode) (s : Source) → s ≡ by_operator → auto_storm m s ≡ false
auto_storm-operator storm by_automation e = absurd (cc)
auto_storm-operator storm by_operator e = refl
auto_storm-operator storm no_source e = refl
auto_storm-operator normal src e = refl
auto_storm-operator maintenance src e = refl
auto_storm-operator (other t) src e = refl

locked-not : (m k : Mode) → is_normal m ≡ false → k ≡ m → is_normal k ≡ true → ⊥
locked-not m k n e t = absurd (cc)

repark-kept :
    (p : Policy)
    → ((repark p).0.state.mode ≡ p.state.mode) × ((repark p).0.state.source ≡ p.state.source)
unfolding repark
repark-kept p = elim (Bool-cases (is_normal p.state.mode)) [
  | inl e ↦ simp e (refl, refl)
  | inr e ↦ simp e (refl, refl)
]

after-Standing :
    ⦃f : Format⦄ (e : Event) (p : Policy) (m : Mode)
    → is_normal m ≡ false
    → Standing p m
    → Standing (after e p) m
unfolding poll dismiss
after-Standing (polled now false active) p m n s = s
after-Standing (polled now true active) p m n (a, b) =
    let no_auto : is_auto_storm p.state ≡ false =
      auto_storm-operator p.state.mode p.state.source b in
    let (c, at, by, q) = (poll-Exits now p active).1 (λ x. ground (arith, x.0, no_auto)) in
    (at ∙ a, by ∙ b)
after-Standing (evaluated now active presence hold) p m n (a, b) =
    let kept = (evaluate-Enters now active presence hold p).1 (λ x. locked-not m _ n a x.1) in
    subst (λ qc. Standing qc.0 m) (sym kept) (a, b)
after-Standing (dismissing active) p m n s = s
after-Standing reparking p m n (a, b) = let (at, by) = repark-kept p in (at ∙ a, by ∙ b)

-- A storm or a maintenance that the operator entered stays, as the operator's, through any
-- sequence of polls, evaluations, dismissals and reparks: only `set_ant_mode` ends it.
pub run-Standing :
    ⦃f : Format⦄ (es : List Event) (p : Policy) (m : Mode)
    → is_normal m ≡ false
    → Standing p m
    → Standing (run es p) m
run-Standing [] p m n s = s
run-Standing (e ∷ es) p m n s = run-Standing es (after e p) m n (after-Standing e p m n s)
