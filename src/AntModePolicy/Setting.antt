-- ===== src/AntModePolicy/Setting.antt =====
-- antmode/internal/policy/policy.go: what `SetMode` does on every branch.
use station_a.AntMode.{Mode, is_valid}
use station_a.Base.{
  ℕ, true, false, none, List, ◌≡◌, refl, Bool-cases, inl, inr, Result, ok, err, if◌then◌else◌,
}
use station_a.AntModePolicy.Types.{
  by_operator, Format, Warning, Changes, Policy, unchanged, changed_from, is_normal, bumped,
  same_mode, acknowledge, enter,
}
use station_a.AntModePolicy.Acting.{set_mode}

-- The outcome of a request for a mode.
pub data Sets ⦃f : Format⦄ (m : Mode) (now : ℕ) (active : List Warning) (p : Policy)
    : Result Mode (Policy × Changes) → Type 0 where
  unknown : is_valid m ≡ false → Sets m now active p (err m)
  no_op :
      is_valid m ≡ true → same_mode m p.state.mode ≡ true → Sets m now active p (ok (p, unchanged))
  entered :
      {q : Policy}
      → is_valid m ≡ true
      → same_mode m p.state.mode ≡ false
      → q.state.mode ≡ m
      → q.state.source ≡ by_operator
      → q.state.since ≡ now
      → q.state.seq ≡ (if is_normal m then p.state.seq else bumped p.state.seq)
      → q.state.acked ≡ (if is_normal m then acknowledge active p.state.acked else p.state.acked)
      → q.state.dismissed ≡ p.state.dismissed
      → q.state.quiet_for ≡ 0
      → q.last_clean ≡ none
      → Sets m now active p (ok (q, changed_from p.state.mode))

-- A request for a mode is refused if the mode is unknown and changes nothing if it is the current
-- one. Otherwise the operator's mode is entered now: a locked mode bumps the lock sequence, normal
-- keeps it and acknowledges the active warnings, the dismissed ones are kept, and the quiet time
-- starts anew.
pub set_mode-Sets :
    ⦃f : Format⦄ (m : Mode) (now : ℕ) (active : List Warning) (p : Policy)
    → Sets m now active p (set_mode m now active p)
unfolding set_mode enter
set_mode-Sets m now active p = elim (Bool-cases (is_valid m)) [
  | inr v ↦ simp v (unknown v)
  | inl v ↦ elim (Bool-cases (same_mode m p.state.mode)) [
    | inl s ↦ simp (v, s) (no_op v s)
    | inr s ↦ elim (Bool-cases (is_normal m)) [
      | inl n ↦ simp (v, s, n) (entered v s refl refl refl (rw n refl) (rw n refl) refl refl refl)
      | inr n ↦ simp (v, s, n) (entered v s refl refl refl (rw n refl) (rw n refl) refl refl refl)
    ]
  ]
]
