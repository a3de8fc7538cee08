-- ===== src/AntModeEngine/Carrying.antt =====
-- antmode/internal/engine/engine.go: what a step makes of a lock that the engine has.
use station_a.Base.{subst, Bool, true, false, Option, none, some, ◌≡◌, inl, inr, refl, sym, ◌∙◌, ℤ}
use station_a.AntMode.{Lock}
use station_a.AntModePolicy.Types.{Policy, is_normal, unchanged}
use station_a.AntModePolicy.Acting as Acting
use station_a.AntModeEngine.Types.{Engine, Outside}
use station_a.AntModeEngine.Parking.{park_heading}
use station_a.AntModeEngine.Publishing.{active_at, presence, track_presence}
use station_a.AntModeEngine.Borrowing.{step_borrow}
use station_a.AntModeEngine.Stepping.{note_tx, entered, auto_enter, late_borrow, step_lock, step}
use station_a.AntModeEngine.Frames.{
  Same, Moves, late_borrow-Moves, note_tx-Same, track_presence-Same, step_borrow-Same,
}
use station_a.AntModeEngine.Fitting.{Fitting, Sound, Same-Sound}
use station_a.AntModeEngine.Keeping.{step_lock-Sound, late_borrow-Sound}
use station_a.AntModeEngine.Order.{Grows, Keeps, step_lock-Steps}

-- A park azimuth that was chosen stays.
abbrev pub Stays : Option ℤ → Option ℤ → Type 0
Stays none o = Unit
Stays (some z) o = o ≡ some z

-- A retract that was ordered stays so.
abbrev pub Ordered : Bool → Bool → Type 0
Ordered false b = Unit
Ordered true b = b ≡ true

-- The same lock, further built.
abbrev pub Extends : Lock → Lock → Type 0
Extends l m =
    (m.seq ≡ l.seq)
    × (m.ground ≡ l.ground)
    × (m.nudge ≡ l.nudge)
    × Ordered l.retract m.retract
    × Stays l.park_az m.park_az

Stays-refl : (z : Option ℤ) → Stays z z
Stays-refl none = tt
Stays-refl (some z) = refl

Stays-trans : (x y z : Option ℤ) → Stays x y → Stays y z → Stays x z
Stays-trans none y z p q = tt
Stays-trans (some x) none z p q = cc
Stays-trans (some x) (some y) z p q = q ∙ p

Ordered-refl : (a : Bool) → Ordered a a
Ordered-refl false = tt
Ordered-refl true = refl

Ordered-true : (a : Bool) → Ordered a true
Ordered-true false = tt
Ordered-true true = refl

Ordered-trans : (a b c : Bool) → Ordered a b → Ordered b c → Ordered a c
Ordered-trans false b c p q = tt
Ordered-trans true false c p q = cc
Ordered-trans true true c p q = q

pub Extends-refl : (l : Lock) → Extends l l
Extends-refl l = (refl, refl, refl, Ordered-refl l.retract, Stays-refl l.park_az)

Extends-trans : (l m n : Lock) → Extends l m → Extends m n → Extends l n
Extends-trans l m n (a, b, c, r, z) (a', b', c', r', z') = (
  a' ∙ a,
  b' ∙ b,
  c' ∙ c,
  Ordered-trans l.retract m.retract n.retract r r',
  Stays-trans l.park_az m.park_az n.park_az z z',
)

-- A ready engine that has the policy `p`, and the lock `l` or what was built of it.
abbrev pub Carries : Policy → Lock → Engine → Type 0
Carries p l e =
    Sound e × (e.ready ≡ true) × (e.pol ≡ p) × ((m : Lock) × ((e.lock ≡ some m) × Extends l m))

module _ (p : Policy) (l : Lock) where
  pub Same-Carries : (e d : Engine) → Same e d → Carries p l e → Carries p l d
  Same-Carries e d (a, b, c, q, n) (s, r, o, (m, (h, x))) =
      (Same-Sound e d (a, b, c, q, n) s, n ∙ r, b ∙ o, (m, (c ∙ h, x)))

module _ ⦃out : Outside⦄ (p : Policy) (l : Lock) where
  -- A locked mode is not entered again.
  still :
      (e : Engine)
      → is_normal e.pol.state.mode ≡ false
      → Acting.evaluate e.now (active_at e.now e.warnings) (presence e) false e.pol
        ≡ (e.pol, unchanged)
  unfolding Acting.evaluate
  still e n = rw n refl

  auto_enter-Carries : (e : Engine) → Carries p l e → Carries p l (auto_enter e)
  unfolding auto_enter entered
  auto_enter-Carries e (s, r, o, (m, (h, x))) =
      rw (still e (locked (subst (λ q. Fitting e.pol.state.mode q e.phase) h s.1)))
        (s, r, o, (m, (h, x)))
    where
      locked : Fitting e.pol.state.mode (some m) e.phase → is_normal e.pol.state.mode ≡ false
      locked (a, b, c, d, q, t) = a

  late_borrow-Carries : (e : Engine) → Carries p l e → Carries p l (late_borrow e)
  late_borrow-Carries e (s, r, o, (m, (h, x))) = by (late_borrow-Moves e)
    where
      by : Moves e (late_borrow e) → Carries p l (late_borrow e)
      by (a, b, c, q, n) = (late_borrow-Sound e s, n ∙ r, b ∙ o, (m, (c ∙ h, x)))

  grown :
      (e : Engine) (m : Lock) (o : Option Lock)
      → Grows e m o
      → (n : Lock) × ((o ≡ some n) × Extends m n)
  grown e m o (inl h) = (m, (h, Extends-refl m))
  grown e m o (inr (inl (h, q, t))) =
      (_, (h, (refl, refl, refl, Ordered-true m.retract, Stays-refl m.park_az)))
  grown e m o (inr (inr (h, z, q, r, t))) = (
    _,
    (
      h,
      (
        refl,
        refl,
        refl,
        Ordered-refl m.retract,
        subst (λ o. Stays o (some (park_heading e))) (sym z) tt,
      ),
    ),
  )

  step_lock-Carries : (e : Engine) → Carries p l e → Carries p l (step_lock e)
  step_lock-Carries e (s, r, o, (m, (h, x))) = by (step_lock-Steps e m h s.1)
    where
      by : Grows e m (step_lock e).lock × Keeps e (step_lock e) → Carries p l (step_lock e)
      by (g, (b, n)) = (step_lock-Sound e s, n ∙ r, b ∙ o, further (grown e m (step_lock e).lock g))
        where
          further :
              ((n : Lock) × (((step_lock e).lock ≡ some n) × Extends m n))
              → (n : Lock) × (((step_lock e).lock ≡ some n) × Extends l n)
          further (n, (q, y)) = (n, (q, Extends-trans l m n x y))

  pub step-Carries : (e : Engine) → Carries p l e → Carries p l (step e)
  unfolding step
  step-Carries e s = Same-Carries p l locked (step_borrow locked) (step_borrow-Same locked) (
      step_lock-Carries (late_borrow (auto_enter tracked)) (
        late_borrow-Carries (auto_enter tracked) (
          auto_enter-Carries tracked (
            Same-Carries p l (note_tx e) tracked (track_presence-Same (note_tx e))
              (Same-Carries p l e (note_tx e) (note_tx-Same e) s)))))
    where
      tracked : Engine
      tracked = track_presence (note_tx e)

      locked : Engine
      locked = step_lock (late_borrow (auto_enter tracked))
