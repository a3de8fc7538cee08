-- ===== src/AntModeEngine/Fitting.antt =====
-- antmode/internal/engine/engine.go: the mode, the lock and the phase fit each other, and every
-- step keeps it.
use station_a.Base.{
  ℕ, ◌≤◌, String, Bool, true, false, ◌&&◌, Option, none, some, ◌==◌, ◌≡◌, inl, inr, refl, ap, sym,
  ◌∙◌, ℤ, Degrees, arith, eq_iff, le→leb, is_some, str_eq, if-both, if-cases, if◌then◌else◌,
}
use station_a.AntMode.{Mode, Lock, is_valid, in_travel}
use station_a.AntModePolicy.Types.{is_normal}
use station_a.AntModeEngine.Types.{
  same_phase, phase_code, phase_text, live, Phase, idle, grounding, retracting, awaiting_power,
  awaiting_devices, rotating, parked, failed, unknown, Config, Engine, Outside,
}
use station_a.AntModeEngine.Heading as Heading
use station_a.AntModeEngine.Bearing.{Chosen, storm-Chosen}
use station_a.AntModeEngine.Parking.{
  set_phase, is_storm, is_maintenance, fresh_wind, park_heading, compute_park, note_park_target,
}
use station_a.AntModeEngine.Frames.{Same, Moves, note_park_target-Same}

-- What the lock says of the phases that were reached.
abbrev pub has_reached : Phase → Lock → Bool
has_reached idle l = false
has_reached grounding l = true
has_reached retracting l = l.retract
has_reached awaiting_power l = true
has_reached awaiting_devices l = true
has_reached rotating l = is_some l.park_az
has_reached parked l = is_some l.park_az
has_reached failed l = is_some l.park_az
has_reached (unknown t) l = false

-- A park azimuth is within the travel of the rotator and stands only where the retract does.
abbrev pub Park : Bool → Option ℤ → Type 0
Park r none = Unit
Park r (some z) = (r ≡ true) × (in_travel z ≡ true)

abbrev pub Fitting : Mode → Option Lock → Phase → Type 0
Fitting m none p = (is_normal m ≡ true) × (p ≡ idle)
Fitting m (some l) p =
    (is_normal m ≡ false)
    × (is_valid m ≡ true)
    × (l.ground ≡ true)
    × (l.nudge ≡ is_maintenance m)
    × Park l.retract l.park_az
    × (has_reached p l ≡ true)

-- The lock is there in a locked mode and grounds, its parts fit the mode and the phase.
abbrev pub Fit : Engine → Type 0
Fit e = Fitting e.pol.state.mode e.lock e.phase

-- The azimuths of the configuration are within the travel of the rotator.
abbrev pub CfgFit : Config → Type 0
CfgFit c =
    (in_travel c.fallback_az ≡ true)
    × (in_travel c.maintenance_az ≡ true)
    × (Heading.reach c.max_az ≤ 450)

abbrev pub Sound : Engine → Type 0
Sound e = CfgFit e.cfg × Fit e

of_code : ℕ → String → Phase
of_code n t =
    if n == 0
    then idle
    else if n == 1
    then grounding
    else if n == 2
    then retracting
    else if n == 3
    then awaiting_power
    else if n == 4
    then awaiting_devices
    else if n == 5
    then rotating
    else if n == 6
    then parked
    else if n == 7
    then failed
    else unknown t

of_code-phase_code : (p : Phase) → of_code (phase_code p) (phase_text p) ≡ p
unfolding of_code
of_code-phase_code idle = refl
of_code-phase_code grounding = refl
of_code-phase_code retracting = refl
of_code-phase_code awaiting_power = refl
of_code-phase_code awaiting_devices = refl
of_code-phase_code rotating = refl
of_code-phase_code parked = refl
of_code-phase_code failed = refl
of_code-phase_code (unknown t) = refl

both : (a b : Bool) → (a && b) ≡ true → (a ≡ true) × (b ≡ true)
both a b h = (ground arith, ground arith)

eqb→eq : (a b : ℕ) → (a == b) ≡ true → a ≡ b
eqb→eq a b h = ground arith

text_eq : (a b : String) → str_eq a b ≡ true → a ≡ b
text_eq a b h = ground (arith, eq_iff a b)

pub same_phase-eq : (p q : Phase) → same_phase p q ≡ true → p ≡ q
same_phase-eq p q h =
    by (both (phase_code p == phase_code q) (str_eq (phase_text p) (phase_text q)) h)
  where
    by :
        ((phase_code p == phase_code q) ≡ true) × (str_eq (phase_text p) (phase_text q) ≡ true)
        → p ≡ q
    by (c, t) =
        sym (of_code-phase_code p)
        ∙ ap (λ n. of_code n (phase_text p)) (eqb→eq (phase_code p) (phase_code q) c)
        ∙ ap (of_code (phase_code q)) (text_eq (phase_text p) (phase_text q) t)
        ∙ of_code-phase_code q

pub set_phase-Sound :
    (p : Phase) (d : Engine)
    → CfgFit d.cfg
    → Fitting d.pol.state.mode d.lock p
    → Sound (set_phase p d)
unfolding set_phase
set_phase-Sound p d k f =
    if-cases Sound (same_phase p d.phase) {x = d} {y = record d { phase = p; phase_since = d.now }}
      (λ h. (k, rw (sym (same_phase-eq p d.phase h)) f)) (λ h. (k, f))

awaited :
    (m : Mode) (l : Lock) (p : Phase) → Fitting m (some l) p → Fitting m (some l) awaiting_power
awaited m l p (a, b, c, d, q, r) = (a, b, c, d, q, refl)

module _ (e d : Engine) where
  pub Same-Sound : Same e d → Sound e → Sound d
  Same-Sound (a, b, c, p, n) (k, f) = (rw a k, rw (b, c, p) f)

  pub Moves-Sound : (l : Lock) → e.lock ≡ some l → Moves e d → Sound e → Sound d
  Moves-Sound l h (a, b, c, inl p, n) (k, f) = (rw a k, rw (b, c, p) f)
  Moves-Sound l h (a, b, c, inr p, n) (k, f) = (rw a k, rw (b, c, p) (by e.lock h f))
    where
      by :
          (o : Option Lock)
          → o ≡ some l
          → Fitting e.pol.state.mode o e.phase
          → Fitting e.pol.state.mode o awaiting_power
      by none q g = cc
      by (some l') q g = awaited e.pol.state.mode l' e.phase g

module _ ⦃out : Outside⦄ (e : Engine) where
  storm-travel :
      (i : Heading.Inputs)
      → in_travel i.fallback_az ≡ true
      → Heading.reach i.max_az ≤ 450
      → in_travel (Heading.storm i) ≡ true
  storm-travel i a r = by i.wind (Heading.storm i) (storm-Chosen i)
    where
      by : (o : Option Degrees) (z : ℤ) → Chosen i o z → in_travel z ≡ true
      by none z c = rw c a
      by (some w) z (inl (h, c)) = rw c a
      by (some w) z (inr (h, (n, (c, (b, d))))) = rw c (le→leb n 450 (omega arith))

  park_heading-travel : CfgFit e.cfg → in_travel (park_heading e) ≡ true
  unfolding park_heading
  park_heading-travel (a, m, r) =
      if-both (λ z. in_travel z ≡ true) (is_storm e.pol.state.mode)
        (storm-travel
          (record {
            wind = fresh_wind e;
            az = if live e.rot then e.rot.az else none;
            max_az = e.cfg.max_az;
            fallback_az = e.cfg.fallback_az;
          })
          a r)
        m

  pub compute_park-Sound :
      (l : Lock)
      → CfgFit e.cfg
      → Fitting e.pol.state.mode (some l) e.phase
      → Sound (compute_park l e)
  unfolding compute_park
  compute_park-Sound l k (a, b, c, d, q, r) =
      if-cases Sound (is_some l.park_az)
        (λ h.
          set_phase-Sound rotating (record e { lock = some (record l { retract = true }) }) k
            (a, b, c, d, again l.park_az q, h))
        (λ h.
          Same-Sound turned (note_park_target false turned) (note_park_target-Same turned false) (
            set_phase-Sound rotating
              (record e {
                lock = some (record l { retract = true; park_az = some (park_heading e) });
              })
              k (a, b, c, d, (refl, park_heading-travel k), refl)))
    where
      turned : Engine
      turned =
          set_phase rotating (record e {
            lock = some (record l { retract = true; park_az = some (park_heading e) });
          })

      again : (z : Option ℤ) → Park l.retract z → Park true z
      again none q = q
      again (some z) (u, v) = (refl, v)
