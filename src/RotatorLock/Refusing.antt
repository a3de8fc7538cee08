-- ===== src/RotatorLock/Refusing.antt =====
-- wrc-rotator-bridge/internal/lock/gate.go: which motion passes the gate.
use station_a.Base.{
  Degrees, ℕ, ◌<◌, String, true, false, Option, none, some, ◌∷◌, ◌≡◌, ◌⊎◌, inl, inr, refl, arith,
  eq_iff, Bool-cases, ltb→lt, err,
}
use station_a.AntMode as AntMode
use station_a.AntMode.{maintenance, lock_of}
use station_a.RotatorLock.Types.{Angles, rotate, jog, Gate, locked}
use station_a.RotatorLock.Acting.{
  is_maintenance, tell, finish, save, held_back, refuses, set_az, jog_dir, is_nudge, nudge_refused,
  take_over, set_az_override,
}

-- The hold has not begun, or ends later.
abbrev Waiting : Option ℕ → ℕ → Type 0
Waiting o now = (o ≡ none) ⊎ ((t : ℕ) × (o ≡ some t) × (now < t))

-- Motion is held back: no antenna mode was seen and the startup hold is on (it has not begun, or
-- has not passed), or the station is locked.
abbrev pub Held : Gate → Type 0
Held g =
    ((g.seen ≡ false) × (0 < g.hold_for) × Waiting g.hold_until g.world.now)
    ⊎ (AntMode.locked g.st ≡ true)

held_back-Waiting : (o : Option ℕ) (now : ℕ) → held_back o now ≡ true → Waiting o now
unfolding held_back
held_back-Waiting none now h = inl refl
held_back-Waiting (some t) now h = inr (t, refl, ltb→lt now t h)

Waiting-held_back : (o : Option ℕ) (now : ℕ) → Waiting o now → held_back o now ≡ true
unfolding held_back
Waiting-held_back none now h = refl
Waiting-held_back (some t) now (inl e) = ground arith
Waiting-held_back (some t) now (inr (u, e, l)) = ground arith

refuses-Held : (g : Gate) → refuses g ≡ true → Held g
unfolding refuses
refuses-Held g h = elim (Bool-cases (AntMode.locked g.st)) [
  | inl l ↦ inr l
  | inr u ↦
      let w : held_back g.hold_until g.world.now ≡ true = ground arith in
      inl (ground arith, ground arith, held_back-Waiting g.hold_until g.world.now w)
]

Held-refuses : (g : Gate) → Held g → refuses g ≡ true
unfolding refuses
Held-refuses g (inl (s, h, w)) =
    let b = Waiting-held_back g.hold_until g.world.now w in ground arith
Held-refuses g (inr l) = ground arith

is_maintenance-eq : (m : AntMode.Mode) → is_maintenance m ≡ true → m ≡ maintenance
is_maintenance-eq maintenance h = refl
is_maintenance-eq AntMode.Mode.normal h = ground arith
is_maintenance-eq AntMode.Mode.storm h = ground arith
is_maintenance-eq (AntMode.Mode.other s) h = ground arith

module _ ⦃an : Angles⦄ where
  is_nudge-parts :
      (g : Gate) (override : String)
      → is_nudge override g ≡ true
      → (g.st.mode ≡ maintenance) × ((lock_of g.st).nudge ≡ true) × (override ≡ "maintenance")
  unfolding is_nudge
  is_nudge-parts g override h = (
    is_maintenance-eq g.st.mode (ground arith),
    ground arith,
    (eq_iff override "maintenance").0 (ground arith),
  )

  nudge_refused-parts :
      (g : Gate) (az : Degrees)
      → nudge_refused az g ≡ false
      → (g.online ≡ true)
        × (an.outside az an.min_az an.max_az ≡ false)
        × (an.beyond az g.az g.nudge_max ≡ false)
  unfolding nudge_refused
  nudge_refused-parts g az h = (ground arith, ground arith, ground arith)

  take_over-done : (g : Gate) → ((take_over g).park.done ≡ true) × ((take_over g).told ≡ g.told)
  unfolding take_over save finish
  take_over-done g = (ground arith, ground arith)

  -- A tagged set_az that passed although motion is held back: a nudge of a maintenance lock
  -- that allows it, with a readback, inside the travel and within the bound; it ends the
  -- park.
  abbrev pub Nudges : Degrees → String → Gate → Type 0
  Nudges az override g =
      (g.st.mode ≡ maintenance)
      × ((lock_of g.st).nudge ≡ true)
      × (override ≡ "maintenance")
      × (g.online ≡ true)
      × (an.outside az an.min_az an.max_az ≡ false)
      × (an.beyond az g.az g.nudge_max ≡ false)
      × ((set_az_override az override g).1.told ≡ rotate az ∷ g.told)
      × ((set_az_override az override g).1.park.done ≡ true)

  override-refused :
      (g : Gate) (az : Degrees) (override : String)
      → refuses g ≡ true
      → (set_az_override az override g ≡ (err locked, g)) ⊎ Nudges az override g
  unfolding set_az_override set_az tell
  override-refused g az override h = elim (Bool-cases (is_nudge override g)) [
    | inr u ↦ inl (ground arith)
    | inl n ↦ elim (Bool-cases (nudge_refused az g)) [
      | inl r ↦ inl (ground arith)
      | inr a ↦
          let (m, k, o) = is_nudge-parts g override n in
          let (done, told) = take_over-done g in
          let (on, inside, near) = nudge_refused-parts g az a in
          inr (m, k, o, on, inside, near, ground arith, ground arith)
    ]
  ]

  -- While motion is held back (by the startup hold or a lock), a set_az and a jog are
  -- refused and change nothing, and so is a tagged set_az unless it is a nudge that the
  -- lock allows; else a set_az and a jog reach the device as they are.
  pub motion-Held :
      (g : Gate) (az : Degrees) (dir override : String)
      → (Held g
          × (set_az az g ≡ (err locked, g))
          × (jog_dir dir g ≡ (err locked, g))
          × ((set_az_override az override g ≡ (err locked, g)) ⊎ Nudges az override g))
        ⊎ (¬ Held g × (set_az az g ≡ tell (rotate az) g) × (jog_dir dir g ≡ tell (jog dir) g))
  unfolding set_az jog_dir
  motion-Held g az dir override = elim (Bool-cases (refuses g)) [
    | inl h ↦ inl (refuses-Held g h, ground arith, ground arith, override-refused g az override h)
    | inr h ↦ inr ((λ k. let e = Held-refuses g k in ground arith), ground arith, ground arith)
  ]
