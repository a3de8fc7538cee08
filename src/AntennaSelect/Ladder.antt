-- ===== src/AntennaSelect/Ladder.antt =====
-- antennaselect/internal/reconcile/reconcile.go: the priority ladder and the band policy.
use station_a.Base.{
  String, true, false, ◌≡◌, ◌↔◌, ◌≢◌, ◌⊎◌, inl, inr, refl, arith, eq_iff, Bool-cases, str_eq,
  if◌then◌else◌,
}
use station_a.AntennaSelect.{
  Source, lock, idle, operator, auto, Mode, auto_mode, manual_mode, Inputs, Reconciler, hold_active,
  auto_target, resolve,
}

-- An operator hold: a request that is neither empty nor the release.
abbrev pub Holds : Inputs → Type 0
Holds i = (i.operator_request ≢ "") × (i.operator_request ≢ "auto")

-- What the mode shows.
abbrev pub ModeOf : Inputs → Mode → Type 0
ModeOf i m = (Holds i × (m ≡ manual_mode)) ⊎ ((¬ Holds i) × (m ≡ auto_mode))

-- The ladder, tier by tier: a tier decides if it applies and none above it does.
pub data Tier (r : Reconciler) (i : Inputs) : String → Source → Type 0 where
  grounded : i.locked ≡ true → i.lock_ground ≡ true → Tier r i "off" lock
  locking : i.locked ≡ true → i.lock_ground ≡ false → Tier r i "" lock
  manual : i.locked ≡ false → i.operator_request ≡ "manual" → Tier r i "" operator
  walked_away :
      i.locked ≡ false
      → i.operator_request ≢ "manual"
      → i.station_activity ≡ "inactive"
      → Tier r i "off" idle
  held :
      {port : String}
      → i.locked ≡ false
      → i.operator_request ≢ "manual"
      → i.station_activity ≢ "inactive"
      → Holds i
      → port ≡ i.operator_request
      → Tier r i port operator
  by_band :
      {port : String}
      → i.locked ≡ false
      → i.operator_request ≢ "manual"
      → i.station_activity ≢ "inactive"
      → ¬ Holds i
      → port ≡ auto_target r i
      → Tier r i port auto

pub text-not : (a b : String) → str_eq a b ≡ false → a ≢ b
text-not a b e = ground (arith, eq_iff a b)

pub text-is : (a b : String) → str_eq a b ≡ true → a ≡ b
text-is a b e = ground (arith, eq_iff a b)

pub text-same : (a b : String) → a ≡ b → str_eq a b ≡ true
text-same a b e = ground (arith, eq_iff a b)

text-other : (a b : String) → a ≢ b → str_eq a b ≡ false
text-other a b e = ground (arith, eq_iff a b)

module _ (r : Reconciler) (i : Inputs) where
  hold_active_in : hold_active i.operator_request ≡ true → Holds i
  unfolding hold_active
  hold_active_in h = ground (arith, eq_iff i.operator_request "", eq_iff i.operator_request "auto")

  hold_active_out : hold_active i.operator_request ≡ false → ¬ Holds i
  unfolding hold_active
  hold_active_out h k =
      ground (arith, eq_iff i.operator_request "", eq_iff i.operator_request "auto")

  Holds-hold : Holds i → hold_active i.operator_request ≡ true
  unfolding hold_active
  Holds-hold h = ground (arith, eq_iff i.operator_request "", eq_iff i.operator_request "auto")

  free-hold : ¬ Holds i → hold_active i.operator_request ≡ false
  unfolding hold_active
  free-hold h = elim (Bool-cases (hold_active i.operator_request)) [
    | inl e ↦ absurd (h (hold_active_in e))
    | inr e ↦ e
  ]

  resolve-mode :
      (resolve r i).mode ≡ (if hold_active i.operator_request then manual_mode else auto_mode)
  unfolding resolve
  resolve-mode = ground arith

  mode-ModeOf : ModeOf i (resolve r i).mode
  mode-ModeOf = elim (Bool-cases (hold_active i.operator_request)) [
    | inl h ↦ inl (hold_active_in h, rw h at resolve-mode)
    | inr h ↦ inr (hold_active_out h, rw h at resolve-mode)
  ]

  ladder-Tier : Tier r i (resolve r i).target (resolve r i).source
  unfolding resolve
  ladder-Tier = elim (Bool-cases i.locked) [
    | inl e ↦ elim (Bool-cases i.lock_ground) [
      | inl g ↦ simp (e, g) (grounded e g)
      | inr g ↦ simp (e, g) (locking e g)
    ]
    | inr e ↦ elim (Bool-cases (str_eq i.operator_request "manual")) [
      | inl m ↦ simp (e, m) (manual e (text-is _ _ m))
      | inr m ↦ elim (Bool-cases (str_eq i.station_activity "inactive")) [
        | inl w ↦ simp (e, m, w) (walked_away e (text-not _ _ m) (text-is _ _ w))
        | inr w ↦ elim (Bool-cases (hold_active i.operator_request)) [
          | inl h ↦
              simp (e, m, w, h) (held e (text-not _ _ m) (text-not _ _ w) (hold_active_in h) refl)
          | inr h ↦
              simp (e, m, w, h)
                (by_band e (text-not _ _ m) (text-not _ _ w) (hold_active_out h) refl)
        ]
      ]
    ]
  ]

  Tier-resolve :
      (port : String) (source : Source)
      → Tier r i port source
      → (port ≡ (resolve r i).target) × (source ≡ (resolve r i).source)
  unfolding resolve
  Tier-resolve _ _ (grounded e g) = simp (e, g) (refl, refl)
  Tier-resolve _ _ (locking e g) = simp (e, g) (refl, refl)
  Tier-resolve _ _ (manual e m) = simp (e, text-same _ _ m) (refl, refl)
  Tier-resolve _ _ (walked_away e m w) = simp (e, text-other _ _ m, text-same _ _ w) (refl, refl)
  Tier-resolve _ _ (held e m w h p) =
      simp (e, text-other _ _ m, text-other _ _ w, Holds-hold h) (p, refl)
  Tier-resolve _ _ (by_band e m w h p) =
      simp (e, text-other _ _ m, text-other _ _ w, free-hold h) (p, refl)

  -- A decision shows manual mode exactly when an operator hold stands, whichever tier decides; and
  -- a target and source are the decision's exactly if they are those of the highest tier that
  -- applies: the lock, manual control, walk-away idle, the operator's hold, the band policy.
  pub resolve-Tier_iff :
      (port : String) (source : Source)
      → ModeOf i (resolve r i).mode
        × (Tier r i port source ↔ ((port ≡ (resolve r i).target) × (source ≡ (resolve r i).source)))
  resolve-Tier_iff port source =
      (mode-ModeOf, (Tier-resolve port source, λ h. rw (h.0, h.1) ladder-Tier))
