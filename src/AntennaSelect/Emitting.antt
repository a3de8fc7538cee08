-- ===== src/AntennaSelect/Emitting.antt =====
-- antennaselect/internal/reconcile/reconcile.go: what `Next` emits.
use station_a.Base.{
  String, true, false, none, ◌≡◌, ◌≢◌, ◌↔◌, ◌⊎◌, inl, inr, refl, sym, ◌∙◌, ap, arith, eq_iff,
  Bool-cases, str_eq, if◌then◌else◌,
}
use station_a.AntennaSelect.Ladder.{text-is, text-same}
use station_a.AntennaSelect.{
  Inputs, Decision, Actions, Reconciler, auto_target, resolve, switching, following, next,
}

-- The select of an emission follows its decision: the target is selected, never while
-- transmitting, if there is one that is not selected already.
abbrev pub Selects : Inputs → Decision → Actions → Type 0
Selects i d a =
    (a.select_port ≢ ""
      → (i.radio_tx ≢ "tx") × (a.select_port ≡ d.target) × (d.target ≢ i.switch_selected))
    × (d.target ≢ "" → d.target ≢ i.switch_selected → i.radio_tx ≢ "tx" → a.select_port ≡ d.target)
    × (a.deferred_for_tx ≡ true
        ↔ (d.target ≢ "") × (d.target ≢ i.switch_selected) × (i.radio_tx ≡ "tx"))

switching-Selects : (i : Inputs) (d : Decision) → Selects i d (switching i d)
unfolding switching
switching-Selects i d =
    ground (arith, eq_iff d.target "", eq_iff d.target i.switch_selected, eq_iff i.radio_tx "tx")

module _ (r : Reconciler) (i : Inputs) where
  -- The follow bindings leave the decision and the select alone.
  Kept : Actions → Type 0
  Kept a =
      let b = switching i (resolve r i) in
      (a.decision ≡ resolve r i)
      × (a.select_port ≡ b.select_port)
      × (a.deferred_for_tx ≡ b.deferred_for_tx)

  next-Kept : Kept (next r i)
  unfolding next Kept switching following
  next-Kept = elim (Bool-cases (str_eq i.operator_request "manual")) [
    | inl e ↦ simp e (refl, refl, refl)
    | inr e ↦ simp e (refl, refl, refl)
  ]

  -- What `Next` decides is what the ladder decides. It selects the decision's target exactly if
  -- there is one, it is not selected already and the radio does not transmit, and it reports a
  -- deferred switch exactly if only the transmission stands in the way.
  pub next-Selects : ((next r i).decision ≡ resolve r i) × Selects i (resolve r i) (next r i)
  unfolding Kept
  next-Selects = let (d, s, t) = next-Kept in (d, rw (s, t) (switching-Selects i (resolve r i)))

  locked-target : i.locked ≡ true → (resolve r i).target ≡ (if i.lock_ground then "off" else "")
  unfolding resolve
  locked-target e = simp e refl

  locked-select :
      i.locked ≡ true
      → (next r i).select_port ≡ "" ⊎ (i.lock_ground ≡ true) × ((next r i).select_port ≡ "off")
  unfolding Kept switching
  locked-select e =
      let (d, s, t) = next-Kept in
      let at = locked-target e in
      elim (Bool-cases i.lock_ground) [
        | inl g ↦ ground (arith, s, rw g at at)
        | inr g ↦ ground (arith, s, rw g at at)
      ]

  -- A locked station commands no radio frequency and no tuner state, selects nothing but the
  -- grounded port, and not even that without grounding.
  pub next-locked :
      i.locked ≡ true
      → ((next r i).follow_freq_hz ≡ 0)
        × ((next r i).set_inline ≡ none)
        × ((next r i).select_port ≡ "" ⊎ (i.lock_ground ≡ true) × ((next r i).select_port ≡ "off"))
  unfolding next following
  next-locked e = (
    elim (Bool-cases (str_eq i.operator_request "manual")) [
      | inl m ↦ simp (e, m) refl
      | inr m ↦ simp (e, m) refl
    ],
    elim (Bool-cases (str_eq i.operator_request "manual")) [
      | inl m ↦ simp (e, m) refl
      | inr m ↦ simp (e, m) refl
    ],
    locked-select e,
  )

  -- Under the operator's manual control an unlocked station commands nothing at all.
  pub next-manual :
      i.locked ≡ false
      → i.operator_request ≡ "manual"
      → ((next r i).select_port ≡ "")
        × ((next r i).deferred_for_tx ≡ false)
        × ((next r i).follow_freq_hz ≡ 0)
        × ((next r i).set_band ≡ "")
        × ((next r i).set_inline ≡ none)
  unfolding next resolve switching
  next-manual e m = simp (e, text-same _ _ m) (refl, refl, refl, refl, refl)

  -- The antenna controller is commanded exactly to the radio's frequency, and only while it is
  -- online with a frequency, its antenna is the decision's target, and neither the lock nor
  -- manual control stands.
  pub next-follow :
      (next r i).follow_freq_hz ≢ 0
      ↔ (i.locked ≡ false)
        × (i.operator_request ≢ "manual")
        × (r.follow_port ≢ "")
        × ((resolve r i).target ≡ r.follow_port)
        × (i.radio_online ≡ true)
        × (i.radio_freq_hz ≢ 0)
        × ((next r i).follow_freq_hz ≡ i.radio_freq_hz)
  unfolding next switching following
  next-follow = elim (Bool-cases (str_eq i.operator_request "manual")) [
    | inl m ↦ simp m (ground (arith, text-is _ _ m))
    | inr m ↦ simp m (
        ground (
          arith,
          eq_iff r.follow_port "",
          eq_iff (resolve r i).target r.follow_port,
          eq_iff i.operator_request "manual",
        ))
  ]

target_of : Decision → String
target_of d = d.target

selected : Inputs → String → Inputs
selected i port = record i { switch_selected = port }

Selects-settled :
    (i : Inputs) (d : Decision) (a : Actions)
    → d.target ≡ i.switch_selected
    → Selects i d a
    → (a.select_port ≡ "") × (a.deferred_for_tx ≡ false)
Selects-settled i d a e (sel, all, def) = ground (arith, eq_iff a.select_port "")

resolve-selected :
    (r : Reconciler) (i : Inputs) (port : String) → resolve r (selected i port) ≡ resolve r i
unfolding resolve auto_target selected
resolve-selected r i port = refl

-- Every select settles: once the switch reports the commanded port, the same inputs decide the
-- same and call for no further switch.
pub next-settles :
    (r : Reconciler) (i : Inputs)
    → let t = record i { switch_selected = (next r i).select_port } in
      (next r i).select_port ≢ ""
      → ((next r t).decision ≡ (next r i).decision)
        × ((next r t).select_port ≡ "")
        × ((next r t).deferred_for_tx ≡ false)
unfolding selected target_of
next-settles r i s =
    let t = selected i (next r i).select_port in
    let (d, (sel, rest, last)) = next-Selects r i in
    let (dt, selt) = next-Selects r t in
    let same = resolve-selected r i (next r i).select_port in
    let (quiet, at, other) = sel s in
    let (none_left, none_deferred) =
      Selects-settled t (resolve r t) (next r t) (ap target_of same ∙ sym at) selt in
    (dt ∙ same ∙ sym d, none_left, none_deferred)
