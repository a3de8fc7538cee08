-- ===== src/AntModeEngine/Lending.antt =====
-- antmode/internal/engine/engine.go: how a borrow of antenna power begins and ends.
use station_a.Base.{
  length, Bool, true, false, not, ◌&&◌, ◌||◌, none, some, List, ◌∷◌, ◌≡◌, ◌⊎◌, inl, inr, refl, sym,
  ap, ◌∙◌, arith, if-both, if-cases, if◌then◌else◌,
}
use station_a.AntModeEngine.Types.{
  same_phase, Snapshot, Persisted, Phase, awaiting_power, Borrow, Output, power_set, file_saved,
  state_published, Engine, Outside,
}
use station_a.AntModeEngine.Parking.{set_phase}
use station_a.AntModeEngine.Publishing.{persisted, current_state, succeeded, attempt, publish_state}
use station_a.AntModeEngine.Fitting.{same_phase-eq}
use station_a.AntModeEngine.Borrowing.{
  may_borrow, decided, borrowing, borrow_saved, send_power_on, start_borrow, is_due, still_slewing,
}

module _ ⦃out : Outside⦄ where
  -- A borrow ends with this step: it is due, and the rotator no longer slews, unless the borrow is
  -- to be restored anyway.
  abbrev pub may_end : Borrow → Engine → Bool
  may_end b e = is_due b e && (b.restore || not (still_slewing e))

  -- What becomes of the borrow `b` in the step from `e` to `d`.
  abbrev pub Ends : Borrow → Engine → Engine → Type 0
  Ends b e d =
      ((d.borrow ≡ some b) × (d.outputs ≡ e.outputs))
      ⊎ (((d.borrow ≡ none)
            × (d.outputs ≡ e.outputs)
            × (b.taken_over ≡ true)
            × (may_end b e ≡ true))
          ⊎ ((b.taken_over ≡ false)
              × (may_end b e ≡ true)
              × (e.seq_status ≡ true)
              × (d.outputs ≡ (power_set b.restore_to, succeeded e) ∷ e.outputs)
              × (d.borrow ≡ (if succeeded e then none else some b))))

module _ ⦃out : Outside⦄ where
  publish_state-outputs :
      (force : Bool) (e : Engine)
      → ((publish_state force e).outputs ≡ e.outputs)
        ⊎ ((publish_state force e).outputs
            ≡ (state_published (current_state e), succeeded e) ∷ e.outputs)
  unfolding publish_state
  publish_state-outputs force e = ground arith

  send_power_on-outputs :
      (e : Engine) → (send_power_on e).outputs ≡ (power_set "on", succeeded e) ∷ e.outputs
  unfolding send_power_on
  send_power_on-outputs e =
      if-both (λ (d : Engine). d.outputs ≡ (power_set "on", succeeded e) ∷ e.outputs) (succeeded e)
        refl refl

  set_phase-phase :
      (p : Phase) (e : Engine)
      → ((set_phase p e).phase ≡ p)
        × ((set_phase p e).outputs ≡ e.outputs)
        × ((set_phase p e).borrow ≡ e.borrow)
        × ((set_phase p e).fault ≡ e.fault)
        × ((set_phase p e).borrow_seq ≡ e.borrow_seq)
  unfolding set_phase
  set_phase-phase p e =
      if-cases
        (λ (d : Engine).
          (d.phase ≡ p)
          × (d.outputs ≡ e.outputs)
          × (d.borrow ≡ e.borrow)
          × (d.fault ≡ e.fault)
          × (d.borrow_seq ≡ e.borrow_seq))
        (same_phase p e.phase) (λ h. (sym (same_phase-eq p e.phase h), refl, refl, refl, refl))
        (λ h. (refl, refl, refl, refl, refl))

  -- The file was saved last, or the state was published since.
  abbrev pub Between : Persisted → Engine → List (Output × Bool) → Type 0
  Between p e mid =
      (mid ≡ (file_saved p, true) ∷ e.outputs)
      ⊎ ((o : Output × Bool) × ((s : Snapshot) × ((o.0 ≡ state_published s)
              × (mid ≡ o ∷ (file_saved p, true) ∷ e.outputs))))

  -- The file `p` is written, and only after its success the command; else nothing is borrowed.
  abbrev pub Saves : Persisted → Engine → Engine → Type 0
  Saves p e d =
      ((succeeded e ≡ false)
        × (d.borrow ≡ none)
        × (d.phase ≡ e.phase)
        × (d.fault ≡ e.fault)
        × (d.borrow_seq ≡ e.borrow_seq)
        × (d.outputs ≡ (file_saved p, false) ∷ e.outputs))
      ⊎ ((succeeded e ≡ true)
          × ((mid : List (Output × Bool)) × ((r : Bool) × ((d.outputs ≡ (power_set "on", r) ∷ mid)
                  × Between p e mid))))

  borrow_saved-Saves :
      (e d : Engine) → d.outputs ≡ e.outputs → Saves (persisted d) e (borrow_saved e d)
  unfolding borrow_saved
  borrow_saved-Saves e d q =
      if-cases (Saves (persisted d) e) (succeeded d) {x = send_power_on (publish_state false kept)}
        {y = set_phase e.phase undone}
        (λ h. inr (
          same h,
          (
            (publish_state false kept).outputs,
            (
              succeeded (publish_state false kept),
              (
                send_power_on-outputs (publish_state false kept),
                between (base h) (publish_state-outputs false kept),
              ),
            ),
          ),
        ))
        (λ h. inl (by (same h) h (set_phase-phase e.phase undone)))
    where
      kept : Engine
      kept = record (attempt (file_saved (persisted d)) d) {
        last_persisted = none;
        borrow_clock = e.now;
      }

      undone : Engine
      undone = record (attempt (file_saved (persisted d)) d) {
        borrow = none;
        fault = e.fault;
        borrow_seq = e.borrow_seq;
      }

      same : {b : Bool} → succeeded d ≡ b → succeeded e ≡ b
      same h = ap (λ o. out.succeeds (length o)) (sym q) ∙ h

      base :
          {b : Bool}
          → succeeded d ≡ b
          → (file_saved (persisted d), succeeded d) ∷ d.outputs
            ≡ (file_saved (persisted d), b) ∷ e.outputs
      base {b} h =
          ap (λ x. (file_saved (persisted d), x) ∷ d.outputs) h
          ∙ ap (λ o. (file_saved (persisted d), b) ∷ o) q

      between :
          kept.outputs ≡ (file_saved (persisted d), true) ∷ e.outputs
          → ((publish_state false kept).outputs ≡ kept.outputs)
            ⊎ ((publish_state false kept).outputs
                ≡ (state_published (current_state kept), succeeded kept) ∷ kept.outputs)
          → Between (persisted d) e (publish_state false kept).outputs
      between k (inl a) = inl (a ∙ k)
      between k (inr a) = inr (
        (state_published (current_state kept), succeeded kept),
        (
          current_state kept,
          (refl, a ∙ ap (λ o. (state_published (current_state kept), succeeded kept) ∷ o) k),
        ),
      )

      by :
          succeeded e ≡ false
          → succeeded d ≡ false
          → (((set_phase e.phase undone).phase ≡ e.phase)
              × ((set_phase e.phase undone).outputs ≡ undone.outputs)
              × ((set_phase e.phase undone).borrow ≡ undone.borrow)
              × ((set_phase e.phase undone).fault ≡ undone.fault)
              × ((set_phase e.phase undone).borrow_seq ≡ undone.borrow_seq))
          → (succeeded e ≡ false)
            × ((set_phase e.phase undone).borrow ≡ none)
            × ((set_phase e.phase undone).phase ≡ e.phase)
            × ((set_phase e.phase undone).fault ≡ e.fault)
            × ((set_phase e.phase undone).borrow_seq ≡ e.borrow_seq)
            × ((set_phase e.phase undone).outputs ≡ (file_saved (persisted d), false) ∷ e.outputs)
      by g h (a, b, c, f, s) = (g, c, a, f, s, b ∙ base h)

  -- What the start of a borrow does: nothing, or it saves the borrow of a power that was off.
  abbrev pub Lends : Engine → Engine → Type 0
  Lends e d =
      ((may_borrow e ≡ false) × (d ≡ e))
      ⊎ ((may_borrow e ≡ true)
          × ((b : Borrow) × (((persisted (borrowing e)).borrow ≡ some b)
                × (b.restore_to ≡ "off")
                × Saves (persisted (borrowing e)) e d)))

  -- A borrow starts exactly under its conditions; then the state file with the borrow, and in it
  -- the power to restore, is written first. If that fails, nothing is commanded, and the phase,
  -- fault and sequence number are as before; if it succeeds, the power is commanded on, with at
  -- most a publication of the state between.
  pub start_borrow-Lends : (e : Engine) → Lends e (start_borrow e)
  unfolding start_borrow borrowing persisted decided
  start_borrow-Lends e =
      if-cases (Lends e) (may_borrow e) {x = borrow_saved e (borrowing e)}
        (λ h. inr (h, by h (set_phase-phase awaiting_power (decided e)))) (λ h. inl (h, refl))
    where
      by :
          may_borrow e ≡ true
          → (((borrowing e).phase ≡ awaiting_power)
              × ((borrowing e).outputs ≡ e.outputs)
              × ((borrowing e).borrow ≡ (decided e).borrow)
              × ((borrowing e).fault ≡ (decided e).fault)
              × ((borrowing e).borrow_seq ≡ (decided e).borrow_seq))
          → (b : Borrow) × (((persisted (borrowing e)).borrow ≡ some b)
              × (b.restore_to ≡ "off")
              × Saves (persisted (borrowing e)) e (borrow_saved e (borrowing e)))
      by h (a, o, c, f, s) = (_, (c, refl, borrow_saved-Saves e (borrowing e) o))
