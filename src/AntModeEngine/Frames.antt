-- ===== src/AntModeEngine/Frames.antt =====
-- antmode/internal/engine/engine.go: what the operations of the engine leave as it is.
use station_a.Base.{
  Bool, false, not, ◌&&◌, Option, none, some, ◌==◌, ◌≡◌, ◌⊎◌, inl, inr, refl, ◌∙◌, arith, is_some,
  if-both, if◌then◌else◌,
}
use station_a.AntMode.{Lock}
use station_a.AntModeEngine.Types.{awaiting_power, Borrow, Engine, Outside, file_saved}
use station_a.AntModeEngine.Parking.{set_phase, is_storm, note_park_target, update_drift}
use station_a.AntModeEngine.Publishing.{
  persisted, succeeded, attempt, persist, publish_state, track_presence,
}
use station_a.AntModeEngine.Borrowing.{
  may_borrow, decided, borrowing, send_power_on, borrow_saved, start_borrow, rejoin, attach_borrow,
  give_back, settle_borrow, step_borrow,
}
use station_a.AntModeEngine.Stepping.{note_tx, is_parked, late_borrow}

-- The mode, the lock, the phase, the configuration and whether the engine is ready are kept.
abbrev pub Same : Engine → Engine → Type 0
Same e d =
    (d.cfg ≡ e.cfg)
    × (d.pol ≡ e.pol)
    × (d.lock ≡ e.lock)
    × (d.phase ≡ e.phase)
    × (d.ready ≡ e.ready)

-- The same, but for the phase, which may have become `awaiting_power`.
abbrev pub Moves : Engine → Engine → Type 0
Moves e d =
    (d.cfg ≡ e.cfg)
    × (d.pol ≡ e.pol)
    × (d.lock ≡ e.lock)
    × ((d.phase ≡ e.phase) ⊎ (d.phase ≡ awaiting_power))
    × (d.ready ≡ e.ready)

Moves-Same : (e d f : Engine) → Moves e d → Same d f → Moves e f
Moves-Same e d f (a, b, c, inl p, n) (a', b', c', p', n') =
    (a' ∙ a, b' ∙ b, c' ∙ c, inl (p' ∙ p), n' ∙ n)
Moves-Same e d f (a, b, c, inr p, n) (a', b', c', p', n') =
    (a' ∙ a, b' ∙ b, c' ∙ c, inr (p' ∙ p), n' ∙ n)

module _ (e : Engine) where
  pub note_tx-Same : Same e (note_tx e)
  unfolding note_tx
  note_tx-Same = ground arith

  pub track_presence-Same : Same e (track_presence e)
  unfolding track_presence
  track_presence-Same = ground arith

  awaiting-Moves : Moves e (set_phase awaiting_power e)
  unfolding set_phase
  awaiting-Moves = ground arith

module _ ⦃out : Outside⦄ (e : Engine) where
  pub persist-Same : Same e (persist e)
  unfolding persist
  persist-Same = ground arith

  pub publish_state-Same : (force : Bool) → Same e (publish_state force e)
  unfolding publish_state
  publish_state-Same force = ground arith

  send_power_on-Same : Same e (send_power_on e)
  unfolding send_power_on
  send_power_on-Same = ground arith

  pub note_park_target-Same : (fresh : Bool) → Same e (note_park_target fresh e)
  unfolding note_park_target
  note_park_target-Same fresh = ground arith

  pub update_drift-Same : Same e (update_drift e)
  unfolding update_drift
  update_drift-Same = ground arith

  pub step_borrow-Same : Same e (step_borrow e)
  unfolding step_borrow settle_borrow give_back
  step_borrow-Same = ground arith

  borrowing-Moves : Moves e (borrowing e)
  unfolding borrowing decided
  borrowing-Moves = awaiting-Moves (decided e)

  reverted-Moves : (d : Engine) → Moves e d → Moves e (set_phase e.phase d)
  unfolding set_phase
  reverted-Moves d (a, b, c, p, n) =
      (ground arith, ground arith, ground arith, ground arith, ground arith)

module _ ⦃out : Outside⦄ (e : Engine) where
  borrow_saved-Moves : (d : Engine) → Moves e d → Moves e (borrow_saved e d)
  unfolding borrow_saved
  borrow_saved-Moves d m =
      if-both (Moves e) (succeeded d) {x = send_power_on (publish_state false kept)}
        {y = set_phase e.phase undone}
        (Moves-Same e (publish_state false kept) (send_power_on (publish_state false kept))
          (Moves-Same e kept (publish_state false kept) m (publish_state-Same kept false))
          (send_power_on-Same (publish_state false kept)))
        (reverted-Moves e undone m)
    where
      kept : Engine
      kept = record (attempt (file_saved (persisted d)) d) {
        last_persisted = none;
        borrow_clock = e.now;
      }

      undone : Engine
      undone = record (attempt (file_saved (persisted d)) d) {
        borrow = none;
        fault = e.fault;
        borrow_seq = e.borrow_seq;
      }

  start_borrow-Moves : Moves e (start_borrow e)
  unfolding start_borrow
  start_borrow-Moves =
      if-both (Moves e) (may_borrow e) (borrow_saved-Moves (borrowing e) (borrowing-Moves e))
        (refl, refl, refl, inl refl, refl)

  rejoin-Moves : (b : Borrow) → Moves e (rejoin b e)
  unfolding rejoin set_phase
  rejoin-Moves b = ground arith

module _ ⦃out : Outside⦄ (e : Engine) where
  pub attach_borrow-Moves : Moves e (attach_borrow e)
  unfolding attach_borrow
  attach_borrow-Moves = by e.borrow
    where
      ends : Option Borrow → Engine
      ends none = start_borrow e
      ends (some b) = if b.taken_over then start_borrow (record e { borrow = none }) else rejoin b e

      by : (o : Option Borrow) → Moves e (ends o)
      by none = start_borrow-Moves e
      by (some b) =
          if-both (Moves e) b.taken_over (start_borrow-Moves (record e { borrow = none }))
            (rejoin-Moves e b)

  pub late_borrow-Moves : Moves e (late_borrow e)
  unfolding late_borrow
  late_borrow-Moves = by e.lock
    where
      test : Lock → Bool
      test l =
          not (is_some e.borrow)
          && (is_storm e.pol.state.mode && (not (is_parked e.phase) && not (e.borrow_seq == l.seq)))

      ends : Option Lock → Engine
      ends none = e
      ends (some l) = if test l then start_borrow e else e

      by : (o : Option Lock) → Moves e (ends o)
      by none = (refl, refl, refl, inl refl, refl)
      by (some l) =
          if-both (Moves e) (test l) (start_borrow-Moves e) (refl, refl, refl, inl refl, refl)
