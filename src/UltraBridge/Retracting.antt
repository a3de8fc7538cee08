-- ===== src/UltraBridge/Retracting.antt =====
-- ultrabridge/internal/ub/service: the lock over any sequence of operations of the controller.
use station_a.Base.{
  ℕ, ◌+◌, ◌≤◌, Bool, true, false, not, ◌&&◌, ◌||◌, ◌≡◌, ◌⊎◌, inl, inr, refl, ap, ◌∙◌, arith, leb,
  if-both, if-cases, ok, err,
}
use station_a.AntMode as AntMode
use station_a.AntMode.{lock_of}
use station_a.UltraBridge.Lock.{retract_settle, LockState, Controller}
use station_a.UltraBridge.Controlling.{Rcu, Run, retract, rearmed, settled, issued, ensure_retract}
use station_a.UltraBridge.Locking.{extends, SameLock, Retracted, retract-Retracted}

-- The lock and its seq are kept, and no retract of it is newly done.
abbrev pub Quiet : LockState → LockState → Type 0
Quiet k l = (l.st ≡ k.st) × (l.seq ≡ k.seq) × ((l.done ≡ false) ⊎ (l.done ≡ k.done))

-- A retract was sent and is in flight, the latch is set, the motors stand, and it has settled.
abbrev pub Finished : ℕ → Controller → Type 0
Finished now c =
    (c.lk.sent ≡ true)
    × (c.state.retracted ≡ true)
    × (c.state.motors_moving ≡ false)
    × (c.lk.sent_at + retract_settle ≤ now)

pub SameLock-Quiet : (k l : LockState) → SameLock k l → Quiet k l
SameLock-Quiet k l (inl e) = (ap (λ x. x.st) e, ap (λ x. x.seq) e, inr (ap (λ x. x.done) e))
SameLock-Quiet k l (inr e) = (ap (λ x. x.st) e, ap (λ x. x.seq) e, inl (ap (λ x. x.done) e))

-- What `EnsureRetract` leaves, begun at `now`.
unfoldable pub Ensured : ℕ → Controller → Controller → Type 0
Ensured now c d =
    (Quiet c.lk d.lk ⊎ ((d.lk.st ≡ c.lk.st) × (d.lk.seq ≡ c.lk.seq) × Finished now c))
    × ((d.extend_due ≡ c.extend_due) ⊎ (d.extend_due ≡ true))
    × (extends d.asked ≡ extends c.asked)

pub Quiet-trans : (k l m : LockState) → Quiet k l → Quiet l m → Quiet k m
Quiet-trans k l m (a, b, c) (d, e, inl f) = (d ∙ a, e ∙ b, inl f)
Quiet-trans k l m (a, b, inl c) (d, e, inr f) = (d ∙ a, e ∙ b, inl (f ∙ c))
Quiet-trans k l m (a, b, inr c) (d, e, inr f) = (d ∙ a, e ∙ b, inr (f ∙ c))

module _ ⦃rcu : Rcu⦄ where
  rearmed-Quiet : (c : Controller) → Quiet c.lk (rearmed c).lk
  unfolding rearmed
  rearmed-Quiet c = (refl, refl, ground arith)

  rearmed-Ensured : (now : ℕ) (c : Controller) → Ensured now c (rearmed c)
  unfolding rearmed Ensured
  rearmed-Ensured now c = (inl (rearmed-Quiet c), inl refl, refl)

  rearmed-Finished :
      (now : ℕ) (c : Controller)
      → (rearmed c).lk.sent ≡ true
      → (rearmed c).state.retracted ≡ true
      → (rearmed c).state.motors_moving ≡ false
      → (rearmed c).lk.sent_at + retract_settle ≤ now
      → Finished now c
  unfolding rearmed
  rearmed-Finished now c s r m t = (ground arith, r, m, t)

  settled-Ensured :
      (now : ℕ) (c : Controller)
      → (rearmed c).lk.sent ≡ true
      → Ensured now c (settled now (rearmed c))
  unfolding settled rearmed Ensured
  settled-Ensured now c s = if-cases (Ensured now c) _ done (λ h. rearmed-Ensured now c)
    where
      test : Bool
      test =
          (rearmed c).state.retracted
          && (not (rearmed c).state.motors_moving
              && leb ((rearmed c).lk.sent_at + retract_settle) now)

      done :
          test ≡ true
          → Ensured now c (record (rearmed c) {
            lk = record (rearmed c).lk { pending = false; sent = false; done = true };
          })
      done h = (
        inr (refl, refl, rearmed-Finished now c s (ground arith) (ground arith) (ground arith)),
        inl refl,
        refl,
      )

  issued-Ensured :
      (now later seq : ℕ) (c : Controller) (r : Run)
      → Retracted (rearmed c) r.1
      → Ensured now c (issued later seq r)
  unfolding issued rearmed Ensured
  issued-Ensured now later seq c (err f, d) (l, e, a) = (
    inl (
        Quiet-trans c.lk (rearmed c).lk d.lk (rearmed-Quiet c)
          (SameLock-Quiet (rearmed c).lk d.lk l)),
    e,
    a,
  )
  issued-Ensured now later seq c (ok u, d) (l, e, a) =
      let q =
        Quiet-trans c.lk (rearmed c).lk d.lk (rearmed-Quiet c)
          (SameLock-Quiet (rearmed c).lk d.lk l) in
      if-both (Ensured now c) _ (inl q, e, a) (inl q, e, a)

  Ensured-self : (now : ℕ) (c : Controller) → Ensured now c c
  unfolding Ensured
  Ensured-self now c = (inl (refl, refl, inr refl), inl refl, refl)

  pub ensure_retract-Ensured :
      (now later : ℕ) (c : Controller) → Ensured now c (ensure_retract now later c)
  unfolding ensure_retract
  ensure_retract-Ensured now later c =
      if-both (Ensured now c) (not (AntMode.locked c.lk.st && (lock_of c.lk.st).retract))
        (Ensured-self now c)
        (if-both (Ensured now c) (not (rearmed c).lk.pending || (rearmed c).state.offline)
          (rearmed-Ensured now c)
          (if-cases (Ensured now c) (rearmed c).lk.sent (settled-Ensured now c) (λ h.
            issued-Ensured now later (rearmed c).lk.seq c (retract (rearmed c))
              (retract-Retracted (rearmed c)))))
