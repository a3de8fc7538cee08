-- ===== src/UltraBridge/Promises.antt =====
-- ultrabridge/internal/ub/service: what the lock of the controller promises to antmode.
use station_a.Base.{
  ℕ, ◌+◌, ◌≤◌, ◌∷◌, length, length-append, String, true, false, ◌≡◌, ◌⊎◌, refl, ap, ◌∙◌, arith,
}
use station_a.AntMode as AntMode
use station_a.AntMode.{lock_of}
use station_a.UltraBridge.Lock.{LockState, Controller, apply_ant_mode, check_extend}
use station_a.UltraBridge.Controlling.{
  Rcu, Extend, tune, turn, gate, pass_frequency, pass_mode, refresh, poll_motor_status, retract,
  ensure_retract,
}
use station_a.UltraBridge.Locking.{extends, refresh-Kept, poll_motor_status-Kept, retract-Retracted}
use station_a.UltraBridge.Retracting.{Quiet, Finished, Ensured, ensure_retract-Ensured}
use station_a.UltraBridge.History.{
  Does, applies, refreshes, polls, retracts, sets_frequency, sets_mode, carries_out, ensures,
  History, Service, gated, carry_out-extends, apply_ant_mode-Due,
}

-- The seq kept is that of the lock.
abbrev Tracks : LockState → Type 0
Tracks k = AntMode.locked k.st ≡ true → k.seq ≡ (lock_of k.st).seq

-- What reading an antenna mode does: nothing, or the lock is that of the state read and no retract
-- is newly done.
abbrev Reads : LockState → LockState → Type 0
Reads k l = (l ≡ k) ⊎ (Tracks l × ((l.done ≡ false) ⊎ (l.done ≡ k.done)))

locked-check_extend :
    (now : ℕ) (c : Controller) → AntMode.locked c.lk.st ≡ true → check_extend now c ≡ true
unfolding check_extend
locked-check_extend now c h = ground arith

module _ ⦃rcu : Rcu⦄ where
  -- What the lock refuses is not passed.
  gate-locked :
      (now : ℕ) (mode : String) (extend : ℕ → Extend) (s : Service)
      → AntMode.locked s.controller.lk.st ≡ true
      → gated (gate now mode extend s.controller) s ≡ s
  gate-locked now mode extend s l = rw (locked-check_extend now s.controller l) refl

  -- The change-frequency commands that were sent, and those that may still be.
  abbrev extends_of : Service → ℕ
  extends_of s = extends s.controller.asked + length s.passed

  same-extends :
      (s : Service) (d : Controller)
      → extends d.asked ≡ extends s.controller.asked
      → extends_of (record s { controller = d }) ≤ extends_of s
  same-extends s d e = omega (arith, e)

  Does-locked :
      {s t : Service}
      → Does s t
      → AntMode.locked s.controller.lk.st ≡ true
      → extends_of t ≤ extends_of s
  unfolding Ensured pass_frequency pass_mode
  Does-locked (applies {s} payload) l =
      let (e, a) = apply_ant_mode-Due payload s.controller in
      same-extends s (apply_ant_mode payload s.controller) (ap extends a)
  Does-locked (refreshes {s}) l =
      let (k, e, a) = refresh-Kept s.controller in same-extends s (refresh s.controller).1 a
  Does-locked (polls {s}) l =
      let (k, e, a) = poll_motor_status-Kept s.controller in
      same-extends s (poll_motor_status s.controller).1 a
  Does-locked (retracts {s}) l =
      let (k, e, a) = retract-Retracted s.controller in same-extends s (retract s.controller).1 a
  Does-locked (sets_frequency {s} now khz mode) l =
      rw (ap extends_of (gate-locked now mode (tune khz) s l)) (omega arith)
  Does-locked (sets_mode {s} now mode) l =
      rw (ap extends_of (gate-locked now mode turn s l)) (omega arith)
  Does-locked (carries_out {s} before x after h) l =
      let a = carry_out-extends x s.controller in
      let n = ap length h ∙ length-append before (x ∷ after) in
      let m = length-append before after in omega (arith, a, n, m)
  Does-locked (ensures {s} now later) l =
      let (q, e, a) = ensure_retract-Ensured now later s.controller in
      same-extends s (ensure_retract now later s.controller) a

  -- A history whose every state but the last is locked.
  pub data LockedHistory : Service → Service → Type 0 where
    ends : {s : Service} → LockedHistory s s
    under :
        {s t u : Service}
        → AntMode.locked s.controller.lk.st ≡ true
        → Does s t
        → LockedHistory t u
        → LockedHistory s u

  -- While the station is locked, whatever is done and whatever the device answers, the
  -- change-frequency commands that are sent are at most as many as had passed the gate
  -- before and not been carried out; and what is sent lessens what is left of them.
  pub no_extend :
      {s t : Service}
      → LockedHistory s t
      → extends t.controller.asked + length t.passed ≤ extends s.controller.asked + length s.passed
  no_extend ends = omega arith
  no_extend (under {s} {t} {u} l o h) =
      let a = no_extend h in let b = Does-locked o l in omega (arith, a, b)

  -- The operation is `EnsureRetract`, and at its time the retract was over.
  abbrev pub Confirms : {s t : Service} → Does s t → Type 0
  Confirms (ensures {s} now later) = Finished now s.controller
  Confirms o = ⊥

  -- What one operation does to the lock: it is kept, or read, or its retract is done.
  abbrev Shifts : {s t : Service} → Does s t → Type 0
  Shifts {s} {t} o =
      Quiet s.controller.lk t.controller.lk
      ⊎ (Reads s.controller.lk t.controller.lk
          ⊎ ((t.controller.lk.st ≡ s.controller.lk.st)
              × (t.controller.lk.seq ≡ s.controller.lk.seq)
              × Confirms o))
