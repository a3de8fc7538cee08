-- ===== src/UltraBridge/Locking.antt =====
-- ultrabridge/internal/ub/service: what the operations of the controller do to the lock, the
-- deadband bypass and the commands sent.
use station_a.Base.{
  ℕ, suc, ◌%◌, ◌/◌, String, Bool, true, false, ◌&&◌, List, [], ◌∷◌, ◌==◌, ◌≡◌, ◌⊎◌, inl, inr, refl,
  ap, arith, length, if-both, if◌then◌else◌, Result, ok, err,
}
use station_a.AntMode as AntMode
use station_a.AntMode.{lock_of}
use station_a.UltraBridge.Packet.{Packet}
use station_a.UltraBridge.Commands.{
  cmd_status_query, cmd_moving_status, cmd_retract, cmd_change_frequency, reply_ok,
  reply_bad_params, GeneralStatus, MovingStatus,
}
use station_a.UltraBridge.Lock.{
  line, reply, rejected, LockState, Controller, update_latch, device_back_online,
}
use station_a.UltraBridge.Controlling.{
  Rcu, Run, set_state, set_offline, online_again, refreshed, polled, asks, exchange, on_status,
  on_moving, on_retract, on_frequency, refresh, poll_motor_status, retract, send_frequency,
}

-- How many change-frequency commands were sent.
unfoldable pub extends : List (ℕ × List ℕ) → ℕ
extends [] = 0
extends (q ∷ qs) = let rest = extends qs in if q.0 == cmd_change_frequency then suc rest else rest

-- The lock as an online edge leaves it.
abbrev pub rearmed_by : LockState → LockState
rearmed_by k = record k { pending = true; sent = false; done = false }

-- The lock is as before, or re-armed.
abbrev pub SameLock : LockState → LockState → Type 0
SameLock k l = (l ≡ k) ⊎ (l ≡ rearmed_by k)

-- The lock is kept, and so are the deadband bypass and the number of extends.
abbrev pub Kept : Controller → Controller → Type 0
Kept c d = SameLock c.lk d.lk × (d.extend_due ≡ c.extend_due) × (extends d.asked ≡ extends c.asked)

online_again-Kept :
    (c d : Controller) (b : Bool) → Kept c d → d.lk ≡ c.lk → Kept c (online_again b d)
unfolding online_again device_back_online update_latch
online_again-Kept c d false (k, e, a) l = (k, e, a)
online_again-Kept c d true (k, e, a) l =
    if-both (Kept c) (AntMode.locked d.lk.st && (lock_of d.lk.st).retract)
      (inr (ap rearmed_by l), e, a) (k, e, a)

refreshed-Kept :
    (c d : Controller) (r : Result ℕ GeneralStatus)
    → Kept c d
    → d.lk ≡ c.lk
    → Kept c (refreshed d r).1
unfolding refreshed set_state
refreshed-Kept c d (err n) k l = k
refreshed-Kept c d (ok gs) k l = online_again-Kept c _ d.state.offline k l

polled-Kept :
    (c d : Controller) (r : Result ℕ MovingStatus) → Kept c d → d.lk ≡ c.lk → Kept c (polled d r).1
unfolding polled set_state
polled-Kept c d (err n) k l = k
polled-Kept c d (ok ms) k l = online_again-Kept c _ d.state.offline k l

module _ ⦃rcu : Rcu⦄ where
  -- An exchange ends offline or with what a reply leads to.
  exchange-either :
      (P : Controller → Type 0) (code : ℕ) (payload : List ℕ) (next : Packet → Controller → Run)
      (c : Controller)
      → ((e : String) → P (set_offline e (asks code payload c)))
      → ((p : Packet) → P (next p (asks code payload c)).1)
      → P (exchange code payload next c).1
  unfolding exchange
  exchange-either P code payload next c fails replies =
      by (rcu.answer (length c.asked) code payload)
    where
      ends : Result String Packet → Run
      ends (err e) = (err (line e), set_offline e (asks code payload c))
      ends (ok p) = next p (asks code payload c)

      by : (r : Result String Packet) → P (ends r).1
      by (err e) = fails e
      by (ok p) = replies p

  -- The lock and the bypass are kept, and the device was asked no extend.
  asks-Kept :
      (code : ℕ) (payload : List ℕ) (c : Controller)
      → (code == cmd_change_frequency) ≡ false
      → Kept c (asks code payload c)
  unfolding extends
  asks-Kept code payload c h = (inl refl, refl, ground arith)

  set_offline-Kept : (c d : Controller) (e : String) → Kept c d → Kept c (set_offline e d)
  unfolding set_offline set_state
  set_offline-Kept c d e k = k

  pub refresh-Kept : (c : Controller) → Kept c (refresh c).1
  unfolding refresh extends on_status
  refresh-Kept c =
      exchange-either (Kept c) _ _ on_status c (λ e. set_offline-Kept c _ e (inl refl, refl, refl))
        reply
    where
      reply : (p : Packet) → Kept c (on_status p (asks cmd_status_query [] c)).1
      reply p =
          if-both (λ (r : Run). Kept c r.1) _ (refreshed-Kept c _ _ (inl refl, refl, refl) refl)
            (inl refl, refl, refl)

  pub poll_motor_status-Kept : (c : Controller) → Kept c (poll_motor_status c).1
  unfolding poll_motor_status extends on_moving
  poll_motor_status-Kept c =
      exchange-either (Kept c) _ _ on_moving c (λ e. set_offline-Kept c _ e (inl refl, refl, refl))
        reply
    where
      reply : (p : Packet) → Kept c (on_moving p (asks cmd_moving_status [] c)).1
      reply p =
          if-both (λ (r : Run). Kept c r.1) _ (polled-Kept c _ _ (inl refl, refl, refl) refl)
            (inl refl, refl, refl)

  -- A retract that the device accepted sets the bypass; any other leaves it.
  abbrev pub Retracted : Controller → Controller → Type 0
  Retracted c d =
      SameLock c.lk d.lk
      × ((d.extend_due ≡ c.extend_due) ⊎ (d.extend_due ≡ true))
      × (extends d.asked ≡ extends c.asked)

  pub retract-Retracted : (c : Controller) → Retracted c (retract c).1
  unfolding retract extends on_retract set_offline set_state update_latch
  retract-Retracted c =
      exchange-either (Retracted c) _ _ on_retract c (λ e. (inl refl, inl refl, refl)) reply
    where
      after :
          (d : Controller) → Kept (update_latch true true (asks cmd_retract [] c)) d → Retracted c d
      after d (l, e, a) = (l, inr e, a)

      accepted : Retracted c (refresh (update_latch true true (asks cmd_retract [] c))).1
      accepted =
          after (refresh (update_latch true true (asks cmd_retract [] c))).1
            (refresh-Kept (update_latch true true (asks cmd_retract [] c)))

      reply : (p : Packet) → Retracted c (on_retract p (asks cmd_retract [] c)).1
      reply p = if-both (λ (r : Run). Retracted c r.1) _ accepted (inl refl, inl refl, refl)

  -- One extend was sent.
  abbrev pub Extended : Controller → Controller → Type 0
  Extended c d = SameLock c.lk d.lk × (extends d.asked ≡ suc (extends c.asked))

  pub send_frequency-Extended :
      (khz mode_byte : ℕ) (c : Controller) → Extended c (send_frequency khz mode_byte c).1
  unfolding send_frequency extends on_frequency set_offline set_state update_latch
  send_frequency-Extended khz mode_byte c =
      exchange-either (Extended c) _ payload on_frequency c (λ e. (inl refl, refl)) replies
    where
      payload : List ℕ
      payload = khz % 256 ∷ khz / 256 ∷ mode_byte ∷ []

      after :
          (d : Controller)
          → Kept (update_latch false false (asks cmd_change_frequency payload c)) d
          → Extended c d
      after d (l, e, a) = (l, a)

      same : Extended c (asks cmd_change_frequency payload c)
      same = (inl refl, refl)

      accepted :
          Extended c (refresh (update_latch false false (asks cmd_change_frequency payload c))).1
      accepted =
          after (refresh (update_latch false false (asks cmd_change_frequency payload c))).1
            (refresh-Kept (update_latch false false (asks cmd_change_frequency payload c)))

      asked_it : Controller
      asked_it = asks cmd_change_frequency payload c

      bad : Run
      bad = (err rejected, asked_it)

      odd : Packet → Run
      odd p = (err (reply p.command), asked_it)

      refused : (p : Packet) → Extended c (if p.command == reply_bad_params then bad else odd p).1
      refused p =
          if-both (λ (r : Run). Extended c r.1) (p.command == reply_bad_params) {x = bad}
            {y = odd p} same same

      replies : (p : Packet) → Extended c (on_frequency p asked_it).1
      replies p = if-both (λ (r : Run). Extended c r.1) (p.command == reply_ok) accepted (refused p)
