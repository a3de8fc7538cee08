-- ===== src/UltraBridge/Controlling.antt =====
-- ultrabridge/internal/ub/service/controller.go, and lock.go `EnsureRetract`: the operations of the
-- controller that talk to the device; an extend passes the gate first and is carried out later.
use station_a.Base.{
  ℕ, ◌+◌, ◌-◌, ◌%◌, ◌/◌, String, Bool, true, false, not, ◌&&◌, ◌||◌, Option, none, some, List, [],
  ◌∷◌, length, ltb, leb, ◌==◌, if◌then◌else◌, Result, ok, err,
}
use station_a.AntMode as AntMode
use station_a.AntMode.{lock_of}
use station_a.UltraBridge.Packet.{Packet}
use station_a.UltraBridge.Commands.{
  cmd_status_query, cmd_retract, cmd_change_frequency, cmd_moving_status, reply_ok,
  reply_bad_params, GeneralStatus, MovingStatus, parse_general_status, parse_moving_status,
  parse_mode, mode_name_of,
}
use station_a.UltraBridge.Lock.{
  retract_settle, Fault, locked, rejected, unknown_frequency, line, reply, short, bad_mode, Antenna,
  Controller, update_latch, check_extend, device_back_online,
}

-- transport.Client: what the exchange after `n` others answers, by its command and its payload.
pub record Rcu : Type 0 where
  pub answer : ℕ → ℕ → List ℕ → Result String Packet

-- An operation that answers or fails.
abbrev pub Run : Type 0
Run = Result Fault (Unit {0}) × Controller

-- `setState`: the latch is never taken from the argument.
unfoldable pub set_state : Antenna → Controller → Controller
set_state s c = record c { state = record s { retracted = c.state.retracted } }

-- `setOffline`
unfoldable pub set_offline : String → Controller → Controller
set_offline e c = set_state (record c.state { offline = true; last_error = e }) c

-- The controller after its state was set, by whether it was offline before.
unfoldable pub online_again : Bool → Controller → Controller
online_again true c = device_back_online c
online_again false c = c

-- `Refresh`, from the reply on.
unfoldable pub refreshed : Controller → Result ℕ GeneralStatus → Run
refreshed c (err n) = (err (short n), c)
refreshed c (ok gs) = (
  ok tt,
  online_again c.state.offline (
      set_state
        (record {
          frequency_khz = gs.frequency_khz;
          band_index = gs.band_index;
          mode_name = mode_name_of (gs.orientation % 16);
          motors_moving = not (gs.motor_bits == 0);
          motor_bits = gs.motor_bits;
          offline = false;
          last_error = "";
          retracted = false;
        })
        c),
)

-- `PollMotorStatus`, from the reply on.
unfoldable pub polled : Controller → Result ℕ MovingStatus → Run
polled c (err n) = (err (short n), c)
polled c (ok ms) = (
  ok tt,
  online_again c.state.offline (
      set_state
        (record c.state {
          motors_moving = not (ms.total_distance_mm == 0);
          offline = false;
          last_error = "";
        })
        c),
)

-- `Refresh`, from the packet on.
unfoldable pub on_status : Packet → Controller → Run
on_status p c =
    if p.command == reply_ok
    then refreshed c (parse_general_status p.payload)
    else (err (reply p.command), c)

-- `PollMotorStatus`, from the packet on.
unfoldable pub on_moving : Packet → Controller → Run
on_moving p c =
    if p.command == reply_ok
    then polled c (parse_moving_status p.payload)
    else (err (reply p.command), c)

-- An extend that passed the gate: a frequency and a mode byte, or the mode byte alone.
pub data Extend : Type 0 where
  tune : ℕ → ℕ → Extend
  turn : ℕ → Extend

-- The gate of `SetFrequency` and `SetMode`, at the time given. What passes it is carried out
-- later, and the lock may change before.
abbrev pub gate : ℕ → String → (ℕ → Extend) → Controller → Result Fault Extend
gate now mode extend c =
    if check_extend now c
    then err locked
    else elim (parse_mode mode) [ none ↦ err (bad_mode mode) | some m ↦ ok (extend m) ]

unfoldable pub pass_frequency : ℕ → ℕ → String → Controller → Result Fault Extend
pass_frequency now khz mode c = gate now mode (tune khz) c

unfoldable pub pass_mode : ℕ → String → Controller → Result Fault Extend
pass_mode now mode c = gate now mode turn c

module _ ⦃rcu : Rcu⦄ where
  abbrev pub asks : ℕ → List ℕ → Controller → Controller
  asks code payload c = record c { asked = (code, payload) ∷ c.asked }

  -- `Exchange`, then what is done with a reply; a failed exchange puts the device offline.
  unfoldable pub exchange : ℕ → List ℕ → (Packet → Controller → Run) → Controller → Run
  exchange code payload next c = elim (rcu.answer (length c.asked) code payload) [
    | err e ↦ (err (line e), set_offline e (asks code payload c))
    | ok p ↦ next p (asks code payload c)
  ]

  -- `Refresh`
  unfoldable pub refresh : Controller → Run
  refresh c = exchange cmd_status_query [] on_status c

  -- `PollMotorStatus`
  unfoldable pub poll_motor_status : Controller → Run
  poll_motor_status c = exchange cmd_moving_status [] on_moving c

  -- `Retract`, from the reply on.
  unfoldable pub on_retract : Packet → Controller → Run
  on_retract p c =
      if p.command == reply_ok
      then refresh (update_latch true true c)
      else (err (reply p.command), c)

  -- `Retract`
  unfoldable pub retract : Controller → Run
  retract c = exchange cmd_retract [] on_retract c

  -- `sendFrequency`, from the reply on.
  unfoldable pub on_frequency : Packet → Controller → Run
  on_frequency p c =
      if p.command == reply_ok
      then refresh (update_latch false false c)
      else if p.command == reply_bad_params
      then (err rejected, c)
      else (err (reply p.command), c)

  -- `sendFrequency`
  unfoldable pub send_frequency : ℕ → ℕ → Controller → Run
  send_frequency khz mode_byte c =
      exchange cmd_change_frequency (khz % 256 ∷ khz / 256 ∷ mode_byte ∷ []) on_frequency c

  -- `absDiffU16`
  abbrev pub abs_diff : ℕ → ℕ → ℕ
  abs_diff a b = if ltb b a then a - b else b - a

  -- An unknown mode name reads as 0.
  abbrev pub or_zero : Option ℕ → ℕ
  or_zero none = 0
  or_zero (some m) = m

  -- The deadband of `SetFrequency`: 25 kHz.
  unfoldable pub is_swallowed : ℕ → ℕ → Controller → Bool
  is_swallowed khz mode_byte c =
      not c.state.retracted
      && (not c.extend_due
          && (not (c.state.frequency_khz == 0)
              && (ltb (abs_diff khz c.state.frequency_khz) 25
                  && mode_byte == or_zero (parse_mode c.state.mode_name))))

  -- `SetMode` once the frequency was read.
  unfoldable pub at_frequency : ℕ → Run → Run
  at_frequency m (err e, c) = (err e, c)
  at_frequency m (ok u, c) =
      if c.state.frequency_khz == 0
      then (err unknown_frequency, c)
      else send_frequency c.state.frequency_khz m c

  -- `SetFrequency` and `SetMode` from the deadband on, when the gate has been passed.
  unfoldable pub carry_out : Extend → Controller → Run
  carry_out (tune khz m) c = if is_swallowed khz m c then (ok tt, c) else send_frequency khz m c
  carry_out (turn m) c =
      at_frequency m (if c.state.frequency_khz == 0 then refresh c else (ok tt, c))

  -- The belt and braces of `EnsureRetract`.
  unfoldable pub rearmed : Controller → Controller
  rearmed c =
      let k = c.lk in
      let again = not c.state.retracted && (not c.state.offline && not k.pending) in
      record c {
        lk = record k {
          pending = k.pending || again;
          done = k.done && not again;
          sent = k.sent && c.state.retracted;
        };
      }

  -- `EnsureRetract` while a retract of it is in flight.
  unfoldable pub settled : ℕ → Controller → Controller
  settled now c =
      if c.state.retracted && (not c.state.motors_moving && leb (c.lk.sent_at + retract_settle) now)
      then record c { lk = record c.lk { pending = false; sent = false; done = true } }
      else c

  -- `EnsureRetract` after its retract of lock `seq`.
  unfoldable pub issued : ℕ → ℕ → Run → Controller
  issued later seq (err e, c) = c
  issued later seq (ok u, c) =
      if c.lk.pending && c.lk.seq == seq
      then record c { lk = record c.lk { sent = true; sent_at = later } }
      else c

  -- `EnsureRetract`, begun at `now` and its retract, if any, answered at `later`.
  unfoldable pub ensure_retract : ℕ → ℕ → Controller → Controller
  ensure_retract now later c =
      if not (AntMode.locked c.lk.st && (lock_of c.lk.st).retract)
      then c
      else let d = rearmed c in
        if not d.lk.pending || d.state.offline
        then d
        else if d.lk.sent
        then settled now d
        else issued later d.lk.seq (retract d)
