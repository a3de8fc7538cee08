-- ===== src/UltraBridge/Tests.antt =====
-- ultrabridge/internal/ub: the theorems at small inputs.
use station_a.Base.{
  ◌+◌, ◌≤◌, length, ℕ, ◌<◌, ◌∷◌, [], ◌++◌, ◌≡◌, ◌⊎◌, List, true, false, some, none, refl, ok, arith,
}
use station_a.AntMode as AntMode
use station_a.UltraBridge.Packet.{
  Packet, summed, quote, encode_packet, decode_framed, answer, read_one_packet,
}
use station_a.UltraBridge.Commands.{parse_general_status}
use station_a.UltraBridge.Lock.{
  Controller, new_controller, no_antenna, apply_ant_mode, update_latch,
}
use station_a.UltraBridge.Controlling.{
  Rcu, refresh, exchange, on_status, refreshed, online_again, set_state, tune, pass_frequency,
  pass_mode, carry_out, is_swallowed, on_frequency, send_frequency, retract, ensure_retract,
}
use station_a.UltraBridge.Locking.{extends}
use station_a.UltraBridge.History.{
  sets_frequency, sets_mode, carries_out, stays, first, Service, gated, retract-carry_out,
}
use station_a.UltraBridge.Promises.{ends, under, no_extend}
use station_a.UltraBridge.Reading.{read_one_packet-encode_packet}

-- A packet with a byte that has to be quoted.
abbrev tuning : Packet
tuning = record { seq = 3; command = 3; payload = 0xF5 ∷ 0x37 ∷ [] }

read_one_packet-encode_packet_example :
    (read_one_packet ((7 ∷ 0xF5 ∷ []) ++ (encode_packet tuning ++ 9 ∷ []))
      ≡ answer (ok tuning) (9 ∷ []))
    × (decode_framed (quote (summed tuning)) ≡ ok tuning)
read_one_packet-encode_packet_example =
    read_one_packet-encode_packet (7 ∷ 0xF5 ∷ []) tuning (9 ∷ []) (omega arith)

-- A status reply.
abbrev status : List ℕ
status = 1 ∷ 2 ∷ 0 ∷ 20 ∷ 55 ∷ 3 ∷ 0 ∷ 0 ∷ 0 ∷ 0 ∷ 7 ∷ 50 ∷ []

-- A device that accepts all, tuned to 14100 kHz and standing still.
instance abbrev willing : Rcu
willing = record {
  answer = λ n code payload. ok (record { seq = 0; command = 0; payload = status });
}

-- A controller tuned to 14100 kHz, with nothing left to carry out.
abbrev tuned : Service
tuned = record {
  controller = record new_controller {
    state = record no_antenna { frequency_khz = 14100; mode_name = "forward" };
  };
  passed = [];
}

abbrev drawn_in : Service
drawn_in = record tuned { controller = (retract tuned.controller).1 }

-- After the retract, a set frequency to where the antenna was passes the gate.
abbrev asked_again : Service
asked_again = gated (pass_frequency 0 14100 "forward" drawn_in.controller) drawn_in

retract-carry_out_example :
    (extends drawn_in.controller.asked < extends asked_again.controller.asked)
    ⊎ (carry_out (tune 14100 0) asked_again.controller
        ≡ send_frequency 14100 0 asked_again.controller)
retract-carry_out_example =
    retract-carry_out tuned asked_again 14100 0
      (record { seq = 0; command = 0; payload = status }, (refl, refl))
      (first (sets_frequency 0 14100 "forward") stays)

abbrev storm : AntMode.State
storm = record {
  mode = AntMode.Mode.storm;
  lock = some (record { seq = 4; ground = true; retract = true; park_az = none; nudge = false });
  power_hold = false;
}

abbrev pub stormy : Controller
stormy = record new_controller { lk = record new_controller.lk { st = storm; seen = true } }

-- One extend passed the gate before the storm.
abbrev caught : Service
caught = record { controller = stormy; passed = tune 14100 0 ∷ [] }

abbrev let_go : Service
let_go = record { controller = (carry_out (tune 14100 0) stormy).1; passed = [] }

let_go-locked : AntMode.locked let_go.controller.lk.st ≡ true
unfolding new_controller AntMode.locked carry_out is_swallowed send_frequency exchange on_frequency
    refresh on_status refreshed parse_general_status online_again update_latch set_state
let_go-locked = refl

no_extend_example :
    extends (gated (pass_mode 0 "forward" let_go.controller) let_go).controller.asked
      + length (gated (pass_mode 0 "forward" let_go.controller) let_go).passed
    ≤ extends stormy.asked + 1
unfolding AntMode.locked
no_extend_example =
    no_extend {s = caught} {t = gated (pass_mode 0 "forward" let_go.controller) let_go} (
      under refl (carries_out [] (tune 14100 0) [] refl)
        (under let_go-locked (sets_mode 0 "forward") ends))

abbrev told_of : Controller
told_of = apply_ant_mode (AntMode.snapshot storm) new_controller

abbrev retracting : Controller
retracting = ensure_retract 0 5 told_of

abbrev alone : Controller → Service
alone c = record { controller = c; passed = [] }
