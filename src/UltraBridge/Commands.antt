-- ===== src/UltraBridge/Commands.antt =====
-- ultrabridge/internal/ub/protocol/commands.go: what the RCU-06 is asked and answers.
use station_a.Base.{
  ℕ, zero, suc, str_eq, ◌||◌, ◌+◌, ◌*◌, ◌%◌, String, List, [], ◌∷◌, length, ltb, ◌==◌, Option, none,
  some, if◌then◌else◌, Result, ok, err,
}

abbrev pub cmd_status_query : ℕ
cmd_status_query = 1

abbrev pub cmd_retract : ℕ
cmd_retract = 2

abbrev pub cmd_change_frequency : ℕ
cmd_change_frequency = 3

abbrev pub cmd_moving_status : ℕ
cmd_moving_status = 10

abbrev pub reply_ok : ℕ
reply_ok = 0

abbrev pub reply_bad_params : ℕ
reply_bad_params = 30

-- `GeneralStatus`: the fields that the controller reads.
pub record GeneralStatus : Type 0 where
  pub frequency_khz : ℕ
  pub band_index : ℕ
  pub orientation : ℕ
  pub motor_bits : ℕ

pub record MovingStatus : Type 0 where
  pub total_distance_mm : ℕ
  pub progress_units : ℕ

-- Byte `n`, which the callers know to be there.
abbrev byte_at : List ℕ → ℕ → ℕ
byte_at [] n = 0
byte_at (b ∷ bs) zero = b
byte_at (b ∷ bs) (suc n) = byte_at bs n

-- `uint16(lo) | (uint16(hi) << 8)`
abbrev word : ℕ → ℕ → ℕ
word lo hi = lo + 256 * hi

-- `ParseGeneralStatus`; the error holds the length.
unfoldable pub parse_general_status : List ℕ → Result ℕ GeneralStatus
parse_general_status bytes =
    if ltb (length bytes) 12
    then err (length bytes)
    else ok (record {
      frequency_khz = word (byte_at bytes 3) (byte_at bytes 4);
      band_index = byte_at bytes 5;
      orientation = byte_at bytes 6 % 16;
      motor_bits = byte_at bytes 9;
    })

-- `ParseMovingStatus`
unfoldable pub parse_moving_status : List ℕ → Result ℕ MovingStatus
parse_moving_status bytes =
    if ltb (length bytes) 4
    then err (length bytes)
    else ok (record {
      total_distance_mm = word (byte_at bytes 0) (byte_at bytes 1);
      progress_units = word (byte_at bytes 2) (byte_at bytes 3);
    })

-- `ParseMode`
unfoldable pub parse_mode : String → Option ℕ
parse_mode s =
    if str_eq s "" || (str_eq s "forward" || str_eq s "normal")
    then some 0
    else if str_eq s "reverse" || str_eq s "180"
    then some 1
    else if str_eq s "bidirectional" || str_eq s "bidir"
    then some 2
    else none

-- `ModeName`
unfoldable pub mode_name_of : ℕ → String
mode_name_of n =
    if n == 0
    then "forward"
    else if n == 1
    then "reverse"
    else if n == 2
    then "bidirectional"
    else "unknown"
