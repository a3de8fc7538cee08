-- ===== src/Civ/Codec.antt =====
-- icom9700-radio-bridge/internal/civ/codec.go: modes, bands and frequencies.
use Prim.Native.Nat.{bit_and, bit_or}
use station_a.Base.{
  ℕ, zero, suc, ◌+◌, ◌*◌, ◌/◌, ◌%◌, ◌==◌, ltb, leb, not, ◌&&◌, ◌||◌, Bool, true, false, String,
  str_eq, Option, none, some, List, [], ◌∷◌, length, if◌then◌else◌, Result, ok, err, ◌>>=◌, u64,
}

pub data CivError : Type 0 where
  too_high bad_length outside_bands : ℕ → CivError
  bad_digit : (digit position : ℕ) → CivError
  bad_byte : ℕ → CivError
  unknown_vfo unsupported_mode : String → CivError
  sub_has_no_23cm short_frame no_preamble bad_address no_end : CivError

-- `ModeFromByte`
unfoldable pub mode_from_byte : ℕ → Option String
mode_from_byte b =
    if b == 0x00
    then some "lsb"
    else if b == 0x01
    then some "usb"
    else if b == 0x02
    then some "am"
    else if b == 0x03 || b == 0x07
    then some "cw"
    else if b == 0x05
    then some "fm"
    else none

-- `ModeToByte`
unfoldable pub mode_to_byte : String → Option ℕ
mode_to_byte mode =
    if str_eq mode "lsb"
    then some 0x00
    else if str_eq mode "usb"
    then some 0x01
    else if str_eq mode "am"
    then some 0x02
    else if str_eq mode "cw"
    then some 0x03
    else if str_eq mode "fm"
    then some 0x05
    else none

-- `DefaultFilter`
abbrev pub default_filter : ℕ
default_filter = 0x01

-- `bandDef`
pub record BandDef : Type 0 where
  pub name : String
  pub min_hz : ℕ
  pub max_hz : ℕ  -- exclusive
  pub has_sub : Bool

abbrev pub bands : List BandDef
bands =
    record { name = "2m"; min_hz = 140000000; max_hz = 150000000; has_sub = true }
    ∷ record { name = "70cm"; min_hz = 420000000; max_hz = 460000000; has_sub = true }
    ∷ record { name = "23cm"; min_hz = 1240000000; max_hz = 1320000000; has_sub = false }
    ∷ []

-- The loop of `BandForFreq`.
abbrev pub band_in : List BandDef → ℕ → Result CivError String
band_in [] hz = err (outside_bands hz)
band_in (b ∷ bs) hz = if leb b.min_hz hz && ltb hz b.max_hz then ok b.name else band_in bs hz

-- `BandForFreq`
unfoldable pub band_for_freq : ℕ → Result CivError String
band_for_freq hz = band_in bands hz

-- `ValidateFreq`; no error is `ok tt`.
unfoldable pub validate_freq : String → ℕ → Result CivError (Unit {0})
unfolding band_for_freq
validate_freq vfo hz =
    if not (str_eq vfo "main") && not (str_eq vfo "sub")
    then err (unknown_vfo vfo)
    else band_for_freq hz >>= λ band.
        if str_eq vfo "sub" && str_eq band "23cm" then err sub_has_no_23cm else ok tt

abbrev pub max_bcd : ℕ
max_bcd = 9999999999

-- Two rounds of the loop of `BCD10Encode`: one byte, the lower-order digit in the low nibble.
unfoldable pub bcd_byte : ℕ → ℕ
bcd_byte hz = bit_or (hz % 10) (hz / 10 % 10 * 16)

unfoldable pub bcd_bytes : ℕ → ℕ → List ℕ
bcd_bytes zero hz = []
bcd_bytes (suc k) hz = bcd_byte hz ∷ bcd_bytes k (hz / 10 / 10)

-- `BCD10Encode`
unfoldable pub bcd10_encode : ℕ → Result CivError (List ℕ)
unfolding bcd_bytes
bcd10_encode hz = if ltb max_bcd hz then err (too_high hz) else ok (bcd_bytes 5 hz)

unfoldable pub low_nibble : ℕ → ℕ
low_nibble b = bit_and b 0x0F

abbrev pub high_nibble : ℕ → ℕ
high_nibble b = b / 16

-- Two rounds of the loop of `BCD10Decode` for each byte: the digits at positions i and i + 1.
unfoldable pub decode_from : List ℕ → ℕ → ℕ → ℕ → Result CivError ℕ
decode_from [] hz mult i = ok hz
decode_from (b ∷ bs) hz mult i =
    let lo = low_nibble b in
    let hi = high_nibble b in
    let rest =
      decode_from bs (u64 (u64 (hz + lo * mult) + hi * u64 (mult * 10))) (u64 (mult * 100))
        (i + 2) in
    if ltb 9 lo then err (bad_digit lo i) else if ltb 9 hi then err (bad_digit hi (i + 1)) else rest

-- `BCD10Decode`
unfoldable pub bcd10_decode : List ℕ → Result CivError ℕ
unfolding decode_from
bcd10_decode bs =
    if not (length bs == 5) then err (bad_length (length bs)) else decode_from bs 0 1 0
