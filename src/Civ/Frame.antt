-- ===== src/Civ/Frame.antt =====
-- icom9700-radio-bridge/internal/civ/civ.go and commands.go: frames, commands and their replies.
use station_a.Base.{
  ℕ, ◌+◌, ◌*◌, ◌==◌, ltb, not, ◌&&◌, ◌||◌, Bool, true, false, String, str_eq, Option, none, some,
  List, [], ◌∷◌, ◌++◌, length, front, last, if◌then◌else◌, Result, ok, err, ◌>>=◌,
}
use station_a.Civ.Codec.{
  CivError, bad_length, bad_digit, bad_byte, unknown_vfo, unsupported_mode, short_frame,
  no_preamble, bad_address, no_end, mode_from_byte, mode_to_byte, default_filter, bcd10_encode,
  bcd10_decode, low_nibble, high_nibble,
}

abbrev pub addr_radio : ℕ
addr_radio = 0xA2

abbrev pub addr_controller : ℕ
addr_controller = 0xE0

abbrev pub terminator_frame : ℕ
terminator_frame = 0xFD

abbrev pub terminator_ok : ℕ
terminator_ok = 0xFB

abbrev pub terminator_ng : ℕ
terminator_ng = 0xFA

pub record Frame : Type 0 where
  pub cmd : ℕ
  pub sub : List ℕ
  pub terminator : ℕ
  pub direct : Bool

-- `IsNG`
unfoldable pub is_ng : Frame → Bool
is_ng f = f.terminator == terminator_ng

-- `BuildFrame`
unfoldable pub build_frame : ℕ → List ℕ → List ℕ
build_frame cmd sub =
    0xFE ∷ 0xFE ∷ addr_radio ∷ addr_controller ∷ cmd ∷ (sub ++ terminator_frame ∷ [])

abbrev pub is_reply_end : ℕ → Bool
is_reply_end b = b == terminator_ok || b == terminator_ng

-- The body of a frame: what stands between the command and the end marker. The code of a bare
-- acknowledgement stands in the place of the command.
unfoldable pub parse_body : ℕ → Bool → List ℕ → Frame
parse_body cmd direct [] = record {
  cmd = cmd;
  sub = [];
  terminator = if is_reply_end cmd then cmd else terminator_frame;
  direct = direct;
}
parse_body cmd direct (b ∷ bs) =
    if is_reply_end (last (b ∷ bs))
    then record { cmd = cmd; sub = front (b ∷ bs); terminator = last (b ∷ bs); direct = direct }
    else record { cmd = cmd; sub = b ∷ bs; terminator = terminator_frame; direct = direct }

-- The addressing: a broadcast or a direct reply (`some true`), or neither.
unfoldable pub addressed : ℕ → ℕ → Option Bool
addressed dest src =
    if dest == 0xFE
    then some false
    else if dest == addr_controller && src == addr_radio
    then some true
    else if dest == 0x00 && src == addr_radio
    then some false
    else none

-- `ParseFrame`
unfoldable pub parse_frame : List ℕ → Result CivError Frame
parse_frame (a ∷ b ∷ dest ∷ src ∷ cmd ∷ e ∷ rest) =
    if not (a == 0xFE) || not (b == 0xFE) then err no_preamble else elim (addressed dest src) [
      | none ↦ err bad_address
      | some direct ↦
          if not (last (e ∷ rest) == terminator_frame)
          then err no_end
          else ok (parse_body cmd direct (front (e ∷ rest)))
    ]
parse_frame p = err short_frame

-- `CmdSetFreq`
unfoldable pub cmd_set_freq : ℕ → Result CivError (List ℕ)
unfolding build_frame
cmd_set_freq hz = bcd10_encode hz >>= λ bcd. ok (build_frame 0x05 bcd)

-- `ParseFreqReply`
abbrev pub parse_freq_reply : List ℕ → Result CivError ℕ
parse_freq_reply bs = bcd10_decode bs

abbrev pub of_mode_byte : Option ℕ → String → Result CivError (List ℕ)
of_mode_byte none mode = err (unsupported_mode mode)
of_mode_byte (some b) mode = ok (build_frame 0x06 (b ∷ default_filter ∷ []))

-- `CmdSetMode`
unfoldable pub cmd_set_mode : String → Result CivError (List ℕ)
cmd_set_mode mode = of_mode_byte (mode_to_byte mode) mode

-- `ParseModeReply`: the mode, if it is supported, and the filter.
unfoldable pub parse_mode_reply : List ℕ → Result CivError (Option String × ℕ)
parse_mode_reply (m ∷ filter ∷ []) = ok (mode_from_byte m, filter)
parse_mode_reply bs = err (bad_length (length bs))

-- `CmdSelectVFO`
unfoldable pub cmd_select_vfo : String → Result CivError (List ℕ)
cmd_select_vfo vfo =
    if str_eq vfo "main"
    then ok (build_frame 0x07 (0xD0 ∷ []))
    else if str_eq vfo "sub"
    then ok (build_frame 0x07 (0xD1 ∷ []))
    else err (unknown_vfo vfo)

-- `ParseVFOReply`
unfoldable pub parse_vfo_reply : List ℕ → Result CivError String
parse_vfo_reply (b ∷ []) =
    if b == 0x00 then ok "main" else if b == 0x01 then ok "sub" else err (bad_byte b)
parse_vfo_reply bs = err (bad_length (length bs))

abbrev pub on_off : Bool → ℕ
on_off on = if on then 0x01 else 0x00

-- `CmdSatelliteMode`
unfoldable pub cmd_satellite_mode : Bool → List ℕ
cmd_satellite_mode on = build_frame 0x16 (0x5A ∷ on_off on ∷ [])

-- `ParseSatelliteReply`
unfoldable pub parse_satellite_reply : List ℕ → Result CivError Bool
parse_satellite_reply (b ∷ []) =
    if b == 0x00 then ok false else if b == 0x01 then ok true else err (bad_byte b)
parse_satellite_reply bs = err (bad_length (length bs))

-- One byte of the loop of `ParseMeter`.
unfoldable pub meter_from : List ℕ → ℕ → ℕ → Result CivError ℕ
meter_from [] v i = ok v
meter_from (b ∷ bs) v i =
    let rest = meter_from bs (v * 100 + high_nibble b * 10 + low_nibble b) (i + 1) in
    if ltb 9 (high_nibble b) || ltb 9 (low_nibble b) then err (bad_digit b i) else rest

-- `ParseMeter`
unfoldable pub parse_meter : List ℕ → Result CivError ℕ
unfolding meter_from
parse_meter (b ∷ []) = ok b
parse_meter (b ∷ c ∷ []) = meter_from (b ∷ c ∷ []) 0 0
parse_meter bs = err (bad_length (length bs))

-- `ParsePreamp` and `ParseAttenuator`
unfoldable pub parse_switch : List ℕ → Result CivError Bool
parse_switch (b ∷ []) = ok (not (b == 0x00))
parse_switch bs = err (bad_length (length bs))

-- `CmdSetRFPower`
unfoldable pub cmd_set_rf_power : ℕ → List ℕ
cmd_set_rf_power level = build_frame 0x14 (0x0A ∷ level ∷ [])

-- `CmdSetTransceive`
unfoldable pub cmd_set_transceive : Bool → List ℕ
cmd_set_transceive on = build_frame 0x1A (0x05 ∷ 0x01 ∷ (if on then 0x27 else 0x26) ∷ [])
