-- ===== src/Civ/Tests.antt =====
-- icom9700-radio-bridge/internal/civ: the theorems at small inputs.
use station_a.Base.{
  ℕ, ◌<◌, ◌≤◌, ◌≡◌, ◌⊎◌, ◌++◌, refl, [], ◌∷◌, List, true, false, String, ok, err, arith, last,
}
use station_a.Civ.Codec.{too_high, bcd10_encode, bcd10_decode, low_nibble, max_bcd}
use station_a.Civ.Digits.{bcd10_decode-encode, bcd10_encode-decode}
use station_a.Civ.Buffer.{
  Entry, RxBuf, Radio, new_buf, next, next_of, next_unlocked, oldest, deliver, seq_compare,
}
use station_a.Civ.Delivering.{May, next-May}
use station_a.Civ.Frame.{addressed, parse_frame}
use station_a.Civ.Parsing.{reply, plain, parse_frame_lem}

bcd10_decode-encode_example :
    ((144500000 ≤ max_bcd)
      × ((bs : List ℕ) × (bcd10_encode 144500000 ≡ ok bs) × (bcd10_decode bs ≡ ok 144500000)))
    ⊎ ((max_bcd < 144500000) × (bcd10_encode 144500000 ≡ err (too_high 144500000)))
bcd10_decode-encode_example = bcd10_decode-encode 144500000

bcd10_encode-decode_example :
    (144500000 ≤ max_bcd) × (bcd10_encode 144500000 ≡ ok (0x00 ∷ 0x00 ∷ 0x50 ∷ 0x44 ∷ 0x01 ∷ []))
unfolding bcd10_decode low_nibble
bcd10_encode-decode_example =
    bcd10_encode-decode (0x00 ∷ 0x00 ∷ 0x50 ∷ 0x44 ∷ 0x01 ∷ []) 144500000 (omega arith) refl

-- A reply whose data holds an end marker, and a broadcast.
parse_frame_lem_example :
    (parse_frame (reply 0x00 (0xFD ∷ 0x50 ∷ []) 0xFB)
      ≡ ok (record { cmd = 0x00; sub = 0xFD ∷ 0x50 ∷ []; terminator = 0xFB; direct = true }))
    × (parse_frame (plain 0xFE 0x00 0x00 0xFD (0x14 ∷ []))
        ≡ ok (record { cmd = 0x00; sub = 0xFD ∷ 0x14 ∷ []; terminator = 0xFD; direct = false }))
unfolding addressed last
parse_frame_lem_example =
    parse_frame_lem 0x00 (0xFD ∷ 0x50 ∷ []) 0xFB 0xFE 0x00 0xFD (0x14 ∷ []) false refl refl refl

abbrev main_vfo : String
main_vfo = "main"

abbrev packet : ℕ → Entry
packet n = record { seq = n; bytes = [] }

instance abbrev deaf : Radio
deaf = record { request = λ from to. false }

-- The last packet before the wrap was returned, and the one after it waits with a later one.
abbrev wrapping : RxBuf
wrapping = record (new_buf 100 0) {
  entries = packet 2 ∷ packet 0 ∷ [];
  returned_first = true;
  last_returned = 65535;
}

next-May_example :
    May 7 (packet 0) wrapping
    × (wrapping.entries ≡ (next 7 wrapping).1.entries ++ packet 0 ∷ [])
    × ((next 7 wrapping).1.last_returned ≡ 0)
unfolding new_buf next next_of next_unlocked oldest deliver seq_compare
next-May_example = next-May 7 (packet 0) wrapping (next 7 wrapping).1 refl
