-- ===== src/UltraBridge/Packet.antt =====
-- ultrabridge/internal/ub/protocol/packet.go and the reader of internal/ub/transport/device.go: the
-- serial frames of the controller. A byte is a natural number.
use Prim.Native.Nat.{bit_and, bit_or, bit_xor}
use station_a.Base.{
  ℕ, ◌+◌, ◌%◌, ◌==◌, ◌||◌, not, Bool, true, false, List, [], ◌∷◌, ◌++◌, length, ltb, front, last,
  if◌then◌else◌, Result, ok, err,
}

abbrev pub stx : ℕ
stx = 0xF5

abbrev pub dle : ℕ
dle = 0xF6

abbrev pub etx : ℕ
etx = 0xFA

abbrev pub checksum_seed : ℕ
checksum_seed = 0x55

pub record Packet : Type 0 where
  pub seq : ℕ
  pub command : ℕ  -- Com
  pub payload : List ℕ  -- Data

pub data PacketError : Type 0 where
  too_short checksum_mismatch : PacketError

-- The loop of `checksum`; the sum is one byte.
unfoldable pub checksum_from : ℕ → List ℕ → ℕ
checksum_from chk [] = chk
checksum_from chk (b ∷ bs) = checksum_from ((bit_xor chk b + 1) % 256) bs

-- `checksum`
unfoldable pub checksum : List ℕ → ℕ
unfolding checksum_from
checksum bs = checksum_from checksum_seed bs

abbrev pub is_special : ℕ → Bool
is_special b = b == stx || (b == etx || b == dle)

-- `appendQuoted`: what it appends for one byte.
unfoldable pub quoted : ℕ → List ℕ
quoted b = if is_special b then dle ∷ bit_and b 0x7F ∷ [] else b ∷ []

unfoldable pub quote : List ℕ → List ℕ
quote [] = []
quote (b ∷ bs) = quoted b ++ quote bs

abbrev pub fields : Packet → List ℕ
fields p = p.seq ∷ p.command ∷ p.payload

-- The payload of `EncodePacket`, with its checksum.
unfoldable pub summed : Packet → List ℕ
summed p = fields p ++ checksum (fields p) ∷ []

-- `EncodePacket`
unfoldable pub encode_packet : Packet → List ℕ
encode_packet p = stx ∷ (quote (summed p) ++ etx ∷ [])

abbrev of_fields : List ℕ → Result PacketError Packet
of_fields (s ∷ c ∷ bs) = ok (record { seq = s; command = c; payload = bs })
of_fields bs = err too_short

-- `DecodeDecodedPacket`
unfoldable pub decode_decoded : List ℕ → Result PacketError Packet
decode_decoded bs =
    if ltb (length bs) 3
    then err too_short
    else if not (checksum (front bs) == last bs)
    then err checksum_mismatch
    else of_fields (front bs)

-- The bytes of `DecodeFramedBytes`, without their escapes.
unfoldable pub unquote : Bool → List ℕ → List ℕ
unquote escaped [] = []
unquote true (b ∷ bs) = bit_or b 0x80 ∷ unquote false bs
unquote false (b ∷ bs) = if b == dle then unquote true bs else b ∷ unquote false bs

-- `DecodeFramedBytes`
unfoldable pub decode_framed : List ℕ → Result PacketError Packet
decode_framed bs = decode_decoded (unquote false bs)

-- The variables of `readOnePacket`.
pub record Reader : Type 0 where
  pub in_packet : Bool
  pub escaped : Bool
  pub decoded : List ℕ

abbrev pub waiting : Reader
waiting = record { in_packet = false; escaped = false; decoded = [] }

pub data Fed : Type 0 where
  complete : Result PacketError Packet → Fed
  more : Reader → Fed

-- One byte of the loop of `readOnePacket`.
unfoldable pub feed : ℕ → Reader → Fed
feed b r =
    if b == stx
    then more (record { in_packet = true; escaped = false; decoded = [] })
    else if not r.in_packet
    then more r
    else if b == etx
    then complete (decode_decoded r.decoded)
    else if r.escaped
    then more (record r { decoded = r.decoded ++ bit_or b 0x80 ∷ []; escaped = false })
    else if b == dle
    then more (record r { escaped = true })
    else more (record r { decoded = r.decoded ++ b ∷ [] })

-- What a call of `readOnePacket` makes of the bytes that arrive: an answer and the bytes that are
-- left, or silence (a timeout, or the end of the stream).
pub data Received : Type 0 where
  answer : Result PacketError Packet → List ℕ → Received
  silence : Received

unfoldable pub read_from : Reader → List ℕ → Received
read_from r [] = silence
read_from r (b ∷ bs) = elim (feed b r) [ complete x ↦ answer x bs | more r' ↦ read_from r' bs ]

-- `readOnePacket`
unfoldable pub read_one_packet : List ℕ → Received
read_one_packet bs = read_from waiting bs
