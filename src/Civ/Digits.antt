-- ===== src/Civ/Digits.antt =====
-- icom9700-radio-bridge/internal/civ/codec.go: a frequency and its decimal digits on the wire.
use Prim.Native.Nat.{bit_or}
use station_a.Base.{
  ℕ, suc, ◌+◌, ◌*◌, ◌/◌, ◌%◌, ◌≤◌, ◌<◌, ◌==◌, ltb, leb, ◌&&◌, ◌||◌, Bool, true, List, [], ◌∷◌, ◌≡◌,
  ◌⊎◌, inl, inr, refl, sym, ap, ◌∙◌, arith, All, all_below, all_below_sound, Bool-cases, Result, ok,
  err, u64,
}
use station_a.Civ.Codec.{
  too_high, max_bcd, bcd_byte, bcd_bytes, bcd10_encode, low_nibble, high_nibble, decode_from,
  bcd10_decode,
}

byte_table :
    all_below 100 (λ x. low_nibble (bcd_byte x) == x % 10 && high_nibble (bcd_byte x) == x / 10)
    ≡ true
unfolding all_below low_nibble bcd_byte
byte_table = refl

nibble_table :
    all_below 256 (λ b.
      ltb 9 (low_nibble b)
      || (ltb 9 (high_nibble b) || bcd_byte (low_nibble b + 10 * high_nibble b) == b))
    ≡ true
unfolding all_below low_nibble bcd_byte
nibble_table = refl

eqb_to : (a b : ℕ) → a == b ≡ true → a ≡ b
eqb_to a b e = ground (arith, e)

-- The nibbles of an encoded byte are the two lowest digits.
bcd_byte-mod : (hz : ℕ) → bcd_byte hz ≡ bcd_byte (hz % 100)
unfolding bcd_byte
bcd_byte-mod hz =
    let low : hz % 10 ≡ hz % 100 % 10 = omega arith in
    let high : hz / 10 % 10 ≡ hz % 100 / 10 % 10 = omega arith in λ i. bit_or (low i) (high i * 16)

both_true : (p q : Bool) → (p && q) ≡ true → (p ≡ true) × (q ≡ true)
both_true p q e = ground arith

ok_inj : {E A : Type 0} {a b : A} → ◌≡◌ {A = Result E A} (ok a) (ok b) → a ≡ b
ok_inj e = cc

byte_digits :
    (hz : ℕ) → (low_nibble (bcd_byte hz) ≡ hz % 10) × (high_nibble (bcd_byte hz) ≡ hz / 10 % 10)
byte_digits hz =
    let both = all_below_sound 100 _ (hz % 100) byte_table (omega arith) in
    let (lo, hi) = both_true _ _ both in
    let same = bcd_byte-mod hz in
    (
      ap low_nibble same ∙ eqb_to _ _ lo ∙ omega arith,
      ap (λ b. high_nibble b) same ∙ eqb_to _ _ hi ∙ omega arith,
    )

-- A byte of two decimal nibbles is the encoding of what they spell.
byte_spelled :
    (b : ℕ)
    → b < 256
    → low_nibble b ≤ 9
    → high_nibble b ≤ 9
    → bcd_byte (low_nibble b + 10 * high_nibble b) ≡ b
byte_spelled b l p q = ground (arith, all_below_sound 256 _ b nibble_table l)

abbrev accumulated : ℕ → ℕ → ℕ → ℕ
accumulated b hz mult = u64 (u64 (hz + low_nibble b * mult) + high_nibble b * u64 (mult * 10))

decode-step :
    (b : ℕ) (bs : List ℕ) (hz mult i : ℕ)
    → low_nibble b ≤ 9
    → high_nibble b ≤ 9
    → decode_from (b ∷ bs) hz mult i
      ≡ decode_from bs (accumulated b hz mult) (u64 (mult * 100)) (i + 2)
unfolding decode_from
decode-step b bs hz mult i p q = ground arith

decode-inv :
    (b : ℕ) (bs : List ℕ) (hz mult i h : ℕ)
    → decode_from (b ∷ bs) hz mult i ≡ ok h
    → (low_nibble b ≤ 9)
      × (high_nibble b ≤ 9)
      × (decode_from bs (accumulated b hz mult) (u64 (mult * 100)) (i + 2) ≡ ok h)
unfolding decode_from
decode-inv b bs hz mult i h e = ground arith

-- The number that five bytes spell.
abbrev spelled : ℕ → ℕ
spelled b = low_nibble b + 10 * high_nibble b

abbrev value : ℕ → ℕ → ℕ → ℕ → ℕ → ℕ
value a b c d e =
    spelled a + 100 * spelled b + 10000 * spelled c + 1000000 * spelled d + 100000000 * spelled e

abbrev Decimal : ℕ → Type 0
Decimal b = (low_nibble b ≤ 9) × (high_nibble b ≤ 9)

decode-five :
    (a b c d e : ℕ)
    → Decimal a
    → Decimal b
    → Decimal c
    → Decimal d
    → Decimal e
    → decode_from (a ∷ b ∷ c ∷ d ∷ e ∷ []) 0 1 0 ≡ ok (value a b c d e)
unfolding decode_from
decode-five a b c d e p q r s t =
    let ha : accumulated a 0 1 ≡ spelled a = omega arith in
    let hb : accumulated b (spelled a) 100 ≡ spelled a + 100 * spelled b = omega arith in
    let hc : accumulated c (spelled a + 100 * spelled b) 10000
        ≡ spelled a + 100 * spelled b + 10000 * spelled c =
      omega arith in
    let hd : accumulated d (spelled a + 100 * spelled b + 10000 * spelled c) 1000000
        ≡ spelled a + 100 * spelled b + 10000 * spelled c + 1000000 * spelled d =
      omega arith in
    let he : accumulated e (spelled a + 100 * spelled b + 10000 * spelled c + 1000000 * spelled d)
          100000000
        ≡ value a b c d e =
      omega arith in
    decode-step a (b ∷ c ∷ d ∷ e ∷ []) 0 1 0 p.0 p.1
    ∙ ap (λ h. decode_from (b ∷ c ∷ d ∷ e ∷ []) h 100 2) ha
    ∙ decode-step b (c ∷ d ∷ e ∷ []) _ 100 2 q.0 q.1
    ∙ ap (λ h. decode_from (c ∷ d ∷ e ∷ []) h 10000 4) hb
    ∙ decode-step c (d ∷ e ∷ []) _ 10000 4 r.0 r.1
    ∙ ap (λ h. decode_from (d ∷ e ∷ []) h 1000000 6) hc
    ∙ decode-step d (e ∷ []) _ 1000000 6 s.0 s.1
    ∙ ap (λ h. decode_from (e ∷ []) h 100000000 8) hd
    ∙ decode-step e [] _ 100000000 8 t.0 t.1
    ∙ ap (λ h. ok h) he

-- What has been decoded was spelled by decimal digits.
Decimals-five :
    (a b c d e h : ℕ)
    → decode_from (a ∷ b ∷ c ∷ d ∷ e ∷ []) 0 1 0 ≡ ok h
    → Decimal a × Decimal b × Decimal c × Decimal d × Decimal e
Decimals-five a b c d e h o =
    let (a1, a2, o1) = decode-inv a _ 0 1 0 h o in
    let (b1, b2, o2) = decode-inv b _ _ 100 2 h o1 in
    let (c1, c2, o3) = decode-inv c _ _ 10000 4 h o2 in
    let (d1, d2, o4) = decode-inv d _ _ 1000000 6 h o3 in
    let (e1, e2, o5) = decode-inv e _ _ 100000000 8 h o4 in
    ((a1, a2), (b1, b2), (c1, c2), (d1, d2), (e1, e2))

Decimal-encoded : (hz : ℕ) → Decimal (bcd_byte hz)
Decimal-encoded hz = let (lo, hi) = byte_digits hz in (omega (arith, lo), omega (arith, hi))

spelled-encoded : (hz : ℕ) → spelled (bcd_byte hz) ≡ hz % 100
spelled-encoded hz = let (lo, hi) = byte_digits hz in omega (arith, lo, hi)

encoded-or-refused :
    (hz : ℕ)
    → (hz ≤ max_bcd → (bs : List ℕ) × (bcd10_encode hz ≡ ok bs) × (bcd10_decode bs ≡ ok hz))
      × (max_bcd < hz → bcd10_encode hz ≡ err (too_high hz))
unfolding bcd10_encode bcd10_decode bcd_bytes
encoded-or-refused hz = (
  λ small.
      let b = hz / 10 / 10 in
      let c = b / 10 / 10 in
      let d = c / 10 / 10 in
      let e = d / 10 / 10 in
      (
        bcd_bytes 5 hz,
        ground arith,
        decode-five (bcd_byte hz) (bcd_byte b) (bcd_byte c) (bcd_byte d) (bcd_byte e)
              (Decimal-encoded hz) (Decimal-encoded b) (Decimal-encoded c) (Decimal-encoded d)
              (Decimal-encoded e)
            ∙ ap (λ h. ok h)
                (omega (
                  arith,
                  spelled-encoded hz,
                  spelled-encoded b,
                  spelled-encoded c,
                  spelled-encoded d,
                  spelled-encoded e,
                )),
      ),
  λ large. ground arith,
)

-- Encoding peels off the byte that spells the two lowest digits.
bcd_bytes-peel :
    (k b m : ℕ) → b < 256 → Decimal b → bcd_bytes (suc k) (spelled b + 100 * m) ≡ b ∷ bcd_bytes k m
unfolding bcd_bytes
bcd_bytes-peel k b m l x =
    let low : (spelled b + 100 * m) % 100 ≡ spelled b = omega (arith, x.0, x.1) in
    let same = bcd_byte-mod (spelled b + 100 * m) ∙ ap bcd_byte low ∙ byte_spelled b l x.0 x.1 in
    let above : (spelled b + 100 * m) / 10 / 10 ≡ m = omega (arith, x.0, x.1) in
    λ i. same i ∷ bcd_bytes k (above i)

encode-value :
    (a b c d e : ℕ)
    → All (λ x. x < 256) (a ∷ b ∷ c ∷ d ∷ e ∷ [])
    → Decimal a × Decimal b × Decimal c × Decimal d × Decimal e
    → bcd_bytes 5 (value a b c d e) ≡ a ∷ b ∷ c ∷ d ∷ e ∷ []
encode-value a b c d e l x =
    let m1 = spelled e + 100 * 0 in
    let m2 = spelled d + 100 * m1 in
    let m3 = spelled c + 100 * m2 in
    let m4 = spelled b + 100 * m3 in
    let nested : value a b c d e ≡ spelled a + 100 * m4 = omega arith in
    ap (bcd_bytes 5) nested
    ∙ bcd_bytes-peel 4 a m4 l.0 x.0
    ∙ ap (λ bs. a ∷ bs)
        (bcd_bytes-peel 3 b m3 l.1.0 x.1
          ∙ ap (λ bs. b ∷ bs)
              (bcd_bytes-peel 2 c m2 l.1.1.0 x.2
                ∙ ap (λ bs. c ∷ bs)
                    (bcd_bytes-peel 1 d m1 l.1.1.1.0 x.3
                      ∙ ap (λ bs. d ∷ bs)
                          (bcd_bytes-peel 0 e 0 l.1.1.1.1.0 x.4
                            ∙ ap (λ bs. e ∷ bs) (unfold bcd_bytes in refl)))))

five-accepted :
    (a b c d e hz : ℕ)
    → All (λ x. x < 256) (a ∷ b ∷ c ∷ d ∷ e ∷ [])
    → decode_from (a ∷ b ∷ c ∷ d ∷ e ∷ []) 0 1 0 ≡ ok hz
    → (hz ≤ max_bcd) × (bcd10_encode hz ≡ ok (a ∷ b ∷ c ∷ d ∷ e ∷ []))
unfolding bcd10_encode
five-accepted a b c d e hz l o =
    let x = Decimals-five a b c d e hz o in
    let v : value a b c d e ≡ hz = ok_inj (sym (decode-five a b c d e x.0 x.1 x.2 x.3 x.4) ∙ o) in
    let small : value a b c d e ≤ max_bcd =
      omega (arith, x.0.0, x.0.1, x.1.0, x.1.1, x.2.0, x.2.1, x.3.0, x.3.1, x.4.0, x.4.1) in
    let bytes = ap (bcd_bytes 5) (sym v) ∙ encode-value a b c d e l x in
    (omega (arith, v, small), ground (arith, v, small, bytes))

-- A frequency of at most ten digits is encoded in five bytes that decode to it; a higher one is
-- refused.
pub bcd10_decode-encode :
    (hz : ℕ)
    → ((hz ≤ max_bcd) × ((bs : List ℕ) × (bcd10_encode hz ≡ ok bs) × (bcd10_decode bs ≡ ok hz)))
      ⊎ ((max_bcd < hz) × (bcd10_encode hz ≡ err (too_high hz)))
bcd10_decode-encode hz = elim (Bool-cases (leb hz max_bcd)) [
  | inl h ↦ inl (ground arith, (encoded-or-refused hz).0 (ground arith))
  | inr h ↦ inr (ground arith, (encoded-or-refused hz).1 (ground arith))
]

-- Whatever is decoded was five bytes long, is a frequency of at most ten digits, and is encoded in
-- those same bytes: no two byte strings decode to one frequency, and garbage decodes to none.
pub bcd10_encode-decode :
    (bs : List ℕ) (hz : ℕ)
    → All (λ x. x < 256) bs
    → bcd10_decode bs ≡ ok hz
    → (hz ≤ max_bcd) × (bcd10_encode hz ≡ ok bs)
unfolding bcd10_decode
bcd10_encode-decode [] hz l o = absurd (cc)
bcd10_encode-decode (a ∷ []) hz l o = absurd (cc)
bcd10_encode-decode (a ∷ b ∷ []) hz l o = absurd (cc)
bcd10_encode-decode (a ∷ b ∷ c ∷ []) hz l o = absurd (cc)
bcd10_encode-decode (a ∷ b ∷ c ∷ d ∷ []) hz l o = absurd (cc)
bcd10_encode-decode (a ∷ b ∷ c ∷ d ∷ e ∷ []) hz l o = five-accepted a b c d e hz l o
bcd10_encode-decode (a ∷ b ∷ c ∷ d ∷ e ∷ f ∷ bs) hz l o = absurd (ground (arith, o))
