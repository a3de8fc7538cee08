-- ===== src/UltraBridge/Reading.antt =====
-- ultrabridge/internal/ub/protocol/packet.go: what is sent is what is read.
use mathlib.Core.List.{append_assoc, append-nil}
use mathlib.Core.Path.{◌≡⟨◌⟩◌, ◌∎}
use station_a.Base.{
  ℕ, ◌==◌, front-append, last-append, ltb, length-append, true, false, List, [], ◌∷◌, ◌++◌, length,
  ◌≡◌, ◌≢◌, ◌⊎◌, inl, inr, refl, ap, ◌∙◌, arith, Bool-cases, All, Result, ok,
}
use station_a.UltraBridge.Packet.{
  stx, dle, etx, Packet, PacketError, checksum, quoted, quote, fields, summed, encode_packet,
  decode_decoded, unquote, decode_framed, Reader, waiting, Fed, complete, more, feed, answer,
  read_from, read_one_packet,
}

eqb_refl : (n : ℕ) → n == n ≡ true
eqb_refl n = ground arith

summed_long : (p : Packet) → ltb (length (summed p)) 3 ≡ false
unfolding summed
summed_long p = ground (arith, length-append p.payload (checksum (fields p) ∷ []))

decode-summed : (p : Packet) → decode_decoded (summed p) ≡ ok p
unfolding decode_decoded
decode-summed p = simp (summed_long p) (
    unfold summed in
    simp
      (front-append (fields p) (checksum (fields p)), last-append (fields p) (checksum (fields p)))
      (simp (eqb_refl (checksum (fields p))) refl))

-- A byte is one of the three quoted ones, or none of them.
byte-cases :
    (b : ℕ)
    → ((b ≡ stx) ⊎ ((b ≡ etx) ⊎ (b ≡ dle)))
      ⊎ ((b == stx ≡ false) × (b == etx ≡ false) × (b == dle ≡ false))
byte-cases b = elim (Bool-cases (b == stx)) [
  | inl e ↦ inl (inl (ground (arith, e)))
  | inr e ↦ elim (Bool-cases (b == etx)) [
    | inl f ↦ inl (inr (inl (ground (arith, f))))
    | inr f ↦ elim (Bool-cases (b == dle)) [
      | inl g ↦ inl (inr (inr (ground (arith, g))))
      | inr g ↦ inr (e, f, g)
    ]
  ]
]

-- One quoted byte inside a packet is one decoded byte.
abbrev inside : List ℕ → Reader
inside acc = record { in_packet = true; escaped = false; decoded = acc }

read_step :
    (b : ℕ) (bs : List ℕ) (r s : Reader) → feed b r ≡ more s → read_from r (b ∷ bs) ≡ read_from s bs
unfolding read_from
read_step b bs r s e = rw (e, read_from) refl

read-quoted :
    (b : ℕ) (rest acc : List ℕ)
    → read_from (inside acc) (quoted b ++ rest) ≡ read_from (inside (acc ++ b ∷ [])) rest
unfolding quoted
read-quoted b rest acc = elim (byte-cases b) [
  | inl (inl e) ↦ rw e (unfold read_from feed in refl)
  | inl (inr (inl e)) ↦ rw e (unfold read_from feed in refl)
  | inl (inr (inr e)) ↦ rw e (unfold read_from feed in refl)
  | inr (e, f, g) ↦
      simp (e, f, g)
        (read_step b rest (inside acc) (inside (acc ++ b ∷ []))
          (unfold feed in simp (e, f, g) refl))
]

read-quote :
    (bs rest acc : List ℕ)
    → read_from (inside acc) (quote bs ++ rest) ≡ read_from (inside (acc ++ bs)) rest
unfolding quote
read-quote [] rest acc = simp append-nil refl
read-quote (b ∷ bs) rest acc =
    read_from (inside acc) ((quoted b ++ quote bs) ++ rest)
    ≡⟨ ap (read_from (inside acc)) (append_assoc (quoted b) (quote bs) rest) ⟩
      read_from (inside acc) (quoted b ++ (quote bs ++ rest))
    ≡⟨ read-quoted b (quote bs ++ rest) acc ⟩ read_from (inside (acc ++ b ∷ [])) (quote bs ++ rest)
    ≡⟨ read-quote bs rest (acc ++ b ∷ []) ⟩ read_from (inside ((acc ++ b ∷ []) ++ bs)) rest
    ≡⟨ ap (λ xs. read_from (inside xs) rest) (append_assoc acc (b ∷ []) bs) ⟩
      read_from (inside (acc ++ b ∷ bs)) rest ∎

-- Bytes that end no packet.
abbrev pub Noise : List ℕ → Type 0
Noise = All (λ b. b ≢ etx)

read-start : (r : Reader) (bs : List ℕ) → read_from r (stx ∷ bs) ≡ read_from (inside []) bs
unfolding read_from feed
read-start r bs = refl

Fed-cases :
    (x : Fed) → ((y : Result PacketError Packet) × (x ≡ complete y)) ⊎ ((s : Reader) × (x ≡ more s))
Fed-cases (complete y) = inl (y, refl)
Fed-cases (more s) = inr (s, refl)

feed-complete :
    (b : ℕ) (r : Reader) (y : Result PacketError Packet) → feed b r ≡ complete y → b ≡ etx
unfolding feed
feed-complete b r y e = ground (arith, e)

feed-more : (b : ℕ) (r : Reader) → b ≢ etx → (s : Reader) × (feed b r ≡ more s)
feed-more b r n = elim (Fed-cases (feed b r)) [
  | inl (y, e) ↦ absurd (n (feed-complete b r y e))
  | inr more_left ↦ more_left
]

read-Noise :
    (noise : List ℕ) (r : Reader) (bs : List ℕ)
    → Noise noise
    → read_from r (noise ++ stx ∷ bs) ≡ read_from (inside []) bs
read-Noise [] r bs n = read-start r bs
read-Noise (b ∷ noise) r bs n =
    let (r', e) = feed-more b r n.0 in
    read_step b (noise ++ stx ∷ bs) r r' e ∙ read-Noise noise r' bs n.1

unquote-quoted : (b : ℕ) (rest : List ℕ) → unquote false (quoted b ++ rest) ≡ b ∷ unquote false rest
unfolding unquote quoted
unquote-quoted b rest = elim (byte-cases b) [
  | inl (inl e) ↦ rw e refl
  | inl (inr (inl e)) ↦ rw e refl
  | inl (inr (inr e)) ↦ rw e refl
  | inr (e, f, g) ↦ simp (e, f, g) refl
]

unquote-quote : (bs : List ℕ) → unquote false (quote bs) ≡ bs
unfolding quote
unquote-quote [] = unfold unquote in refl
unquote-quote (b ∷ bs) = unquote-quoted b (quote bs) ∙ ap (λ xs. b ∷ xs) (unquote-quote bs)

read-end : (bs rest : List ℕ) → read_from (inside bs) (etx ∷ rest) ≡ answer (decode_decoded bs) rest
unfolding read_from feed
read-end bs rest = refl

-- Whatever bytes were left on the line, as long as they end no packet, the next packet that is sent
-- is read as it was sent, and the bytes after it are left for the next call. The decoder of whole
-- frames agrees.
pub read_one_packet-encode_packet :
    (noise : List ℕ) (p : Packet) (rest : List ℕ)
    → Noise noise
    → (read_one_packet (noise ++ (encode_packet p ++ rest)) ≡ answer (ok p) rest)
      × (decode_framed (quote (summed p)) ≡ ok p)
unfolding read_one_packet encode_packet decode_framed
read_one_packet-encode_packet noise p rest n = (
  read-Noise noise waiting (((quote (summed p)) ++ etx ∷ []) ++ rest) n
      ∙ ap (read_from (inside [])) (append_assoc (quote (summed p)) (etx ∷ []) rest)
      ∙ read-quote (summed p) (etx ∷ rest) []
      ∙ read-end (summed p) rest
      ∙ ap (λ x. answer x rest) (decode-summed p),
  ap decode_decoded (unquote-quote (summed p)) ∙ decode-summed p,
)
