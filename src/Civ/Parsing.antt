-- ===== src/Civ/Parsing.antt =====
-- icom9700-radio-bridge/internal/civ: what the parser makes of the frames of the radio, and
-- what the codec accepts.
use station_a.Base.{
  ℕ, ◌≤◌, ◌<◌, Bool, true, false, String, eq_iff, some, List, [], ◌∷◌, ◌++◌, front, last,
  front-append, last-append, ◌≡◌, ◌↔◌, ◌⊎◌, refl, ap, ◌∙◌, arith, ok,
}
use station_a.Civ.Codec.{band_for_freq, validate_freq}
use station_a.Civ.Frame.{is_reply_end, terminator_frame, parse_body, addressed, parse_frame}

-- What the radio sends: a reply of a command, its data, and an acknowledgement or a rejection.
abbrev pub reply : ℕ → List ℕ → ℕ → List ℕ
reply cmd sub code = 0xFE ∷ 0xFE ∷ 0xE0 ∷ 0xA2 ∷ cmd ∷ ((sub ++ code ∷ []) ++ 0xFD ∷ [])

-- A broadcast or a plain answer: the data and nothing else.
abbrev pub plain : ℕ → ℕ → ℕ → ℕ → List ℕ → List ℕ
plain dest src cmd b bs = 0xFE ∷ 0xFE ∷ dest ∷ src ∷ cmd ∷ ((b ∷ bs) ++ 0xFD ∷ [])

parse-ended :
    (dest src cmd : ℕ) (direct : Bool) (bs : List ℕ)
    → addressed dest src ≡ some direct
    → parse_frame (0xFE ∷ 0xFE ∷ dest ∷ src ∷ cmd ∷ (bs ++ 0xFD ∷ []))
      ≡ ok (parse_body cmd direct bs)
unfolding parse_frame
parse-ended dest src cmd direct [] a = rw (a, parse_frame) (unfold last front in refl)
parse-ended dest src cmd direct (b ∷ bs) a =
    simp a (simp (last-append (b ∷ bs) 0xFD, front-append (b ∷ bs) 0xFD) refl)

body-reply :
    (cmd code : ℕ) (direct : Bool) (sub : List ℕ)
    → is_reply_end code ≡ true
    → parse_body cmd direct (sub ++ code ∷ [])
      ≡ record { cmd = cmd; sub = sub; terminator = code; direct = direct }
unfolding parse_body
body-reply cmd code direct [] e = unfold last front in simp e refl
body-reply cmd code direct (b ∷ bs) e =
    simp (last-append (b ∷ bs) code, front-append (b ∷ bs) code) (simp e refl)

body-plain :
    (cmd b : ℕ) (direct : Bool) (bs : List ℕ)
    → is_reply_end (last (b ∷ bs)) ≡ false
    → parse_body cmd direct (b ∷ bs)
      ≡ record { cmd = cmd; sub = b ∷ bs; terminator = terminator_frame; direct = direct }
unfolding parse_body
body-plain cmd b direct bs e = simp e refl

-- A reply of the radio is read with its command, its whole data and its code, whatever bytes the
-- data holds, end markers included; and so is a broadcast or an answer without a code, unless its
-- data ends like a code.
pub parse_frame_lem :
    (cmd : ℕ) (sub : List ℕ) (code dest src b : ℕ) (bs : List ℕ) (direct : Bool)
    → is_reply_end code ≡ true
    → addressed dest src ≡ some direct
    → is_reply_end (last (b ∷ bs)) ≡ false
    → (parse_frame (reply cmd sub code)
        ≡ ok (record { cmd = cmd; sub = sub; terminator = code; direct = true }))
      × (parse_frame (plain dest src cmd b bs)
          ≡ ok (record { cmd = cmd; sub = b ∷ bs; terminator = terminator_frame; direct = direct }))
parse_frame_lem cmd sub code dest src b bs direct e a f = (
  parse-ended 0xE0 0xA2 cmd true (sub ++ code ∷ []) (unfold addressed in refl)
      ∙ ap (λ x. ok x) (body-reply cmd code true sub e),
  parse-ended dest src cmd direct (b ∷ bs) a ∙ ap (λ x. ok x) (body-plain cmd b direct bs f),
)

abbrev pub Within : ℕ → ℕ → ℕ → Type 0
Within lo hi hz = (lo ≤ hz) × (hz < hi)

-- A frequency is accepted for a VFO exactly if the VFO is one of the two and the frequency
-- lies in a band window that the VFO has: the sub VFO has no 23 cm.
pub validate_freq_iff :
    (vfo : String) (hz : ℕ)
    → (validate_freq vfo hz ≡ ok tt)
      ↔ ((vfo ≡ "main") ⊎ (vfo ≡ "sub"))
        × (Within 140000000 150000000 hz
            ⊎ (Within 420000000 460000000 hz ⊎ ((vfo ≡ "main") × Within 1240000000 1320000000 hz)))
unfolding validate_freq band_for_freq
validate_freq_iff vfo hz = ground (arith, eq_iff vfo "main", eq_iff vfo "sub", eq_iff "main" "sub")
