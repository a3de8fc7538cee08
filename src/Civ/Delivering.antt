-- ===== src/Civ/Delivering.antt =====
-- icom9700-radio-bridge/internal/civ/seq.go: when a received packet is delivered.
use station_a.Base.{
  ℕ, ◌+◌, ◌%◌, true, false, none, some, List, [], ◌∷◌, ◌++◌, ◌≡◌, ◌⊎◌, inl, inr, refl, ap, sym, ◌∙◌,
  arith, Bool-cases,
}
use station_a.Civ.Buffer.{
  is_larger, seq_compare, Entry, RxBuf, Radio, got_range, oldest, delivered, lasted, timed_out,
  is_skipped, deliver, next_unlocked, next_locked, next_of, next,
}

-- Why an entry may be delivered: it is the first; the lock is over, since all that was asked
-- for has come or it has lasted; or it is newer than the last one, and the one after it or of
-- a gap given up.
abbrev pub May : ℕ → Entry → RxBuf → Type 0
May now e b =
    (b.returned_first ≡ false)
    ⊎ (((b.locked ≡ true) × (((b.requested ≡ true) × (got_range b ≡ true)) ⊎ (lasted now b ≡ true)))
        ⊎ ((b.locked ≡ false)
            × (is_larger (seq_compare e.seq b.last_returned) ≡ true)
            × ((e.seq ≡ (b.last_returned + 1) % 65536) ⊎ (is_skipped b.ignore_until e.seq ≡ true))))

oldest-cases :
    (es : List Entry)
    → ((es ≡ []) × (oldest es ≡ none))
      ⊎ ((rest : List Entry) × ((e : Entry) × (oldest es ≡ some (rest, e)) × (es ≡ rest ++ e ∷ [])))
unfolding oldest
oldest-cases [] = inl (refl, refl)
oldest-cases (x ∷ xs) = elim (oldest-cases xs) [
  | inl (a, n) ↦ inr ([], (x, rw n refl, ap (λ l. x ∷ l) a))
  | inr (r, (e, h, a)) ↦ inr (x ∷ r, (e, rw h refl, ap (λ l. x ∷ l) a))
]

module _ ⦃radio : Radio⦄ where
  next_locked-May :
      (now : ℕ) (rest : List Entry) (e f : Entry) (b c : RxBuf)
      → b.locked ≡ true
      → next_locked now f rest b ≡ (delivered e, c)
      → (e ≡ f) × May now e b × (c.entries ≡ rest) × (c.last_returned ≡ e.seq)
  unfolding next_locked deliver timed_out
  next_locked-May now rest e f b c l h = (ground arith, ground arith, ground arith, ground arith)

  next_unlocked-May :
      (now : ℕ) (rest : List Entry) (e f : Entry) (b c : RxBuf)
      → b.locked ≡ false
      → next_unlocked now f rest b ≡ (delivered e, c)
      → (e ≡ f) × May now e b × (c.entries ≡ rest) × (c.last_returned ≡ e.seq)
  unfolding next_unlocked deliver
  next_unlocked-May now rest e f b c l h = (ground arith, ground arith, ground arith, ground arith)

  next_of-May :
      (now : ℕ) (rest : List Entry) (e f : Entry) (b c : RxBuf)
      → next_of now (some (rest, f)) b ≡ (delivered e, c)
      → (e ≡ f) × May now e b × (c.entries ≡ rest) × (c.last_returned ≡ e.seq)
  unfolding next_of deliver
  next_of-May now rest e f b c h = elim (Bool-cases b.returned_first) [
    | inr r ↦ (ground arith, inl r, ground arith, ground arith)
    | inl r ↦ elim (Bool-cases b.locked) [
      | inl l ↦ next_locked-May now rest e f b c l (ground arith)
      | inr l ↦ next_unlocked-May now rest e f b c l (ground arith)
    ]
  ]

  -- An entry that is delivered was the oldest and leaves the buffer, and is the first one
  -- ever, or the lock is over (all that was asked for has come, or it has lasted), or it is
  -- newer than the last one and is the one after it or lies in a gap that was given up.
  pub next-May :
      (now : ℕ) (e : Entry) (b c : RxBuf)
      → next now b ≡ (delivered e, c)
      → May now e b × (b.entries ≡ c.entries ++ e ∷ []) × (c.last_returned ≡ e.seq)
  unfolding next next_of
  next-May now e b c h = elim (oldest-cases b.entries) [
    | inl (a, n) ↦
        let k : next_of now none b ≡ (delivered e, c) = ap (λ p. next_of now p b) (sym n) ∙ h in
        (ground arith, ground arith, ground arith)
    | inr (rest, (f, o, a)) ↦
        let (same, may, left, last) =
          next_of-May now rest e f b c (ap (λ p. next_of now p b) (sym o) ∙ h) in
        let gone = ap (λ r. r ++ f ∷ []) (sym left) ∙ ap (λ x. c.entries ++ x ∷ []) (sym same) in
        (may, a ∙ gone, last)
  ]
