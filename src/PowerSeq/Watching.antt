-- ===== src/PowerSeq/Watching.antt =====
-- powerseq/internal/seq/seq.go: which changes of a watched field count as activity.
use station_a.Base.{
  ℕ, String, Bool, true, false, not, ◌&&◌, some, List, [], ◌∷◌, ◌≡◌, ◌≢◌, ◌⊎◌, inl, inr, refl,
  arith, eq_iff, ◌≤◌, str_eq, Bool-cases,
}
use station_a.PowerSeq.Types.{running, standby, Runtime, Doc, ResolvedWatch, Sequencer}
use station_a.PowerSeq.Inputs.{
  field_of, coerce_to_string, watch_moved, counted_phase, settled, note_watch, note_loop,
  note_watches, set_state,
}

-- The watch counts this document: another real value, moved by at least its deadband.
pub record Counts ⦃rt : Runtime⦄ (slot : String) (m : Doc) (w : ResolvedWatch) : Type 0 where
  pub here : w.slot ≡ slot
  pub baseline : w.anchor ≢ ""
  pub value : coerce_to_string (field_of m w.field) ≢ ""
  pub moved : watch_moved w.anchor (coerce_to_string (field_of m w.field)) w.min_delta ≡ true

-- Some watch of the list has the property.
abbrev pub Some : (ResolvedWatch → Type 0) → List ResolvedWatch → Type 0
Some P [] = ⊥
Some P (w ∷ ws) = P w ⊎ Some P ws

module _ ⦃rt : Runtime⦄ where
  note_watch-Counts :
      (fit calm : Bool) (slot : String) (m : Doc) (w : ResolvedWatch)
      → (note_watch fit calm slot m w).1 ≡ true
      → (fit ≡ true) × (calm ≡ true) × Counts slot m w
  unfolding note_watch
  note_watch-Counts fit calm slot m w h = ground (
    arith,
    eq_iff w.slot slot,
    eq_iff w.anchor "",
    eq_iff (coerce_to_string (field_of m w.field)) "",
  )

  Counts-note_watch :
      (slot : String) (m : Doc) (w : ResolvedWatch)
      → Counts slot m w
      → (note_watch true true slot m w).1 ≡ true
  unfolding note_watch
  Counts-note_watch slot m w h = ground (
    arith,
    eq_iff w.slot slot,
    eq_iff w.anchor "",
    eq_iff (coerce_to_string (field_of m w.field)) "",
  )

  module _ (fit calm : Bool) (slot : String) (m : Doc) (now : ℕ) where
    abbrev Counted : ResolvedWatch → Type 0
    Counted w = (note_watch fit calm slot m w).1 ≡ true

    -- The loop stamps the time if a watch counted, and leaves it otherwise.
    note_loop-either :
        (ws : List ResolvedWatch) (last : ℕ) (reason : String)
        → let t = (note_loop fit calm slot m now ws last reason).1 in
          (t ≡ last) ⊎ ((t ≡ now) × Some Counted ws)
    unfolding note_loop
    note_loop-either [] last reason = inl refl
    note_loop-either (w ∷ ws) last reason = elim (Bool-cases (note_watch fit calm slot m w).1) [
      | inl c ↦
          simp (c, note_loop)
            (elim (note_loop-either ws now _) [
              | inl e ↦ inr (e, inl refl)
              | inr (e, later) ↦ inr (e, inr later)
            ])
      | inr n ↦
          simp (n, note_loop)
            (elim (note_loop-either ws last reason) [
              | inl e ↦ inl e
              | inr (e, later) ↦ inr (e, inr later)
            ])
    ]

    note_loop-Counted :
        (ws : List ResolvedWatch) (last : ℕ) (reason : String)
        → Some Counted ws
        → (note_loop fit calm slot m now ws last reason).1 ≡ now
    unfolding note_loop
    note_loop-Counted [] last reason h = absurd h
    note_loop-Counted (w ∷ ws) last reason h = elim (Bool-cases (note_watch fit calm slot m w).1) [
      | inl c ↦
          simp (c, note_loop) (elim (note_loop-either ws now _) [ inl e ↦ e | inr (e, later) ↦ e ])
      | inr n ↦
          simp (n, note_loop)
            (note_loop-Counted ws last reason (elim h [ inl c ↦ absurd (cc) | inr later ↦ later ]))
    ]

-- Changes count now: the station runs or stands by, the settle window is past, no hold is on.
pub record IsSettled (s : Sequencer) : Type 0 where
  pub phase : (s.phase ≡ running) ⊎ (s.phase ≡ standby)
  pub past : s.settle_until ≤ s.world.now
  pub not_held : s.power_hold ≡ false

module _ (s : Sequencer) where
  settled-IsSettled : settled s ≡ true → IsSettled s
  unfolding settled counted_phase
  settled-IsSettled h = ground arith

  IsSettled-settled : IsSettled s → settled s ≡ true
  unfolding settled counted_phase
  IsSettled-settled h = ground arith

module _ ⦃rt : Runtime⦄ (slot : String) (m : Doc) (s : Sequencer) where
  abbrev fit : Bool
  fit =
      str_eq (s.status slot) "online"
      && not (str_eq (coerce_to_string (field_of m "device_online")) "false")

  -- The slot that reports is online and does not report its device offline.
  pub record IsFit : Type 0 where
    pub bridge : s.status slot ≡ "online"
    pub device : coerce_to_string (field_of m "device_online") ≢ "false"

  fit-IsFit : fit ≡ true → IsFit
  fit-IsFit h = ground (
    arith,
    eq_iff (s.status slot) "online",
    eq_iff (coerce_to_string (field_of m "device_online")) "false",
  )

  IsFit-fit : IsFit → fit ≡ true
  IsFit-fit h = ground (
    arith,
    eq_iff (s.status slot) "online",
    eq_iff (coerce_to_string (field_of m "device_online")) "false",
  )

  Some-first :
      (f c : Bool) (ws : List ResolvedWatch)
      → Some (λ w. (note_watch f c slot m w).1 ≡ true) ws
      → (f ≡ true) × (c ≡ true) × Some (Counts slot m) ws
  Some-first f c [] h = absurd h
  Some-first f c (w ∷ ws) (inl h) =
      let (a, b, k) = note_watch-Counts f c slot m w h in (a, b, inl k)
  Some-first f c (w ∷ ws) (inr h) = let (a, b, k) = Some-first f c ws h in (a, b, inr k)

  Some-back :
      (f c : Bool) (ws : List ResolvedWatch)
      → f ≡ true
      → c ≡ true
      → Some (Counts slot m) ws
      → Some (λ w. (note_watch f c slot m w).1 ≡ true) ws
  Some-back f c [] p q h = absurd h
  Some-back f c (w ∷ ws) p q (inl h) = inl (rw (p, q) (Counts-note_watch slot m w h))
  Some-back f c (w ∷ ws) p q (inr h) = inr (Some-back f c ws p q h)

  -- A /state document stamps a counted watch change exactly when the changes count now, the slot
  -- is fit, and some watch on it moved by its deadband from a real value to another. The clock of
  -- the last watch change is the present time then, and left as it was in every other case.
  pub set_state-last_watch :
      (IsSettled s
        → IsFit
        → Some (Counts slot m) s.watches
        → (set_state slot (some m) s).last_watch ≡ s.world.now)
      × (((set_state slot (some m) s).last_watch ≡ s.last_watch)
          ⊎ (((set_state slot (some m) s).last_watch ≡ s.world.now)
              × IsSettled s
              × IsFit
              × Some (Counts slot m) s.watches))
  unfolding set_state note_watches settled
  set_state-last_watch = (
    λ a b c.
        note_loop-Counted fit (settled s) slot m s.world.now s.watches s.last_watch s.last_watch_why
          (Some-back fit (settled s) s.watches (IsFit-fit b) (IsSettled-settled s a) c),
    elim (note_loop-either fit (settled s) slot m s.world.now s.watches s.last_watch
        s.last_watch_why) [
          | inl e ↦ inl e
          | inr (e, k) ↦
              let (a, b, c) = Some-first fit (settled s) s.watches k in
              inr (e, settled-IsSettled s b, fit-IsFit a, c)
        ],
  )
