-- ===== src/AntMode/Reading.antt =====
-- shared/antmode/antmode.go: what a consumer can rely on after reading an antenna-mode payload.
use station_a.AntMode.{
  Mode, normal, storm, maintenance, other, State, Lock, Payload, blank, undecodable, snapshot,
  normal_state, is_valid, locked, label, parse, normal_lock, check_park_az, in_travel,
}
use station_a.Base.{
  Bool, true, false, Option, none, some, ◌≡◌, ◌↔◌, ◌⊎◌, inl, inr, refl, subst, eq_iff, arith,
  Bool-cases, Option-cases, is_some, ok,
}

-- A park azimuth that the rotator can be sent to.
abbrev pub Parkable : Option Lock → Type 0
Parkable none = Unit
Parkable (some l) = (l.park_az ≡ none) ⊎ ((az : _) × (l.park_az ≡ some az) × (in_travel az ≡ true))

abbrev pub Readable : State → Type 0
Readable s =
    (is_valid s.mode ≡ true)
    × (is_some s.lock ≡ locked s)
    × Parkable s.lock
    × ((label s ≡ "") ↔ (locked s ≡ false))

check_park_az-ok : (l : Option Lock) (s t : State) → check_park_az l s ≡ ok t → (s ≡ t) × Parkable l
unfolding check_park_az
check_park_az-ok none s t e = (cc, tt)
check_park_az-ok (some l) s t e = elim (Option-cases l.park_az) [
  | inl n ↦ (ground (arith, e, n), inl n)
  | inr (az, f) ↦ elim (Bool-cases (in_travel az)) [
    | inl g ↦ (ground (arith, e, f, g), inr (az, f, g))
    | inr g ↦ absurd (ground (arith, e, f, g))
  ]
]

named-Readable :
    (m : Mode) (l : Option Lock) (p : Bool)
    → is_valid m ≡ true
    → Parkable (normal_lock m l)
    → Readable (record { mode = m; lock = normal_lock m l; power_hold = p })
unfolding is_valid normal_lock locked label
named-Readable normal l p v k = (refl, refl, tt, (λ e. refl, λ e. refl))
named-Readable storm none p v k =
    (refl, refl, k, (ground (arith, eq_iff "storm" ""), λ e. absurd (cc)))
named-Readable storm (some l) p v k =
    (refl, refl, k, (ground (arith, eq_iff "storm" ""), λ e. absurd (cc)))
named-Readable maintenance none p v k =
    (refl, refl, k, (ground (arith, eq_iff "maintenance" ""), λ e. absurd (cc)))
named-Readable maintenance (some l) p v k =
    (refl, refl, k, (ground (arith, eq_iff "maintenance" ""), λ e. absurd (cc)))
named-Readable (other t) l p v k = absurd (cc)

blank-Readable : Readable normal_state
unfolding is_valid normal_lock
blank-Readable = named-Readable normal none false refl tt

parsed-Readable :
    (s t : State)
    → is_valid s.mode ≡ true
    → check_park_az (normal_lock s.mode s.lock) (record s { lock = normal_lock s.mode s.lock })
      ≡ ok t
    → Readable t
parsed-Readable s t v e =
    let (same, park) = check_park_az-ok _ _ t e in
    subst Readable same (named-Readable s.mode s.lock s.power_hold v park)

-- Whatever payload is accepted, the snapshot read from it names one of the three modes, has a
-- lock exactly if the mode is not normal, parks only within the rotator's travel, and shows a
-- lock label exactly if it is locked.
pub parse-Readable : (p : Payload) (s : State) → parse p ≡ ok s → Readable s
unfolding parse
parse-Readable blank s e = subst Readable (cc) blank-Readable
parse-Readable undecodable s e = absurd (cc)
parse-Readable (snapshot r) s e = elim (Bool-cases (is_valid r.mode)) [
  | inl v ↦ parsed-Readable r s v (simp v at e)
  | inr v ↦ absurd (ground (arith, simp v at e))
]

written-parse :
    (m : Mode) (l : Option Lock) (h : Bool)
    → is_valid m ≡ true
    → is_some l ≡ locked (record { mode = m; lock = l; power_hold = h })
    → Parkable l
    → parse (snapshot (record { mode = m; lock = l; power_hold = h }))
      ≡ ok (record { mode = m; lock = l; power_hold = h })
unfolding parse is_valid normal_lock locked check_park_az
written-parse normal none h v k p = refl
written-parse normal (some l) h v k p = cc
written-parse storm none h v k p = cc
written-parse storm (some l) h v k (inl n) = ground (arith, n)
written-parse storm (some l) h v k (inr (az, f, g)) = ground (arith, f, g)
written-parse maintenance none h v k p = cc
written-parse maintenance (some l) h v k (inl n) = ground (arith, n)
written-parse maintenance (some l) h v k (inr (az, f, g)) = ground (arith, f, g)
written-parse (other t) l h v k p = cc

-- A readable snapshot is read as it is.
pub Readable-parse :
    (s : State)
    → is_valid s.mode ≡ true
    → is_some s.lock ≡ locked s
    → Parkable s.lock
    → parse (snapshot s) ≡ ok s
Readable-parse s v k p = written-parse s.mode s.lock s.power_hold v k p
