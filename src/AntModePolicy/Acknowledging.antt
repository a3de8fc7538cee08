-- ===== src/AntModePolicy/Acknowledging.antt =====
-- antmode/internal/policy/policy.go: the sets of warning ids, and what an acknowledgement is worth.
use station_a.Base.{
  String, Bool, true, false, List, [], ◌∷◌, All, ◌≡◌, inl, inr, subst, eq_iff, eq_refl, Bool-cases,
  precedes, str_eq, if◌then◌else◌,
}
use station_a.AntModePolicy.TextOrder.{
  Below-refl, Below-trans, precedes-Below, Below-precedes, Below-antisym,
}
use station_a.AntModePolicy.Types.{Warning, contains, insert, acknowledge}
use station_a.AntModePolicy.Deciding.{Unacked}

precedes_refl : (v : String) → precedes v v ≡ true
precedes_refl v = Below-precedes v v (Below-refl v)

pub both_ways : {b : Bool} → b ≡ true → b ≡ false → ⊥
both_ways e f = cc

contains-insert : (s : List String) (v : String) → contains (insert s v) v ≡ true
unfolding contains insert
contains-insert [] v = simp (precedes_refl v) (eq_refl v)
contains-insert (x ∷ xs) v = elim (Bool-cases (precedes v x)) [
  | inl p ↦ simp (p, precedes_refl v) (eq_refl v)
  | inr p ↦ simp p (contains-insert xs v)
]

-- A text between one and the same text is that text.
squeezed :
    (w v x : String)
    → precedes w v ≡ true
    → precedes v x ≡ true
    → str_eq x w ≡ true
    → str_eq v w ≡ true
squeezed w v x a b e =
    let same : x ≡ w = (eq_iff x w).0 e in
    Below-antisym v w (precedes-Below v w (subst (λ y. precedes v y ≡ true) same b))
      (precedes-Below w v a)

insert-keeps :
    (s : List String) (v w : String) → contains s w ≡ true → contains (insert s v) w ≡ true
unfolding contains insert
insert-keeps [] v w h = absurd (cc)
insert-keeps (x ∷ xs) v w h = elim (Bool-cases (precedes v x)) [
  | inl p ↦ elim (Bool-cases (precedes w v)) [
    | inl q ↦
        let r =
          Below-precedes w x (Below-trans w v x (precedes-Below w v q) (precedes-Below v x p)) in
        let same : str_eq x w ≡ true = simp r at h in
        let found = squeezed w v x q p same in simp (p, q) found
    | inr q ↦ simp (p, q) h
  ]
  | inr p ↦ elim (Bool-cases (precedes w x)) [
    | inl q ↦ simp (p, q) (simp q at h)
    | inr q ↦ simp (p, q) (insert-keeps xs v w (simp q at h))
  ]
]

joined-keeps :
    (s : List String) (v w : String)
    → contains s w ≡ true
    → contains (if contains s v then s else insert s v) w ≡ true
joined-keeps s v w h = elim (Bool-cases (contains s v)) [
  | inl e ↦ simp e h
  | inr e ↦ simp e (insert-keeps s v w h)
]

joined : (s : List String) (v : String) → contains (if contains s v then s else insert s v) v ≡ true
joined s v = elim (Bool-cases (contains s v)) [
  | inl e ↦ rw e e
  | inr e ↦ simp e (contains-insert s v)
]

acknowledge-keeps :
    (ws : List Warning) (s : List String) (v : String)
    → contains s v ≡ true
    → contains (acknowledge ws s) v ≡ true
unfolding acknowledge
acknowledge-keeps [] s v h = h
acknowledge-keeps (w ∷ ws) s v h = acknowledge-keeps ws _ v (joined-keeps s w.id v h)

pub acknowledged :
    (ws : List Warning) (s : List String) → All (λ w. contains (acknowledge ws s) w.id ≡ true) ws
unfolding acknowledge
acknowledged [] s = tt
acknowledged (w ∷ ws) s = (acknowledge-keeps ws _ w.id (joined s w.id), acknowledged ws _)

pub not-Unacked :
    (ws : List Warning) (s : List String) → All (λ w. contains s w.id ≡ true) ws → ¬ Unacked ws s
not-Unacked [] s a u = u
not-Unacked (w ∷ ws) s a (inl u) = both_ways a.0 u
not-Unacked (w ∷ ws) s a (inr u) = not-Unacked ws s a.1 u
