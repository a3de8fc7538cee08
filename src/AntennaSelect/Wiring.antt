-- ===== src/AntennaSelect/Wiring.antt =====
-- antennaselect/internal/reconcile/reconcile.go and internal/config/config.go: which port the band
-- policy picks from the wiring.
use station_a.Base.{
  String, true, Option, none, some, List, [], ◌∷◌, ◌≡◌, ◌≢◌, ◌⊎◌, inl, inr, refl, arith, eq_iff,
  Bool-cases, Option-cases, str_eq, update,
}
use station_a.AntennaSelect.Ladder.{text-is, text-not}
use station_a.AntennaSelect.{Config, Reconciler, resource_ports, new, serves, scan, port_for_band}

module _ (r : Reconciler) (band : String) where
  -- A resource that serves the band and is wired to the port.
  abbrev pub Offers : String → String → Type 0
  Offers resource port = (serves r band resource ≡ true) × (r.resource_to_port resource ≡ some port)

  abbrev pub Useless : String → Type 0
  Useless resource = (port : String) → ¬ Offers resource port

  -- The scan of a list of resources: the first that serves the band and is wired, or none.
  pub data Scanned : List String → Option String → Type 0 where
    exhausted : Scanned [] none
    offered :
        {resource port : String} {rs : List String}
        → Offers resource port
        → Scanned (resource ∷ rs) (some port)
    passed :
        {resource : String} {rs : List String} {found : Option String}
        → Useless resource
        → Scanned rs found
        → Scanned (resource ∷ rs) found

  scan-Scanned : (rs : List String) → Scanned rs (scan r band rs)
  unfolding scan
  scan-Scanned [] = exhausted
  scan-Scanned (resource ∷ rs) = elim (Bool-cases (serves r band resource)) [
    | inl s ↦ elim (Option-cases (r.resource_to_port resource)) [
      | inl n ↦ simp (s, n) (passed (λ port o. ground (arith, o.1, n)) (scan-Scanned rs))
      | inr (port, e) ↦ simp (s, e) (offered (s, e))
    ]
    | inr s ↦ simp s (passed (λ port o. ground (arith, o.0, s)) (scan-Scanned rs))
  ]

  -- The port of a band is that of the first resource of the policy that serves the band and is
  -- wired; only if there is none, or no band, it is the port of the fallback resource.
  pub port_for_band-Scanned :
      ((port : String) × (band ≢ "")
        × Scanned r.policy_resources (some port)
        × (port_for_band r band ≡ some port))
      ⊎ (band ≡ "" ⊎ Scanned r.policy_resources none)
        × (port_for_band r band ≡ r.resource_to_port r.config.fallback)
  unfolding port_for_band
  port_for_band-Scanned = elim (Bool-cases (str_eq band "")) [
    | inl e ↦ inr (inl (text-is _ _ e), simp (e, port_for_band) refl)
    | inr e ↦ elim (Option-cases (scan r band r.policy_resources)) [
      | inl n ↦
          inr (inr (rw n at (scan-Scanned r.policy_resources)), simp (e, n, port_for_band) refl)
      | inr (port, f) ↦ inl (
        port,
        text-not _ _ e,
        rw f at (scan-Scanned r.policy_resources),
        simp (e, f, port_for_band) refl,
      )
    ]
  ]

-- The wiring map as a list: `(port, resource)` is one of its members.
abbrev pub Wired : List (String × String) → String → String → Type 0
Wired [] resource port = ⊥
Wired ((p, q) ∷ wiring) resource port = ((p ≡ port) × (q ≡ resource)) ⊎ Wired wiring resource port

resource_ports-Wired :
    (wiring : List (String × String)) (out : String → Option String) (resource port : String)
    → resource_ports wiring out resource ≡ some port
    → (out resource ≡ some port) ⊎ ((port ≢ "off") × Wired wiring resource port)
unfolding resource_ports
resource_ports-Wired [] out resource port e = inl e
resource_ports-Wired ((p, q) ∷ wiring) out resource port e = elim (Bool-cases (str_eq p "off")) [
  | inl o ↦ elim (resource_ports-Wired wiring out resource port (simp o at e)) [
    | inl h ↦ inl h
    | inr (n, h) ↦ inr (n, inr h)
  ]
  | inr o ↦ elim (resource_ports-Wired wiring (update out q (some p)) resource port (simp o at e)) [
    | inl h ↦ ground (arith, h, eq_iff p "off", eq_iff q resource)
    | inr (n, h) ↦ inr (n, inr h)
  ]
]

-- Whatever port the wiring map gives a resource is wired to that resource in the configuration,
-- and is never the grounded port.
pub new-Wired :
    (c : Config) (resource port : String)
    → (new c).resource_to_port resource ≡ some port
    → (port ≢ "off") × Wired c.wiring_map resource port
unfolding new
new-Wired c resource port e = elim (resource_ports-Wired c.wiring_map (λ r. none) resource port e) [
  | inl h ↦ ground (arith, h)
  | inr h ↦ h
]
