-- ===== src/PowerSeq/Configuring.antt =====
-- powerseq/internal/seq/seq.go: which step lists `resolve` accepts, and what it makes of them.
use station_a.Base.{
  ℕ, ◌*◌, String, Option, none, some, List, [], ◌∷◌, map, ◌≡◌, ◌≢◌, ◌⊎◌, inl, inr, refl, arith,
  eq_iff, Result, ok, err, ◌>>=◌,
}
use station_a.PowerSeq.Types.{
  Runtime, Kind, cmd, wait_status, wait_state, delay, wol, other_kind, Step, Config, ResolvedStep,
}
use station_a.PowerSeq.Resolve.{
  StepError, own_state, bad_mac, unknown_duration, ConfigError, bad_step, second, at_site,
  plain_step, resolve_delay, resolve_wol, resolve_kind, resolve_step, in_list, resolve,
}

-- How long a delay lasts: its seconds if they are given, else what its name stands for.
abbrev pub Lasts : Config → Step → ℕ → Type 0
Lasts c st d =
    ((n : ℕ) × ((st.duration_s ≡ some n) × (d ≡ n * second)))
    ⊎ ((st.duration_s ≡ none)
        × (((st.duration ≡ "network") × (d ≡ c.network_delay))
            ⊎ ((st.duration ≡ "stagger") × (d ≡ c.shutdown_stagger))))

module _ ⦃rt : Runtime⦄ where
  -- What the kind of a step adds to the resolved one. A command and a wait address their slot at
  -- the site, and a wait on a /state is not on the sequencer's own.
  abbrev pub Addressed : Kind → Config → String → Step → ResolvedStep → Type 0
  Addressed cmd c self st r = r.slot ≡ at_site c.site st.slot
  Addressed wait_state c self st r = (r.slot ≡ at_site c.site st.slot) × (r.slot ≢ self)
  Addressed wait_status c self st r = r.slots ≡ map (at_site c.site) st.slots
  Addressed delay c self st r = Lasts c st r.duration
  Addressed wol c self st r = rt.parse_mac st.mac ≡ some r.mac
  Addressed (other_kind k) c self st r = Unit

  abbrev pub Resolves : Config → String → Step → ResolvedStep → Type 0
  Resolves c self st r =
      (r.name ≡ st.name)
      × (r.kind ≡ st.kind)
      × (r.action ≡ st.action)
      × (r.value ≡ st.value)
      × (r.field ≡ st.field)
      × Addressed st.kind c self st r

  -- What is wrong with a step: a wait on the own /state, a delay of an unknown name and without
  -- seconds, a wake-up of an address that cannot be read.
  abbrev pub Bad : Kind → Config → String → Step → StepError → Type 0
  Bad wait_state c self st e = (e ≡ own_state) × (at_site c.site st.slot ≡ self)
  Bad delay c self st e =
      (e ≡ unknown_duration st.duration)
      × (st.duration_s ≡ none)
      × (st.duration ≢ "network")
      × (st.duration ≢ "stagger")
  Bad wol c self st e = (e ≡ bad_mac) × (rt.parse_mac st.mac ≡ none)
  Bad k c self st e = ⊥

  -- The resolved steps are those of the configuration, one for one and in order.
  abbrev pub ResolvesAll : Config → String → List Step → List ResolvedStep → Type 0
  ResolvesAll c self [] [] = Unit
  ResolvesAll c self (st ∷ steps) (r ∷ rs) = Resolves c self st r × ResolvesAll c self steps rs
  ResolvesAll c self steps rs = ⊥

  -- The error names the list and its first bad step.
  abbrev pub Refused : Config → String → String → List Step → ConfigError → Type 0
  Refused c self list [] e = ⊥
  Refused c self list (st ∷ steps) e =
      ((why : StepError) × ((e ≡ bad_step list st.name why) × Bad st.kind c self st why))
      ⊎ (((r : ResolvedStep) × Resolves c self st r) × Refused c self list steps e)

  abbrev pub Checked :
      Config → String → String → List Step → Result ConfigError (List ResolvedStep) → Type 0
  Checked c self list steps (ok rs) = ResolvesAll c self steps rs
  Checked c self list steps (err e) = Refused c self list steps e

  resolve_delay-Lasts : (st : Step) (c : Config) (d : ℕ) → resolve_delay st c ≡ ok d → Lasts c st d
  unfolding resolve_delay
  resolve_delay-Lasts st c d h =
      ground (arith, eq_iff st.duration "network", eq_iff st.duration "stagger")

  resolve_wol-Addressed :
      (c : Config) (self : String) (st : Step) (p r : ResolvedStep) (o : Option (List ℕ))
      → rt.parse_mac st.mac ≡ o
      → resolve_wol st p o ≡ ok r
      → (r.name ≡ p.name)
        × (r.kind ≡ p.kind)
        × (r.action ≡ p.action)
        × (r.value ≡ p.value)
        × (r.field ≡ p.field)
        × Addressed wol c self st r
  unfolding resolve_wol
  resolve_wol-Addressed c self st p r none e h = absurd (cc)
  resolve_wol-Addressed c self st p r (some mac) e h = ground arith

  delayed-Addressed :
      (c : Config) (self : String) (st : Step) (p r : ResolvedStep) (o : Result StepError ℕ)
      → resolve_delay st c ≡ o
      → (o >>= λ d. ok (record p { duration = d })) ≡ ok r
      → (r.name ≡ p.name)
        × (r.kind ≡ p.kind)
        × (r.action ≡ p.action)
        × (r.value ≡ p.value)
        × (r.field ≡ p.field)
        × Addressed delay c self st r
  delayed-Addressed c self st p r (err x) e h = absurd (cc)
  delayed-Addressed c self st p r (ok d) e h = let l = resolve_delay-Lasts st c d e in ground arith

  resolve_kind-Addressed :
      (k : Kind) (c : Config) (self : String) (st : Step) (p r : ResolvedStep)
      → resolve_kind k c self st p ≡ ok r
      → (r.name ≡ p.name)
        × (r.kind ≡ p.kind)
        × (r.action ≡ p.action)
        × (r.value ≡ p.value)
        × (r.field ≡ p.field)
        × Addressed k c self st r
  unfolding resolve_kind
  resolve_kind-Addressed cmd c self st p r h = ground arith
  resolve_kind-Addressed wait_state c self st p r h =
      ground (arith, eq_iff (at_site c.site st.slot) self)
  resolve_kind-Addressed wait_status c self st p r h = ground arith
  resolve_kind-Addressed delay c self st p r h =
      delayed-Addressed c self st p r (resolve_delay st c) refl h
  resolve_kind-Addressed wol c self st p r h =
      resolve_wol-Addressed c self st p r (rt.parse_mac st.mac) refl h
  resolve_kind-Addressed (other_kind k) c self st p r h = ground arith

  resolve_kind-Bad :
      (k : Kind) (c : Config) (self : String) (st : Step) (p : ResolvedStep) (e : StepError)
      → resolve_kind k c self st p ≡ err e
      → Bad k c self st e
  unfolding resolve_kind resolve_wol resolve_delay
  resolve_kind-Bad cmd c self st p e h = absurd (cc)
  resolve_kind-Bad wait_state c self st p e h = ground (arith, eq_iff (at_site c.site st.slot) self)
  resolve_kind-Bad wait_status c self st p e h = absurd (cc)
  resolve_kind-Bad delay c self st p e h =
      ground (arith, eq_iff st.duration "network", eq_iff st.duration "stagger")
  resolve_kind-Bad wol c self st p e h = ground arith
  resolve_kind-Bad (other_kind k) c self st p e h = absurd (cc)

  resolve_step-Resolves :
      (c : Config) (self : String) (st : Step) (r : ResolvedStep)
      → resolve_step c self st ≡ ok r
      → Resolves c self st r
  unfolding resolve_step plain_step
  resolve_step-Resolves c self st r h =
      resolve_kind-Addressed st.kind c self st (plain_step c st) r h

  resolve_step-Bad :
      (c : Config) (self : String) (st : Step) (e : StepError)
      → resolve_step c self st ≡ err e
      → Bad st.kind c self st e
  unfolding resolve_step
  resolve_step-Bad c self st e h = resolve_kind-Bad st.kind c self st (plain_step c st) e h

  in_list-Checked :
      (c : Config) (self list : String) (st : Step) (steps : List Step)
      (o : Result StepError ResolvedStep) (rest : Result ConfigError (List ResolvedStep))
      → resolve_step c self st ≡ o
      → Checked c self list steps rest
      → Checked c self list
          (st ∷ steps)
          (in_list list st.name o >>= λ r. rest >>= λ rs. ok (r ∷ rs))
  in_list-Checked c self list st steps (ok r) (ok rs) h a = (resolve_step-Resolves c self st r h, a)
  in_list-Checked c self list st steps (ok r) (err e) h a =
      inr ((r, resolve_step-Resolves c self st r h), a)
  in_list-Checked c self list st steps (err e) rest h a =
      inl (e, (refl, resolve_step-Bad c self st e h))

  -- A step list is accepted or refused. If it is accepted it is resolved step by step: every step
  -- keeps its name, kind, action, value and field, the slots are addressed at the site, a delay
  -- lasts its seconds or what its name stands for, a wake-up has the address that was read, and no
  -- step waits on the /state of the sequencer itself. If it is refused, the error names the list
  -- and the first step that is bad, and why: a wait on the own /state, a delay of an unknown name,
  -- or an address that cannot be read.
  pub resolve-Checked :
      (steps : List Step) (c : Config) (self list : String)
      → Checked c self list steps (resolve steps c self list)
  unfolding resolve
  resolve-Checked [] c self list = tt
  resolve-Checked (st ∷ steps) c self list =
      in_list-Checked c self list st steps (resolve_step c self st) (resolve steps c self list) refl
        (resolve-Checked steps c self list)
