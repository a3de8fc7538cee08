-- ===== src/AntModeEngine/Published.antt =====
-- antmode/internal/engine/engine.go: the published state, as shared/antmode, wrc-rotator-bridge,
-- ultrabridge and powerseq read it.
use station_a.Base.{
  subst, ℕ, Bool, true, false, not, ◌&&◌, ◌||◌, Option, none, some, ◌≡◌, ◌⊎◌, inl, inr, refl, sym,
  ◌∙◌, ℤ, is_some, ltb, if-both, ok, err, Result,
}
use station_a.AntMode as AntMode
use station_a.AntMode.{Mode, Lock, is_valid, in_travel, snapshot, parse, locked, lock_of}
use station_a.AntMode.Reading.{Parkable, Readable-parse}
use station_a.AntModeEngine.Types.{Phase, Engine}
use station_a.AntModeEngine.Publishing.{current_state, power_hold}
use station_a.AntModeEngine.Fitting.{Park, Fitting, Fit}
use station_a.RotatorLock.Types.{Gate}
use station_a.RotatorLock.Acting as Rotator
use station_a.UltraBridge.Lock as Ultra
use station_a.PowerSeq.Types.{Sequencer}
use station_a.PowerSeq.Inputs.{set_ant_mode, hold_ends}

-- What the contract keeps of the published state.
abbrev pub shown : Engine → AntMode.State
shown e = record { mode = e.pol.state.mode; lock = e.lock; power_hold = power_hold e }

abbrev pub heard : Engine → AntMode.Payload
heard e = snapshot (record {
  mode = (current_state e).mode;
  lock = (current_state e).lock;
  power_hold = (current_state e).power_hold;
})

parkable :
    (r : Bool) (z : Option ℤ)
    → Park r z
    → (z ≡ none) ⊎ ((az : ℤ) × (z ≡ some az) × (in_travel az ≡ true))
parkable r none q = inl refl
parkable r (some z) (a, b) = inr (z, refl, b)

module _ (h : Bool) where
  Fitting-locked :
      (m : Mode) (o : Option Lock) (p : Phase)
      → Fitting m o p
      → (is_valid m ≡ true)
        × (is_some o ≡ locked (record { mode = m; lock = o; power_hold = h }))
        × Parkable o
  unfolding is_valid locked
  Fitting-locked Mode.normal none p f = (refl, refl, tt)
  Fitting-locked Mode.normal (some l) p (a, b, c, d, q, r) = cc
  Fitting-locked Mode.storm none p (a, b) = cc
  Fitting-locked Mode.storm (some l) p (a, b, c, d, q, r) =
      (refl, refl, parkable l.retract l.park_az q)
  Fitting-locked Mode.maintenance none p (a, b) = cc
  Fitting-locked Mode.maintenance (some l) p (a, b, c, d, q, r) =
      (refl, refl, parkable l.retract l.park_az q)
  Fitting-locked (Mode.other t) none p (a, b) = cc
  Fitting-locked (Mode.other t) (some l) p (a, b, c, d, q, r) = cc

module _ (p : AntMode.Payload) (st : AntMode.State) (q : parse p ≡ ok st) where
  gate-refuses : (g : Gate) → Rotator.refuses (Rotator.apply p g) ≡ locked st
  unfolding Rotator.refuses Rotator.apply Rotator.applied
  gate-refuses g = subst (λ r. Rotator.refuses (ends r) ≡ locked st) (sym q) refl
    where
      ends : Result AntMode.Malformed AntMode.State → Gate
      ends (ok t) = Rotator.applied t g
      ends (err m) = g

  controller-check_extend :
      (now : ℕ) (c : Ultra.Controller)
      → Ultra.check_extend now (Ultra.apply_ant_mode p c) ≡ locked st
  unfolding Ultra.check_extend Ultra.apply_ant_mode Ultra.applied Ultra.locked_by Ultra.unlocked
  controller-check_extend now c =
      subst (λ r. Ultra.check_extend now (ends r) ≡ locked st) (sym q)
        (if-both
          (λ (k : Ultra.LockState).
            ((not k.seen && ltb now k.hold_until) || locked k.st) ≡ locked st)
          (locked st) {x = Ultra.locked_by (lock_of st) (record c.lk { st = st; seen = true })}
          {y = Ultra.unlocked (record c.lk { st = st; seen = true })} refl refl)
    where
      ends : Result AntMode.Malformed AntMode.State → Ultra.Controller
      ends (ok t) = Ultra.applied t c
      ends (err m) = c

  sequencer-power_hold : (s : Sequencer) → (set_ant_mode p s).power_hold ≡ st.power_hold
  unfolding set_ant_mode hold_ends
  sequencer-power_hold s =
      subst (λ r. (ends r).power_hold ≡ st.power_hold) (sym q) (by s.power_hold st.power_hold)
    where
      ends : Result AntMode.Malformed AntMode.State → Sequencer
      ends (ok t) =
          hold_ends s.power_hold t.power_hold
            (record s { ant_mode_seen = true; power_hold = t.power_hold })
      ends (err m) = s

      by :
          (a b : Bool)
          → (hold_ends a b
              (record s { ant_mode_seen = true; power_hold = st.power_hold })).power_hold
            ≡ st.power_hold
      by true true = refl
      by true false = refl
      by false b = refl

module _ (e : Engine) where
  heard-parse : Fit e → (parse (heard e) ≡ ok (shown e)) × (locked (shown e) ≡ is_some e.lock)
  unfolding current_state
  heard-parse f = by (Fitting-locked (power_hold e) e.pol.state.mode e.lock e.phase f)
    where
      by :
          (is_valid e.pol.state.mode ≡ true) × (is_some e.lock ≡ locked (shown e)) × Parkable e.lock
          → (parse (heard e) ≡ ok (shown e)) × (locked (shown e) ≡ is_some e.lock)
      by (v, k, p) = (Readable-parse (shown e) v k p, sym k)

  -- Where mode, lock and phase fit, the state that the engine publishes is accepted by
  -- every reader of the contract, as it was published; and whatever state they are in, the
  -- rotator's gate then refuses motion, and the antenna controller refuses extends, exactly
  -- if the engine has a lock, and the sequencer holds the power exactly if the engine says
  -- so.
  pub heard-Fit :
      (g : Gate) (c : Ultra.Controller) (now : ℕ) (s : Sequencer)
      → Fit e
      → (parse (heard e) ≡ ok (shown e))
        × (Rotator.refuses (Rotator.apply (heard e) g) ≡ is_some e.lock)
        × (Ultra.check_extend now (Ultra.apply_ant_mode (heard e) c) ≡ is_some e.lock)
        × ((set_ant_mode (heard e) s).power_hold ≡ power_hold e)
  heard-Fit g c now s f = by (heard-parse f)
    where
      by :
          (parse (heard e) ≡ ok (shown e)) × (locked (shown e) ≡ is_some e.lock)
          → (parse (heard e) ≡ ok (shown e))
            × (Rotator.refuses (Rotator.apply (heard e) g) ≡ is_some e.lock)
            × (Ultra.check_extend now (Ultra.apply_ant_mode (heard e) c) ≡ is_some e.lock)
            × ((set_ant_mode (heard e) s).power_hold ≡ power_hold e)
      by (q, k) = (
        q,
        gate-refuses (heard e) (shown e) q g ∙ k,
        controller-check_extend (heard e) (shown e) q now c ∙ k,
        sequencer-power_hold (heard e) (shown e) q s,
      )
