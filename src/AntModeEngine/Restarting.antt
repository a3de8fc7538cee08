-- ===== src/AntModeEngine/Restarting.antt =====
-- antmode/internal/engine/engine.go: a restart from the file that the engine wrote.
use station_a.Base.{
  ℕ, true, false, not, ◌||◌, Option, none, some, ◌≡◌, refl, sym, ap, ◌∙◌, subst, is_some, if-cases,
  if◌then◌else◌,
}
use station_a.AntMode.{Mode, Lock, is_valid}
use station_a.AntModePolicy.Types as Policy
use station_a.AntModePolicy.Types.{is_normal, or_normal}
use station_a.AntModeEngine.Types.{
  Phase, idle, grounding, retracting, awaiting_power, awaiting_devices, rotating, parked, failed,
  unknown, is_known, Config, Engine,
}
use station_a.AntModeEngine.Parking.{is_maintenance}
use station_a.AntModeEngine.Publishing.{persisted}
use station_a.AntModeEngine.Borrowing.{mark_restore}
use station_a.AntModeEngine.Startup.{
  or_lock, is_idle, normalized_mode, normalized, normalize_loaded, fresh_engine, new,
}
use station_a.AntModeEngine.Fitting.{has_reached, Fitting, Fit}

-- The restarted engine `r` goes on where `e` stopped: same mode, lock, phase, fault and borrow,
-- which in normal mode is due for its restoration.
abbrev pub Resumes : Engine → Engine → Type 0
Resumes e r =
    (r.pol.state.mode ≡ e.pol.state.mode)
    × (r.pol.state.seq ≡ e.pol.state.seq)
    × (r.lock ≡ e.lock)
    × (r.phase ≡ e.phase)
    × (r.fault ≡ e.fault)
    × (r.borrow ≡ (if is_normal e.pol.state.mode then mark_restore e.borrow else e.borrow))
    × (r.borrow_seq ≡ e.borrow_seq)

loaded : Config → Policy.Config → ℕ → Engine → Engine
loaded cfg pcfg now e = record (fresh_engine cfg (Policy.new pcfg e.pol.state) now) {
  file_seq = e.pol.state.seq;
  lock = e.lock;
  phase = e.phase;
  fault = e.fault;
  borrow = e.borrow;
  borrow_seq = e.borrow_seq;
  nudge_base = e.nudge_base;
}

fit-is_valid :
    (m : Mode) (l : Option Lock) (p : Phase)
    → Fitting m l p
    → (is_valid m ≡ true) × (or_normal m ≡ m)
unfolding is_valid
fit-is_valid Mode.normal l p f = (refl, refl)
fit-is_valid Mode.storm l p f = (refl, refl)
fit-is_valid Mode.maintenance l p f = (refl, refl)
fit-is_valid (Mode.other t) none p (a, b) = cc
fit-is_valid (Mode.other t) (some l) p (a, b, c, d, q, r) = cc

reached-known :
    (p : Phase) (l : Lock) → has_reached p l ≡ true → (not (is_known p) || is_idle p) ≡ false
reached-known idle l h = cc
reached-known grounding l h = refl
reached-known retracting l h = refl
reached-known awaiting_power l h = refl
reached-known awaiting_devices l h = refl
reached-known rotating l h = refl
reached-known parked l h = refl
reached-known failed l h = refl
reached-known (unknown t) l h = cc

normal_fit :
    (m : Mode) (o : Option Lock) (p : Phase)
    → is_normal m ≡ true
    → Fitting m o p
    → (none ≡ o) × (idle ≡ p)
normal_fit m none p n (a, b) = (refl, sym b)
normal_fit m (some l) p n (a, b, c, d, q, r) = cc

locked_fit :
    (m : Mode) (o : Option Lock) (p : Phase) (s : ℕ)
    → is_normal m ≡ false
    → Fitting m o p
    → (some (record (or_lock o s) { ground = true; nudge = is_maintenance m }) ≡ o)
      × ((if not (is_known p) || is_idle p then grounding else p) ≡ p)
locked_fit m none p s n (a, b) = cc
locked_fit m (some l) p s n (a, b, c, d, q, r) = (
  ap (λ g. some (record l { ground = g; nudge = is_maintenance m })) (sym c)
      ∙ ap (λ v. some (record l { nudge = v })) (sym d),
  rw (reached-known p l r) refl,
)

normalized-Resumes : (e : Engine) → Fit e → Resumes e (normalized e)
unfolding normalized
normalized-Resumes e f =
    if-cases (Resumes e) (is_normal e.pol.state.mode)
      (λ n. unlocked n (normal_fit e.pol.state.mode e.lock e.phase n f))
      (λ n. relocked n (locked_fit e.pol.state.mode e.lock e.phase e.pol.state.seq n f))
  where
    unlocked :
        is_normal e.pol.state.mode ≡ true
        → (none ≡ e.lock) × (idle ≡ e.phase)
        → Resumes e (record e { lock = none; phase = idle; borrow = mark_restore e.borrow })
    unlocked n (a, b) = (refl, refl, a, b, refl, rw n refl, refl)

    held : Lock
    held = record (or_lock e.lock e.pol.state.seq) {
      ground = true;
      nudge = is_maintenance e.pol.state.mode;
    }

    at : Phase
    at = if not (is_known e.phase) || is_idle e.phase then grounding else e.phase

    relocked :
        is_normal e.pol.state.mode ≡ false
        → (some held ≡ e.lock) × (at ≡ e.phase)
        → Resumes e (record e {
          lock = some held;
          phase = at;
          borrow_clock = if is_some e.borrow then e.now else e.borrow_clock;
        })
    relocked n (a, b) = (refl, refl, a, b, refl, rw n refl, refl)

module _ (cfg : Config) (pcfg : Policy.Config) (now : ℕ) (e : Engine) where
  -- For an engine whose mode, lock and phase fit, the engine that restarts from its file has the
  -- same mode, sequence number, lock, phase, fault and borrow; a borrow of the normal mode is
  -- marked for its restoration.
  pub new-persisted : Fit e → Resumes e (new cfg pcfg (some (persisted e)) now)
  unfolding new persisted normalize_loaded normalized_mode Policy.new fresh_engine normalized
      is_valid loaded
  new-persisted f = by (fit-is_valid e.pol.state.mode e.lock e.phase f)
    where
      start : Engine
      start = loaded cfg pcfg now e

      by :
          (is_valid e.pol.state.mode ≡ true) × (or_normal e.pol.state.mode ≡ e.pol.state.mode)
          → Resumes e (normalize_loaded start)
      by (v, m) = from (normalized-Resumes start (subst (λ x. Fitting x e.lock e.phase) (sym m) f))
        where
          from : Resumes start (normalized start) → Resumes e (normalize_loaded start)
          from (a, b, c, d, g, h, i) = rw (ap is_valid m ∙ v) (
            a ∙ m,
            b,
            c,
            d,
            g,
            h ∙ ap (λ x. if is_normal x then mark_restore e.borrow else e.borrow) m,
            i,
          )
