-- ===== src/AntModeEngine/Loading.antt =====
-- antmode/internal/engine/engine.go: what is loaded from the state file, or adopted from the
-- retained state, fits.
use station_a.Base.{
  ℕ, Bool, true, false, not, ◌&&◌, ◌||◌, Option, none, some, leb, ◌≡◌, ◌⊎◌, inl, inr, refl, if-both,
  if-cases, ok, err, Result,
}
use station_a.AntMode as AntMode
use station_a.AntMode.{Mode, Lock, is_valid, lock_of}
use station_a.AntModePolicy.Types as Policy
use station_a.AntModePolicy.Types.{is_normal}
use station_a.AntModeEngine.Types.{
  Phase, idle, grounding, retracting, awaiting_power, awaiting_devices, rotating, parked, failed,
  unknown, is_known, Config, Persisted, Engine,
}
use station_a.AntModeEngine.Parking.{is_maintenance}
use station_a.AntModeEngine.Startup.{
  Extra, or_lock, is_idle, normalized_mode, normalized, normalize_loaded, fresh_engine, new,
  adopted, own_snapshot, own_state,
}
use station_a.AntModeEngine.Fitting.{has_reached, Park, CfgFit, Sound}

-- A lock and a phase that were written together: the park is within the travel, and the phase was
-- reached unless it is idle or unknown.
abbrev pub Consistent : Lock → Phase → Type 0
Consistent l p =
    Park l.retract l.park_az × (((not (is_known p) || is_idle p) ≡ true) ⊎ (has_reached p l ≡ true))

grounded-has_reached :
    (p : Phase) (l : Lock) (n : Bool)
    → has_reached p l ≡ true
    → has_reached p (record l { ground = true; nudge = n }) ≡ true
grounded-has_reached idle l n h = h
grounded-has_reached grounding l n h = h
grounded-has_reached retracting l n h = h
grounded-has_reached awaiting_power l n h = h
grounded-has_reached awaiting_devices l n h = h
grounded-has_reached rotating l n h = h
grounded-has_reached parked l n h = h
grounded-has_reached failed l n h = h
grounded-has_reached (unknown t) l n h = h

normalized-Sound :
    (e : Engine)
    → CfgFit e.cfg
    → is_valid e.pol.state.mode ≡ true
    → Consistent (or_lock e.lock e.pol.state.seq) e.phase
    → Sound (normalized e)
unfolding normalized
normalized-Sound e k v (q, r) =
    if-cases Sound (is_normal e.pol.state.mode) (λ n. (k, (n, refl)))
      (λ n. (
        k,
        (
          n,
          v,
          refl,
          refl,
          q,
          if-cases (λ p. has_reached p held ≡ true) (not (is_known e.phase) || is_idle e.phase)
              (λ h. refl) (λ h. kept h r),
        ),
      ))
  where
    held : Lock
    held = record (or_lock e.lock e.pol.state.seq) {
      ground = true;
      nudge = is_maintenance e.pol.state.mode;
    }

    kept :
        (not (is_known e.phase) || is_idle e.phase) ≡ false
        → ((not (is_known e.phase) || is_idle e.phase) ≡ true)
          ⊎ (has_reached e.phase (or_lock e.lock e.pol.state.seq) ≡ true)
        → has_reached e.phase held ≡ true
    kept h (inl g) = cc
    kept h (inr g) =
        grounded-has_reached e.phase (or_lock e.lock e.pol.state.seq)
          (is_maintenance e.pol.state.mode) g

normalize_loaded-Sound :
    (e : Engine)
    → CfgFit e.cfg
    → Consistent (or_lock e.lock e.pol.state.seq) e.phase
    → Sound (normalize_loaded e)
unfolding normalize_loaded normalized_mode is_valid
normalize_loaded-Sound e k c =
    if-cases (λ d. Sound (normalized d)) (is_valid e.pol.state.mode) (λ h. normalized-Sound e k h c)
      (λ h.
        normalized-Sound
          (record e { pol = record e.pol { state = record e.pol.state { mode = Mode.normal } } }) k
          refl c)

-- A state file whose lock and phase were written together, or none.
abbrev pub Filed : Option Persisted → Type 0
Filed none = Unit
Filed (some p) = Consistent (or_lock p.lock p.policy.seq) p.phase

pub new-Sound :
    (cfg : Config) (pcfg : Policy.Config) (file : Option Persisted) (now : ℕ)
    → CfgFit cfg
    → Filed file
    → Sound (new cfg pcfg file now)
unfolding new fresh_engine Policy.new
new-Sound cfg pcfg none now k c = (k, (refl, refl))
new-Sound cfg pcfg (some p) now k c =
    normalize_loaded-Sound
      (record (fresh_engine cfg (Policy.new pcfg p.policy) now) {
        file_seq = p.policy.seq;
        lock = p.lock;
        phase = p.phase;
        fault = p.fault;
        borrow = p.borrow;
        borrow_seq = p.borrow_seq;
        nudge_base = p.nudge_base;
      })
      k c

-- A retained state whose lock and phase were published together, or one that is not read.
abbrev pub Retained : Result AntMode.Malformed AntMode.State → Extra → Type 0
Retained (err m) x = Unit
Retained (ok st) x = Consistent (lock_of st) x.phase

own_snapshot-Sound :
    (st : AntMode.State) (x : Extra) (e : Engine)
    → Consistent (lock_of st) x.phase
    → Sound e
    → Sound (own_snapshot st x e)
unfolding own_snapshot adopted
own_snapshot-Sound st x e c s =
    if-both Sound (not (AntMode.locked st) || (not e.adopt && leb (lock_of st).seq e.file_seq)) s
      (normalize_loaded-Sound _ s.0 c)

pub own_state-Sound :
    (payload : AntMode.Payload) (x : Extra) (e : Engine)
    → Retained (AntMode.parse payload) x
    → Sound e
    → Sound (own_state payload x e)
unfolding own_state
own_state-Sound payload x e c s = if-both Sound e.ready s (by (AntMode.parse payload) c)
  where
    by :
        (r : Result AntMode.Malformed AntMode.State)
        → Retained r x
        → Sound (elim r [ err m ↦ e | ok st ↦ own_snapshot st x e ])
    by (err m) h = s
    by (ok st) h = own_snapshot-Sound st x e h s
