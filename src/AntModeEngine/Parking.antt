-- ===== src/AntModeEngine/Parking.antt =====
-- antmode/internal/engine/engine.go: the phases of the park and what the rotator shows of it.
use station_a.Base.{
  ◌+◌, String, Bool, true, false, not, ◌&&◌, Option, none, some, leb, ℤ, pos, eqb_ℤ, Degrees,
  is_some, if◌then◌else◌,
}
use station_a.AntMode.{Mode, Lock}
use station_a.AntModeEngine.Types.{
  Phase, parked, failed, rotating, same_phase, live, Engine, Outside,
}
use station_a.AntModeEngine.Heading as Heading

-- `setPhase`
unfoldable pub set_phase : Phase → Engine → Engine
set_phase p e = if same_phase p e.phase then e else record e { phase = p; phase_since = e.now }

-- `fail`
unfoldable pub fail : String → Engine → Engine
fail fault e = set_phase failed (record e { fault = fault })

abbrev pub park_of : Option Lock → Option ℤ
park_of none = none
park_of (some l) = l.park_az

abbrev pub is_storm : Mode → Bool
is_storm Mode.storm = true
is_storm m = false

abbrev pub is_maintenance : Mode → Bool
is_maintenance Mode.maintenance = true
is_maintenance m = false

-- `windFresh`
unfoldable pub fresh_wind : Engine → Option Degrees
fresh_wind e = elim e.wind [
  | none ↦ none
  | some w ↦ if leb e.now (w.at + e.cfg.wind_stale) then some w.dir_deg else none
]

module _ ⦃out : Outside⦄ where
  -- The rotator's target is the park: it is seen there, or it is omitted as 0 while the
  -- rotator turns.
  abbrev pub is_park_target : Bool → ℤ → Engine → Bool
  is_park_target fresh az e = elim e.rot.target [
    | none ↦ eqb_ℤ az (pos 0) && (fresh && e.rot.moving)
    | some t ↦ out.within t (out.of_int az) e.cfg.tolerance_deg
  ]

  -- `noteParkTarget`
  unfoldable pub note_park_target : Bool → Engine → Engine
  note_park_target fresh e =
      if not (live e.rot) then record e { park_seen = false } else elim (park_of e.lock) [
        | none ↦ e
        | some az ↦ if e.park_seen then e else record e { park_seen = is_park_target fresh az e }
      ]

  -- The azimuth that `computePark` sets.
  unfoldable pub park_heading : Engine → ℤ
  park_heading e =
      if is_storm e.pol.state.mode
      then Heading.storm (record {
        wind = fresh_wind e;
        az = if live e.rot then e.rot.az else none;
        max_az = e.cfg.max_az;
        fallback_az = e.cfg.fallback_az;
      })
      else e.cfg.maintenance_az

  -- `computePark`, for the lock `l` of the engine
  unfoldable pub compute_park : Lock → Engine → Engine
  compute_park l e =
      if is_some l.park_az
      then set_phase rotating (record e { lock = some (record l { retract = true }) })
      else note_park_target false (
          set_phase rotating (record e {
            lock = some (record l { retract = true; park_az = some (park_heading e) });
          }))

  abbrev pub rests_at : Option Degrees → Degrees → Engine → Bool
  rests_at none p e = false
  rests_at (some a) p e = out.within a p e.cfg.tolerance_deg

  -- `atPark`
  unfoldable pub at_park : Engine → Bool
  at_park e = elim (park_of e.lock) [
    | none ↦ false
    | some az ↦ live e.rot && (not e.rot.moving && rests_at e.rot.az (out.of_int az) e)
  ]

  abbrev pub may_nudge : Option Lock → Bool
  may_nudge none = false
  may_nudge (some l) = l.nudge

  abbrev pub is_base : Degrees → Option Degrees → Engine → Bool
  is_base t none e = false
  is_base t (some b) e = out.within t b e.cfg.tolerance_deg

  -- `nudged`
  unfoldable pub nudged : Engine → Bool
  nudged e = elim (park_of e.lock) [
    | none ↦ false
    | some az ↦ elim e.rot.target [
      | none ↦ false
      | some t ↦
          is_maintenance e.pol.state.mode
          && (may_nudge e.lock
              && (e.park_seen
                  && (live e.rot
                      && (not e.rot.moving
                          && (not (out.within t (out.of_int az) e.cfg.tolerance_deg)
                              && (not (is_base t e.nudge_base e) && rests_at e.rot.az t e))))))
    ]
  ]

  abbrev pub drift_of : Option Degrees → ℤ → Option ℤ
  drift_of none az = none
  drift_of (some a) az = some (out.offset a az)

  -- `updateDrift`
  unfoldable pub update_drift : Engine → Engine
  update_drift e = record e {
    drift = elim (park_of e.lock) [
      | none ↦ none
      | some az ↦ if live e.rot then drift_of e.rot.az az else none
    ];
  }

  -- `parked`
  unfoldable pub finish_park : Engine → Engine
  finish_park e = update_drift (set_phase parked (record e { fault = "" }))

-- `captureNudgeBase`
unfoldable pub capture_nudge_base : Engine → Engine
capture_nudge_base e = record e { nudge_base = e.rot.target; park_seen = false }
