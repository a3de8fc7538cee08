-- ===== src/AntennaSelect/Tests.antt =====
-- antennaselect/internal/reconcile: the theorems at a small station.
use station_a.Base.{
  String, true, false, none, some, [], ◌∷◌, ◌≡◌, ◌↔◌, ◌≢◌, ◌⊎◌, refl, arith, eq_iff, str_eq,
  if◌then◌else◌,
}
use station_a.AntennaSelect.{
  Config, lock, Inputs, Reconciler, new, resolve, auto_target, hold_active, known_band,
  port_for_band, scan, serves, switching, following, next,
}
use station_a.AntennaSelect.Ladder.{Tier, ModeOf, resolve-Tier_iff}
use station_a.AntennaSelect.Emitting.{Selects, next-Selects, next-locked, next-settles}
use station_a.AntennaSelect.Wiring.{Wired, new-Wired}

abbrev config : Config
config = record {
  wiring_map = ("1", "hexbeam") ∷ ("2", "vertical") ∷ ("off", "ground") ∷ [];
  bands = ("hexbeam", "20m" ∷ "15m" ∷ []) ∷ ("vertical", "40m" ∷ "20m" ∷ []) ∷ [];
  fallback = "vertical";
  follow_resource = "vertical";
  pa_follow = true;
  tuner_follow = true;
  tuner_resource = "vertical";
  atu_bands = "40m" ∷ [];
}

abbrev at_station : Reconciler
at_station = record {
  config = config;
  resource_to_port =
      λ r. if str_eq r "hexbeam" then some "1" else if str_eq r "vertical" then some "2" else none;
  policy_resources = "hexbeam" ∷ "vertical" ∷ [];
  follow_port = "2";
  tuner_port = "2";
}

-- The radio receives on 40 m while the switch is on the beam.
abbrev on_forty : Inputs
on_forty = record {
  radio_online = true;
  radio_band = "40m";
  radio_freq_hz = 7100000;
  radio_tx = "rx";
  station_activity = "active";
  operator_request = "auto";
  switch_selected = "1";
  locked = false;
  lock_ground = false;
}

abbrev in_lock : Inputs
in_lock = record on_forty { locked = true; lock_ground = true }

resolve-Tier_iff_example :
    ModeOf in_lock (resolve at_station in_lock).mode
    × (Tier at_station in_lock "off" lock ↔ (
        ("off" ≡ (resolve at_station in_lock).target)
        × (lock ≡ (resolve at_station in_lock).source)))
resolve-Tier_iff_example = resolve-Tier_iff at_station in_lock "off" lock

next-Selects_example :
    ((next at_station on_forty).decision ≡ resolve at_station on_forty)
    × Selects on_forty (resolve at_station on_forty) (next at_station on_forty)
next-Selects_example = next-Selects at_station on_forty

next-locked_example :
    ((next at_station in_lock).follow_freq_hz ≡ 0)
    × ((next at_station in_lock).set_inline ≡ none)
    × ((next at_station in_lock).select_port ≡ ""
        ⊎ (true ≡ true) × ((next at_station in_lock).select_port ≡ "off"))
next-locked_example = next-locked at_station in_lock refl

next-settles_example :
    let t = record on_forty { switch_selected = "2" } in
    ((next at_station t).decision ≡ (next at_station on_forty).decision)
    × ((next at_station t).select_port ≡ "")
    × ((next at_station t).deferred_for_tx ≡ false)
unfolding next switching following resolve hold_active auto_target known_band port_for_band scan
    serves
next-settles_example = next-settles at_station on_forty (ground (arith, eq_iff "2" ""))

abbrev forty : String
forty = "40m"

abbrev second_port : String
second_port = "2"

new-Wired_example : (second_port ≢ "off") × Wired config.wiring_map "vertical" second_port
unfolding new
new-Wired_example = new-Wired config "vertical" second_port refl
