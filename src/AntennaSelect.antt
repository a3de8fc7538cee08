-- ===== src/AntennaSelect.antt =====
-- antennaselect/internal/reconcile/reconcile.go (and the wiring map of internal/config/config.go):
-- the antenna-selection policy. It is pure: a decision is a function of configuration and inputs.
pub mod Ladder
mod Tests
pub mod Emitting
pub mod Wiring
use station_a.Base.{
  ℕ, zero, String, Bool, true, false, not, ◌&&◌, ◌||◌, Option, none, some, List, [], ◌∷◌, map,
  str_eq, ltb, lookup, update, contains, sort_texts, if◌then◌else◌,
}

pub record Config : Type 0 where
  pub wiring_map : List (String × String)  -- port, resource
  pub bands : List (String × List String)  -- resource, its bands
  pub fallback : String
  pub follow_resource : String
  pub pa_follow : Bool
  pub tuner_follow : Bool
  pub tuner_resource : String
  pub atu_bands : List String

pub data Source : Type 0 where
  lock idle operator auto : Source

pub data Mode : Type 0 where
  auto_mode manual_mode : Mode

abbrev pub request_auto : String
request_auto = "auto"

abbrev pub request_manual : String
request_manual = "manual"

abbrev pub port_off : String
port_off = "off"

abbrev pub tx_transmit : String
tx_transmit = "tx"

-- The empty text is "unknown" in every text field.
pub record Inputs : Type 0 where
  pub radio_online : Bool
  pub radio_band : String
  pub radio_freq_hz : ℕ
  pub radio_tx : String
  pub station_activity : String
  pub operator_request : String
  pub switch_selected : String
  pub locked : Bool
  pub lock_ground : Bool

pub record Decision : Type 0 where
  pub mode : Mode
  pub target : String
  pub source : Source

pub record Actions : Type 0 where
  pub decision : Decision
  pub select_port : String
  pub deferred_for_tx : Bool
  pub follow_freq_hz : ℕ
  pub set_band : String
  pub set_inline : Option Bool

pub record Reconciler : Type 0 where
  pub config : Config
  pub resource_to_port : String → Option String
  pub policy_resources : List String
  pub follow_port : String
  pub tuner_port : String

-- `Config.ResourceToPort`: the map is walked in the order of the list, and a later port of a
-- resource replaces an earlier one.
resource_ports : List (String × String) → (String → Option String) → String → Option String
resource_ports [] out = out
resource_ports ((port, resource) ∷ wiring) out =
    resource_ports wiring (if str_eq port port_off then out else update out resource (some port))

abbrev or_empty : Option String → String
or_empty none = ""
or_empty (some p) = p

abbrev first : String × List String → String
first p = p.0

-- `New`
unfoldable pub new : Config → Reconciler
unfolding resource_ports
new c =
    let ports = resource_ports c.wiring_map (λ r. none) in
    record {
      config = c;
      resource_to_port = ports;
      policy_resources = sort_texts (map first c.bands);
      follow_port = or_empty (ports c.follow_resource);
      tuner_port = or_empty (ports c.tuner_resource);
    }

unfoldable pub hold_active : String → Bool
hold_active request = not (str_eq request "") && not (str_eq request request_auto)

-- `knownBand`
unfoldable pub known_band : String → Bool
known_band band = not (str_eq band "") && not (str_eq band "unknown")

abbrev bands_of : Option (List String) → List String
bands_of none = []
bands_of (some bs) = bs

unfoldable pub serves : Reconciler → String → String → Bool
serves r band resource = contains (bands_of (lookup resource r.config.bands)) band

-- The first resource of the policy that serves the band and is wired.
unfoldable pub scan : Reconciler → String → List String → Option String
scan r band [] = none
scan r band (resource ∷ rest) =
    let further = scan r band rest in
    if serves r band resource
    then elim (r.resource_to_port resource) [ some port ↦ some port | none ↦ further ]
    else further

-- `portForBand`
unfoldable pub port_for_band : Reconciler → String → Option String
port_for_band r band = elim (if str_eq band "" then none else scan r band r.policy_resources) [
  | some port ↦ some port
  | none ↦ r.resource_to_port r.config.fallback
]

-- The auto tier: hold the last selection (an empty target) unless the band is known.
unfoldable pub auto_target : Reconciler → Inputs → String
auto_target r i =
    if i.radio_online && known_band i.radio_band
    then or_empty (port_for_band r i.radio_band)
    else ""

-- `Resolve`: the priority ladder.
unfoldable pub resolve : Reconciler → Inputs → Decision
resolve r i =
    let mode = if hold_active i.operator_request then manual_mode else auto_mode in
    if i.locked
    then record { mode = mode; target = if i.lock_ground then port_off else ""; source = lock }
    else if str_eq i.operator_request request_manual
    then record { mode = mode; target = ""; source = operator }
    else if str_eq i.station_activity "inactive"
    then record { mode = mode; target = port_off; source = idle }
    else if hold_active i.operator_request
    then record { mode = mode; target = i.operator_request; source = operator }
    else record { mode = mode; target = auto_target r i; source = auto }

-- The select of `Next`: never while transmitting.
unfoldable pub switching : Inputs → Decision → Actions
switching i d =
    let needed = not (str_eq d.target "") && not (str_eq d.target i.switch_selected) in
    let transmitting = str_eq i.radio_tx tx_transmit in
    record {
      decision = d;
      select_port = if needed && not transmitting then d.target else "";
      deferred_for_tx = needed && transmitting;
      follow_freq_hz = 0;
      set_band = "";
      set_inline = none;
    }

-- The follow bindings of `Next`.
unfoldable pub following : Reconciler → Inputs → Actions → Actions
following r i act = record act {
  follow_freq_hz =
      if not i.locked
        && (not (str_eq r.follow_port "")
            && (str_eq act.decision.target r.follow_port
                && (i.radio_online && ltb 0 i.radio_freq_hz)))
      then i.radio_freq_hz
      else 0;
  set_band =
      if r.config.pa_follow
        && (i.radio_online && (known_band i.radio_band && not (str_eq i.radio_band "gen")))
      then i.radio_band
      else "";
  set_inline =
      if not i.locked
        && (r.config.tuner_follow
            && (not (str_eq r.tuner_port "") && (i.radio_online && known_band i.radio_band)))
      then some
          (str_eq act.decision.target r.tuner_port && contains r.config.atu_bands i.radio_band)
      else none;
}

-- `Next`
unfoldable pub next : Reconciler → Inputs → Actions
unfolding switching following
next r i =
    let act = switching i (resolve r i) in
    if str_eq i.operator_request request_manual then act else following r i act
