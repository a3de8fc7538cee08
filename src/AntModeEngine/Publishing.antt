-- ===== src/AntModeEngine/Publishing.antt =====
-- antmode/internal/engine/engine.go: presence, the snapshot of the state, its publication and
-- its file.
use station_a.Base.{
  ℕ, ◌+◌, String, Bool, true, false, not, ◌&&◌, ◌||◌, Option, none, some, List, [], ◌∷◌, length,
  str_eq, ltb, leb, is_some, if◌then◌else◌,
}
use station_a.AntModePolicy.Types.{Presence, manned, unmanned, presence_of, Warning}
use station_a.AntModePolicy.Acting.{suggested, auto_exit_at, suggest_reason}
use station_a.AntModeEngine.Types.{
  Phase, parked, failed, presence_dwell, lost_idle_hold, live, Notice, Persisted, Snapshot, Output,
  state_published, file_saved, Engine, Outside,
}
use station_a.AntModeEngine.Parking.{is_storm, is_maintenance, fresh_wind}

-- `ActiveAt`
unfoldable pub is_active_at : ℕ → Notice → Bool
is_active_at now w = leb w.onset now && (elim w.expires [ none ↦ true | some t ↦ ltb now t ])

-- nina.Active
unfoldable pub active_notices : ℕ → List Notice → List Notice
active_notices now [] = []
active_notices now (w ∷ ws) =
    let rest = active_notices now ws in if is_active_at now w then w ∷ rest else rest

-- What the policy reads of them.
unfoldable pub warnings_of : List Notice → List Warning
warnings_of [] = []
warnings_of (w ∷ ws) = w.warning ∷ warnings_of ws

unfoldable pub active_at : ℕ → List Notice → List Warning
active_at now ws = warnings_of (active_notices now ws)

abbrev pub later_of : Option ℕ → ℕ → ℕ
later_of none t = t
later_of (some a) t = if ltb t a then a else t

abbrev pub is_manned : Presence → Bool
is_manned manned = true
is_manned unmanned = false

-- `transmitting`
unfoldable pub transmitting : Engine → Bool
transmitting e = live e.radio && e.radio.tx

-- powerseq lost its phase, and the radio is live and transmitted a short time ago.
abbrev pub lost_phase : Engine → Bool
lost_phase e =
    e.seq_status
    && (str_eq e.seq_phase "idle"
        && (e.seq_lost
            && (live e.radio && ltb e.now (later_of e.last_tx e.seq_lost_at + lost_idle_hold))))

-- `basePresence`
unfoldable pub base_presence : Engine → Presence
base_presence e =
    if is_manned (presence_of e.seq_status e.seq_phase) || lost_phase e then manned else unmanned

abbrev pub just_left : Option ℕ → ℕ → Bool
just_left none now = false
just_left (some t) now = ltb now (t + presence_dwell)

-- `presence`
unfoldable pub presence : Engine → Presence
presence e =
    if is_manned (base_presence e) || just_left e.unmanned_since e.now then manned else unmanned

-- `trackPresence`
unfoldable pub track_presence : Engine → Engine
track_presence e =
    if is_manned (base_presence e)
    then record e { was_manned = true; unmanned_since = none }
    else if e.was_manned
    then record e { was_manned = false; unmanned_since = some e.now }
    else e

abbrev pub is_over : Phase → Bool
is_over parked = true
is_over failed = true
is_over p = false

-- `powerHold`
unfoldable pub power_hold : Engine → Bool
power_hold e =
    is_some e.borrow
    || (is_maintenance e.pol.state.mode || (is_storm e.pol.state.mode && not (is_over e.phase)))

-- `snapshot`
unfoldable pub persisted : Engine → Persisted
persisted e = record {
  policy = e.pol.state;
  lock = e.lock;
  phase = e.phase;
  fault = e.fault;
  borrow = e.borrow;
  borrow_seq = e.borrow_seq;
  nudge_base = e.nudge_base;
}

-- `CurrentState`
unfoldable pub current_state : Engine → Snapshot
current_state e =
    let active = active_at e.now e.warnings in
    let advice = suggested active (presence e) e.pol in
    record {
      mode = e.pol.state.mode;
      source = e.pol.state.source;
      since = e.pol.state.since;
      seq = e.pol.state.seq;
      lock = e.lock;
      phase = e.phase;
      fault = e.fault;
      power_hold = power_hold e;
      borrow = e.borrow;
      presence = presence e;
      wind = e.wind;
      wind_stale = not (is_some (fresh_wind e));
      warnings = active_notices e.now e.warnings;
      warnings_ok = e.warn_ok;
      storm_suggested = advice;
      reason = if advice then suggest_reason active (presence e) else e.pol.state.reason;
      auto_exit_at = auto_exit_at e.pol;
      drift_deg = if is_some e.lock then e.drift else none;
    }

module _ ⦃out : Outside⦄ where
  -- One publication or write, and whether it succeeds.
  abbrev pub succeeded : Engine → Bool
  succeeded e = out.succeeds (length e.outputs)

  abbrev pub attempt : Output → Engine → Engine
  attempt o e = record e { outputs = (o, succeeded e) ∷ e.outputs }

  abbrev pub same_text : Option String → String → Bool
  same_text none t = false
  same_text (some u) t = str_eq t u

  -- `persist`
  unfoldable pub persist : Engine → Engine
  persist e =
      let text = out.file_text (persisted e) in
      if same_text e.last_persisted text
      then e
      else if succeeded e
      then record (attempt (file_saved (persisted e)) e) { last_persisted = some text }
      else attempt (file_saved (persisted e)) e

  -- `publishState`
  unfoldable pub publish_state : Bool → Engine → Engine
  publish_state force e =
      let text = out.state_text (current_state e) in
      if not (e.ready && e.connected)
      then e
      else if not force && same_text e.last_state text
      then e
      else if succeeded e
      then record (attempt (state_published (current_state e)) e) { last_state = some text }
      else attempt (state_published (current_state e)) e

  -- `Republish`
  unfoldable pub republish : Engine → Engine
  republish e = publish_state true (attempt Output.meta_published e)
