-- ===== src/PowerSeq/Inputs.antt =====
-- powerseq/internal/seq/seq.go: what the mqtt layer reports, and how the sequencer reads it.
-- Each handler is one critical section. Only `last_watch_why` and the log lines differ from the
-- source by their wording.
use station_a.Base.{
  ℕ, ◌+◌, String, str_append, Bool, true, false, not, ◌&&◌, ◌||◌, Option, none, some, List, [], ◌∷◌,
  str_eq, ltb, if◌then◌else◌, update, lookup, ok, err,
}
use station_a.AntMode
use station_a.AntMode.{Payload}
use station_a.PowerSeq.Types.{
  Phase, running, standby, Runtime, Value, null, bool, text, number, json_number, composite, Doc,
  nil_map, object, ResolvedWatch, Sequencer, Float64,
}

abbrev bool_text : Bool → String
bool_text true = "true"
bool_text false = "false"

-- `m[field]`: an absent field, and any field of the nil map, is null.
abbrev or_null : Option Value → Value
or_null none = null
or_null (some v) = v

unfoldable pub field_of : Doc → String → Value
field_of nil_map f = null
field_of (object members) f = or_null (lookup f members)

-- Watch changes count in `running` and `standby`, after the settle window, without a hold.
unfoldable pub counted_phase : Phase → Bool
counted_phase running = true
counted_phase standby = true
counted_phase p = false

unfoldable pub settled : Sequencer → Bool
unfolding counted_phase
settled s = counted_phase s.phase && not (ltb s.world.now s.settle_until) && not s.power_hold

module _ ⦃rt : Runtime⦄ where
  unfoldable pub coerce_to_string : Value → String
  coerce_to_string null = ""
  coerce_to_string (bool b) = bool_text b
  coerce_to_string (text s) = s
  coerce_to_string (number x) = rt.format_float x
  coerce_to_string (json_number s) = s
  coerce_to_string (composite s) = s

  unfoldable pub state_text : Option Doc → String → String
  unfolding field_of coerce_to_string
  state_text none f = ""
  state_text (some m) f = coerce_to_string (field_of m f)

  -- `stateField`
  unfoldable pub state_field : Sequencer → String → String → String
  unfolding state_text
  state_field s slot f = state_text (s.state slot) f

  -- `isOnline`: the bridge is online and its device is not reported offline.
  unfoldable pub is_online : Sequencer → String → Bool
  unfolding state_field
  is_online s slot =
      str_eq (s.status slot) "online" && not (str_eq (state_field s slot "device_online") "false")

  delta_moved : Option Float64 → Option Float64 → Float64 → Bool
  delta_moved none c d = true
  delta_moved (some a) none d = true
  delta_moved (some a) (some c) d = rt.differs_by a c d

  unfoldable pub watch_moved : String → String → Float64 → Bool
  unfolding delta_moved
  watch_moved anchor cur d =
      if str_eq anchor cur
      then false
      else if rt.at_most_zero d
      then true
      else delta_moved (rt.parse_float anchor) (rt.parse_float cur) d

  -- One round of the loop over the watches: the watch afterwards, and whether it counted.
  unfoldable pub note_watch : Bool → Bool → String → Doc → ResolvedWatch → ResolvedWatch × Bool
  unfolding field_of coerce_to_string watch_moved
  note_watch fit calm slot m w =
      let v = coerce_to_string (field_of m w.field) in
      if not (str_eq w.slot slot) || (str_eq v "" || not fit)
      then (w, false)
      else if str_eq w.anchor "" || not calm
      then (record w { anchor = v }, false)
      else if watch_moved w.anchor v w.min_delta
      then (record w { anchor = v }, true)
      else (w, false)

  -- The reason text of a counted change.
  unfoldable pub why : ResolvedWatch → String → String
  why w v = str_append w.slot (
      str_append "." (str_append w.field (str_append " " (str_append w.anchor (str_append "→" v)))))

  unfoldable pub note_loop :
      Bool
      → Bool
      → String
      → Doc
      → ℕ
      → List ResolvedWatch
      → ℕ
      → String
      → List ResolvedWatch × ℕ × String
  unfolding why
  note_loop fit calm slot m now [] last reason = ([], last, reason)
  note_loop fit calm slot m now (w ∷ ws) last reason =
      let (w', counted) = note_watch fit calm slot m w in
      let text' = why w (coerce_to_string (field_of m w.field)) in
      let rest =
        note_loop fit calm slot m now ws (if counted then now else last)
          (if counted then text' else reason) in
      (w' ∷ rest.0, rest.1, rest.2)

  -- `noteWatchesLocked`
  unfoldable pub note_watches : String → Doc → Sequencer → Sequencer
  unfolding note_loop
  note_watches slot m s =
      let fit =
        str_eq (s.status slot) "online"
        && not (str_eq (coerce_to_string (field_of m "device_online")) "false") in
      let r =
        note_loop fit (settled s) slot m s.world.now s.watches s.last_watch s.last_watch_why in
      record s { watches = r.0; last_watch = r.1; last_watch_why = r.2 }

  -- `SetState`; `none` is a payload that does not decode.
  unfoldable pub set_state : String → Option Doc → Sequencer → Sequencer
  unfolding note_watches
  set_state slot none s = record s { state = update s.state slot none }
  set_state slot (some m) s =
      note_watches slot m (record s { state = update s.state slot (some m) })

-- `SetStatus`
unfoldable pub set_status : String → Bool → Sequencer → Sequencer
set_status slot online s = record s {
  status = update s.status slot (if online then "online" else "offline");
}

-- `SetBrokerOnline`: a reconnect makes the power hold unknown for a while.
unfoldable pub set_broker_online : Bool → Sequencer → Sequencer
set_broker_online up s =
    let t = record s { online = up } in
    if up && not s.online && not (str_eq s.ant_mode_slot "")
    then record t {
      ant_mode_seen = false;
      ant_mode_wait_until = s.world.now + s.config.ant_mode_hold;
    }
    else t

unfoldable pub hold_ends : Bool → Bool → Sequencer → Sequencer
hold_ends true false s =
    let until = s.world.now + s.config.watch_settle in
    record s {
      settle_until = if ltb s.settle_until until then until else s.settle_until;
      hold_ended_at = s.world.now;
    }
hold_ends before after s = s

-- `SetAntMode`
unfoldable pub set_ant_mode : Payload → Sequencer → Sequencer
unfolding hold_ends
set_ant_mode payload s = elim (AntMode.parse payload) [
  | ok st ↦
      hold_ends s.power_hold st.power_hold
        (record s { ant_mode_seen = true; power_hold = st.power_hold })
  | err e ↦ s
]
