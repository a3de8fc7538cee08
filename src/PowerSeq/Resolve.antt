-- ===== src/PowerSeq/Resolve.antt =====
-- powerseq/internal/seq/seq.go: from the configuration to a sequencer (`resolve`, `New`).
use station_a.Base.{
  ℕ, ◌*◌, String, str_append, Bool, true, false, not, ◌||◌, Option, none, some, List, [], ◌∷◌, map,
  str_eq, leb, ◌==◌, if◌then◌else◌, Result, ok, err, ◌>>=◌,
}
use station_a.Schema.{slot_base}
use station_a.PowerSeq.Types.{
  idle, Kind, cmd, wait_status, wait_state, delay, wol, other_kind, Runtime, Step, Watch, Config,
  ResolvedStep, ResolvedWatch, SavedState, World, Sequencer,
}
use station_a.PowerSeq.Persist.{restore}

-- Why a configuration is refused; a step's error carries its list and its name.
pub data StepError : Type 0 where
  own_state bad_mac : StepError
  unknown_duration : String → StepError

pub data ConfigError : Type 0 where
  bad_step : (list name : String) → StepError → ConfigError
  unpaired_standby shutdown_alone shutdown_too_soon no_activity_slot no_idle_timeout : ConfigError

abbrev pub second : ℕ
second = 1_000_000_000

abbrev millisecond : ℕ
millisecond = 1_000_000

abbrev or_default : ℕ → ℕ → Option ℕ → ℕ
or_default d unit none = d
or_default d unit (some n) = n * unit

abbrev or_true : Option Bool → Bool
or_true none = true
or_true (some b) = b

abbrev pub default_broadcast : String
default_broadcast = "255.255.255.255:9"

abbrev or_text : String → String → String
or_text d s = if str_eq s "" then d else s

abbrev pub at_site : String → String → String
at_site site slot = str_append site (str_append "/" slot)

-- `resolveDelay`
unfoldable pub resolve_delay : Step → Config → Result StepError ℕ
resolve_delay st c = elim st.duration_s [
  | some n ↦ ok (n * second)
  | none ↦
      if str_eq st.duration "network"
      then ok c.network_delay
      else if str_eq st.duration "stagger"
      then ok c.shutdown_stagger
      else err (unknown_duration st.duration)
]

-- The fields that do not depend on the kind.
unfoldable pub plain_step : Config → Step → ResolvedStep
plain_step c st = record {
  name = st.name;
  kind = st.kind;
  slot = "";
  action = st.action;
  value = st.value;
  retain = or_true st.retain;
  slots = map (λ s. "") st.slots;
  state = or_text "online" st.state;
  field = st.field;
  hold = or_default c.default_hold millisecond st.hold_ms;
  timeout = or_default c.step_timeout second st.timeout_s;
  duration = 0;
  mac = [];
  broadcast = "";
}

module _ ⦃rt : Runtime⦄ where
  unfoldable pub resolve_wol : Step → ResolvedStep → Option (List ℕ) → Result StepError ResolvedStep
  resolve_wol st r none = err bad_mac
  resolve_wol st r (some mac) =
      ok (record r { mac = mac; broadcast = or_text default_broadcast st.broadcast })

  -- The switch of `resolve` on the kind.
  unfoldable pub resolve_kind :
      Kind → Config → String → Step → ResolvedStep → Result StepError ResolvedStep
  resolve_kind cmd c self st r = ok (record r { slot = at_site c.site st.slot })
  resolve_kind wait_state c self st r =
      if str_eq (at_site c.site st.slot) self
      then err own_state
      else ok (record r { slot = at_site c.site st.slot })
  resolve_kind wait_status c self st r = ok (record r { slots = map (at_site c.site) st.slots })
  resolve_kind delay c self st r = resolve_delay st c >>= λ d. ok (record r { duration = d })
  resolve_kind wol c self st r = resolve_wol st r (rt.parse_mac st.mac)
  resolve_kind (other_kind k) c self st r = ok r

  unfoldable pub resolve_step : Config → String → Step → Result StepError ResolvedStep
  resolve_step c self st = resolve_kind st.kind c self st (plain_step c st)

  abbrev pub in_list :
      String → String → Result StepError ResolvedStep → Result ConfigError ResolvedStep
  in_list list name (ok r) = ok r
  in_list list name (err e) = err (bad_step list name e)

  -- `resolve`: the first bad step refuses the whole list.
  unfoldable pub resolve :
      List Step → Config → String → String → Result ConfigError (List ResolvedStep)
  resolve [] c self list = ok []
  resolve (st ∷ steps) c self list =
      let rest = resolve steps c self list in
      in_list list st.name (resolve_step c self st) >>= λ r. rest >>= λ rs. ok (r ∷ rs)

abbrev pub is_nil : List ResolvedStep → Bool
is_nil [] = true
is_nil (x ∷ xs) = false

abbrev same_bool : Bool → Bool → Bool
same_bool true b = b
same_bool false b = not b

abbrev check : Bool → ConfigError → Result ConfigError (Unit {0})
check true e = ok tt
check false e = err e

abbrev or_positive : ℕ → ℕ → ℕ
or_positive d n = if n == 0 then d else n

abbrev pub default_persist_every : ℕ
default_persist_every = 10 * second

resolve_watch : String → Watch → ResolvedWatch
resolve_watch site w = record {
  slot = at_site site w.slot;
  field = w.field;
  min_delta = w.min_delta;
  anchor = "";
}

-- The five resolved lists.
pub record Lists : Type 0 where
  pub startup : List ResolvedStep
  pub shutdown : List ResolvedStep
  pub standby : List ResolvedStep
  pub wake : List ResolvedStep
  pub idle_shut : List ResolvedStep

-- The sequencer that `New` builds, before it reads the state file.
unfoldable pub fresh : Config → Lists → World → Option SavedState → Sequencer
unfolding resolve_watch
fresh c l world disk =
    let off = is_nil l.standby in
    record {
      config =
          if off then c else record c { ant_mode_hold = or_positive (3 * second) c.ant_mode_hold };
      self = slot_base c.site c.station c.slot;
      startup = l.startup;
      shutdown = l.shutdown;
      standby = l.standby;
      wake = l.wake;
      idle_shut = l.idle_shut;
      activity_slot = if off then "" else at_site c.site c.activity_slot;
      ant_mode_slot =
          if off || str_eq c.ant_mode_slot ""
          then ""
          else slot_base c.site c.station c.ant_mode_slot;
      watches = if off then [] else map (resolve_watch c.site) c.watches;
      status = λ s. "";
      state = λ s. none;
      online = false;
      phase = idle;
      step = "";
      fault = "";
      stop_reason = "";
      running_since = 0;
      standby_since = 0;
      last_watch = 0;
      last_watch_why = "";
      settle_until = 0;
      power_hold = false;
      hold_ended_at = 0;
      ant_mode_seen = false;
      ant_mode_wait_until = 0;
      saved = none;
      saved_at = 0;
      persist_every = or_positive default_persist_every c.persist_every;
      queue = [];
      republish = false;
      world = world;
      file = disk;
      outbox = [];
    }

module _ ⦃rt : Runtime⦄ where
  -- `resolve` of the five lists, in the order of `New`, with the tests in between.
  unfoldable pub resolve_all : Config → Result ConfigError Lists
  resolve_all c =
      let self = slot_base c.site c.station c.slot in
      do
        startup ← resolve c.startup c self "startup"
        shutdown ← resolve c.shutdown c self "shutdown"
        standby ← resolve c.standby c self "standby"
        wake ← resolve c.wake c self "wake"
        paired ← check (same_bool (is_nil standby) (is_nil wake)) unpaired_standby
        idle_shut ← resolve c.idle_shutdown c self "idle_shutdown"
        has_standby ← check (is_nil idle_shut || not (is_nil standby)) shutdown_alone
        late ←
            check (is_nil idle_shut || not (leb c.shutdown_timeout c.idle_timeout))
              shutdown_too_soon
        active ← check (is_nil standby || not (str_eq c.activity_slot "")) no_activity_slot
        timed ← check (is_nil standby || not (c.idle_timeout == 0)) no_idle_timeout
        ok (record {
          startup = startup;
          shutdown = shutdown;
          standby = standby;
          wake = wake;
          idle_shut = idle_shut;
        })

  -- `New`; the state file enters as it is on disk, `unread` when it is no usable JSON.
  unfoldable pub new : Config → World → Option (Option SavedState) → Result ConfigError Sequencer
  new c world disk = resolve_all c >>= λ l.
      let s = fresh c l world (elim disk [ none ↦ none | some d ↦ d ]) in
      ok (if str_eq c.state_file "" then s else restore world.now disk s)
