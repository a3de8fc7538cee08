-- ===== src/AntModePolicy/Types.antt =====
-- antmode/internal/policy/policy.go: the state of the policy and the sets of warning ids.
-- Times and durations are natural numbers of nanoseconds; a zero time is `none`.
use station_a.AntMode.{Mode, normal, storm, other, mode_text}
use station_a.Base.{
  ℕ, ◌+◌, ◌%◌, ◌^◌, String, Bool, true, false, ◌&&◌, ◌||◌, Option, none, some, List, [], ◌∷◌,
  str_eq, sort_texts, if◌then◌else◌, precedes,
}

-- `type Source string`; `no_source` is the empty text of a state that was never set.
pub data Source : Type 0 where
  by_operator by_automation no_source : Source

pub data Presence : Type 0 where
  manned unmanned : Presence

-- `PresenceOf`
unfoldable pub presence_of : Bool → String → Presence
presence_of status_online phase =
    if status_online
      && (str_eq phase "starting" || (str_eq phase "running" || str_eq phase "waking"))
    then manned
    else unmanned

-- What the package fmt prints for a count and a duration.
pub record Format : Type 0 where
  pub decimal : ℕ → String
  pub duration : ℕ → String

-- nina.Warning: what the policy reads of it.
pub record Warning : Type 0 where
  pub id : String
  pub event : String

pub record Config : Type 0 where
  pub auto_enter : Bool
  pub exit_holdoff : ℕ

pub record State : Type 0 where
  pub mode : Mode
  pub source : Source
  pub since : ℕ
  pub seq : ℕ  -- uint64
  pub acked : List String
  pub dismissed : List String
  pub quiet_for : ℕ
  pub reason : String

pub record Changes : Type 0 where
  pub mode_changed : Option Mode  -- from which mode, if it changed
  pub reparked : Bool
  pub changed : Bool

pub record Policy : Type 0 where
  pub config : Config
  pub state : State
  pub last_clean : Option ℕ

abbrev pub unchanged : Changes
unchanged = record { mode_changed = none; reparked = false; changed = false }

abbrev pub changed_from : Mode → Changes
changed_from m = record { mode_changed = some m; reparked = false; changed = true }

abbrev pub or_normal : Mode → Mode
or_normal (other t) = if str_eq t "" then normal else other t
or_normal m = m

abbrev or_operator : Source → Source
or_operator no_source = by_operator
or_operator s = s

-- `New`: an empty mode is normal and an empty source the operator's.
unfoldable pub new : Config → State → Policy
new c s = record {
  config = c;
  state = record s {
    mode = or_normal s.mode;
    source = or_operator s.source;
    acked = sort_texts s.acked;
    dismissed = sort_texts s.dismissed;
  };
  last_clean = none;
}

-- `contains`: sort.SearchStrings finds the first text that is not smaller.
unfoldable pub contains : List String → String → Bool
contains [] v = false
contains (x ∷ xs) v = if precedes v x then str_eq x v else contains xs v

-- `insert`
unfoldable pub insert : List String → String → List String
insert [] v = v ∷ []
insert (x ∷ xs) v = if precedes v x then v ∷ x ∷ xs else x ∷ insert xs v

-- `prune`
unfoldable pub prune : List String → (String → Bool) → List String
prune [] keep = []
prune (v ∷ s) keep = let rest = prune s keep in if keep v then v ∷ rest else rest

abbrev pub is_normal : Mode → Bool
is_normal normal = true
is_normal m = false

abbrev pub auto_storm : Mode → Source → Bool
auto_storm storm by_automation = true
auto_storm m s = false

abbrev pub is_auto_storm : State → Bool
is_auto_storm s = auto_storm s.mode s.source

abbrev pub bumped : ℕ → ℕ
bumped n = (n + 1) % 2 ^ 64

-- `enter`
unfoldable pub enter : Policy → Mode → Source → ℕ → String → Policy
enter p m src now reason = record p {
  state = record p.state {
    mode = m;
    source = src;
    since = now;
    reason = reason;
    seq = if is_normal m then p.state.seq else bumped p.state.seq;
    quiet_for = 0;
  };
  last_clean = none;
}

-- The warnings that are not in the set join it, in the order of the list; how many did.
unfoldable pub acknowledge : List Warning → List String → List String
acknowledge [] set = set
acknowledge (w ∷ ws) set = acknowledge ws (if contains set w.id then set else insert set w.id)

unfoldable pub count_new : List Warning → List String → ℕ
count_new [] set = 0
count_new (w ∷ ws) set =
    let known = contains set w.id in
    (if known then 0 else 1) + count_new ws (if known then set else insert set w.id)

abbrev pub same_mode : Mode → Mode → Bool
same_mode m n = str_eq (mode_text m) (mode_text n)
