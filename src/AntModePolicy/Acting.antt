-- ===== src/AntModePolicy/Acting.antt =====
-- antmode/internal/policy/policy.go: the operations of the policy.
use station_a.AntMode.{Mode, normal, storm, is_valid, mode_text}
use station_a.Base.{
  ℕ, ◌+◌, ◌-◌, String, map, Bool, true, false, not, ◌&&◌, ◌||◌, Option, none, some, List, [], ◌∷◌,
  ltb, leb, ◌==◌, length, contains as has, str_append, join, if◌then◌else◌, Result, ok, err,
}
use station_a.AntModePolicy.Types.{
  Presence, Format, Warning, State, Changes, Policy, unchanged, changed_from, contains, prune,
  is_normal, is_auto_storm, bumped, enter, acknowledge, count_new, same_mode, by_operator,
  by_automation, manned, unmanned,
}

-- `SetMode`
unfoldable pub set_mode :
    ⦃f : Format⦄ → Mode → ℕ → List Warning → Policy → Result Mode (Policy × Changes)
set_mode ⦃f⦄ m now active p =
    let operator = str_append "operator: " (mode_text m) in
    let n = count_new active p.state.acked in
    let noted =
      str_append operator
        (str_append " (acknowledged " (str_append (f.decimal n) " active warning(s))")) in
    if not (is_valid m)
    then err m
    else if same_mode m p.state.mode
    then ok (p, unchanged)
    else if is_normal m
    then ok (
      enter (record p { state = record p.state { acked = acknowledge active p.state.acked } }) m
          by_operator now (if ltb 0 n then noted else operator),
      changed_from p.state.mode,
    )
    else ok (enter p m by_operator now operator, changed_from p.state.mode)

-- `Repark`
unfoldable pub repark : Policy → Policy × Changes
repark p = if is_normal p.state.mode then (p, unchanged) else (
  record p { state = record p.state { seq = bumped p.state.seq; reason = "operator: repark" } },
  record { mode_changed = none; reparked = true; changed = true },
)

-- `Dismiss`
unfoldable pub dismiss : List Warning → Policy → Policy × Changes
dismiss active p = (
  record p { state = record p.state { dismissed = acknowledge active p.state.dismissed } },
  record {
    mode_changed = none;
    reparked = false;
    changed = ltb 0 (count_new active p.state.dismissed);
  },
)

abbrev pub id_of : Warning → String
id_of w = w.id

abbrev pub is_active : List Warning → String → Bool
is_active active v = has (map id_of active) v

abbrev pub pruned : List Warning → Policy → Policy
pruned active p = record p {
  state = record p.state {
    acked = prune p.state.acked (is_active active);
    dismissed = prune p.state.dismissed (is_active active);
  };
}

abbrev pub prunes : List Warning → State → Bool
prunes active s =
    not (length (prune s.acked (is_active active)) == length s.acked)
    || not (length (prune s.dismissed (is_active active)) == length s.dismissed)

-- now.After(lastClean) and what it adds.
abbrev pub elapsed : Option ℕ → ℕ → ℕ
elapsed none now = 0
elapsed (some t) now = if ltb t now then now - t else 0

abbrev pub is_nil : List Warning → Bool
is_nil [] = true
is_nil (w ∷ ws) = false

-- A quiet poll of a storm that automation entered.
unfoldable pub quiet_poll : ⦃f : Format⦄ → ℕ → Bool → Policy → Policy × Changes
quiet_poll ⦃f⦄ now was_changed p =
    let gained = elapsed p.last_clean now in
    let quiet = p.state.quiet_for + gained in
    let q = record p { state = record p.state { quiet_for = quiet }; last_clean = some now } in
    if leb p.config.exit_holdoff quiet
    then (
      enter q normal by_automation now
          (str_append "auto: no qualifying warning for " (f.duration p.config.exit_holdoff)),
      changed_from storm,
    )
    else (
      q,
      record { mode_changed = none; reparked = false; changed = was_changed || ltb 0 gained },
    )

-- `Poll`
unfoldable pub poll : ⦃f : Format⦄ → ℕ → Bool → List Warning → Policy → Policy × Changes
poll now success active p =
    let was_changed = prunes active p.state in
    let q = pruned active p in
    if not success
    then (record p { last_clean = none }, unchanged)
    else if not (is_auto_storm p.state)
    then (q, record { mode_changed = none; reparked = false; changed = was_changed })
    else if not (is_nil active)
    then (
      record q { state = record q.state { quiet_for = 0 }; last_clean = none },
      record {
        mode_changed = none;
        reparked = false;
        changed = was_changed || ltb 0 p.state.quiet_for;
      },
    )
    else quiet_poll now was_changed q

-- `unacked`
unfoldable pub unacked : List Warning → List String → List Warning
unacked [] acked = []
unacked (w ∷ ws) acked =
    let rest = unacked ws acked in if contains acked w.id then rest else w ∷ rest

-- `events`: the distinct events, in order.
distinct : List Warning → List String → List String
distinct [] seen = []
distinct (w ∷ ws) seen =
    let known = has seen w.event in
    let rest = distinct ws (if known then seen else w.event ∷ seen) in
    if known then rest else w.event ∷ rest

unfoldable pub events : List Warning → String
unfolding distinct
events ws = join ", " (distinct ws [])

abbrev pub is_unmanned : Presence → Bool
is_unmanned unmanned = true
is_unmanned manned = false

-- `Evaluate`
unfoldable pub evaluate : ℕ → List Warning → Presence → Bool → Policy → Policy × Changes
evaluate now active presence hold p =
    let fresh = unacked active p.state.acked in
    if hold
      || (not (is_normal p.state.mode) || (not (is_unmanned presence) || not p.config.auto_enter))
    then (p, unchanged)
    else if is_nil fresh
    then (p, unchanged)
    else (
      enter p storm by_automation now
          (str_append "auto: DWD " (str_append (events fresh) " active, station unmanned")),
      changed_from normal,
    )

abbrev undismissed : List Warning → List String → Bool
undismissed [] set = false
undismissed (w ∷ ws) set = not (contains set w.id) || undismissed ws set

-- `Suggested`
unfoldable pub suggested : List Warning → Presence → Policy → Bool
suggested active presence p =
    is_normal p.state.mode
    && (not (is_unmanned presence && p.config.auto_enter)
        && undismissed (unacked active p.state.acked) p.state.dismissed)

-- `SuggestReason`
unfoldable pub suggest_reason : List Warning → Presence → String
suggest_reason active presence = str_append "DWD " (
    str_append (events active) (
      str_append " active, station "
        (str_append (if is_unmanned presence then "unmanned" else "manned") ": storm suggested")))

-- `AutoExitAt`: a negative rest of the holdoff does not occur, since the storm has exited by then.
unfoldable pub auto_exit_at : Policy → Option ℕ
auto_exit_at p =
    if is_auto_storm p.state
    then elim p.last_clean [
      | none ↦ none
      | some t ↦ some (t + p.config.exit_holdoff - p.state.quiet_for)
    ]
    else none
