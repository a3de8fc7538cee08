-- ===== src/AntModeEngine/Borrowing.antt =====
-- antmode/internal/engine/engine.go: the borrow of antenna power.
use station_a.Base.{
  ℕ, ◌+◌, String, Bool, true, false, not, ◌&&◌, ◌||◌, Option, none, some, str_eq, ltb, is_some,
  if◌then◌else◌,
}
use station_a.AntMode.{Lock}
use station_a.AntModeEngine.Types.{
  Phase, awaiting_power, failed, seconds, live, Borrow, file_saved, power_set, Engine, Outside,
}
use station_a.AntModeEngine.Parking.{set_phase, is_storm}
use station_a.AntModeEngine.Publishing.{persisted, is_over, succeeded, attempt, publish_state}

-- `pwrOn`
unfoldable pub pwr_on : Engine → Bool
pwr_on e = live e.pwr && str_eq e.pwr.power "on"

-- The powerseq phases in which a borrow may start.
abbrev pub is_stable : String → Bool
is_stable phase = str_eq phase "idle" || (str_eq phase "standby" || str_eq phase "running")

abbrev pub lock_seq : Option Lock → ℕ
lock_seq none = 0
lock_seq (some l) = l.seq

abbrev pub mark_sent : Option Borrow → Option Borrow
mark_sent none = none
mark_sent (some b) = some (record b { sent = true })

abbrev pub mark_restore : Option Borrow → Option Borrow
mark_restore none = none
mark_restore (some b) = some (record b { restore = true })

-- `deEnergised`
abbrev pub de_energised : String → Bool
de_energised phase = str_eq phase "idle" || str_eq phase "standby"

-- The conditions of `startBorrowIfNeeded`.
unfoldable pub may_borrow : Engine → Bool
may_borrow e =
    e.cfg.borrow
    && (not (is_some e.borrow)
        && (live e.pwr && (str_eq e.pwr.power "off" && (e.seq_status && is_stable e.seq_phase))))

-- A borrow that was just decided, and the phase that goes with it.
unfoldable pub decided : Engine → Engine
decided e = record e {
  borrow = some (record {
    restore_to = "off";
    power_seq_phase = e.seq_phase;
    since = e.now;
    sent = false;
    restore = false;
    taken_over = false;
  });
  borrow_seq = lock_seq e.lock;
  fault = "";
}

unfoldable pub borrowing : Engine → Engine
borrowing e = set_phase awaiting_power (decided e)

-- An open borrow joins a new lock.
unfoldable pub rejoin : Borrow → Engine → Engine
rejoin b e =
    let joined = record e {
      borrow = some (record b { restore = false; sent = b.sent && pwr_on e });
      borrow_seq = lock_seq e.lock;
    } in
    if pwr_on e then joined else record (set_phase awaiting_power joined) { borrow_clock = e.now }

-- powerseq runs an operator-driven phase other than that of the borrow.
abbrev pub takes_over : Borrow → Engine → Bool
takes_over b e =
    e.seq_status
    && (not (str_eq e.seq_phase "")
        && (not (str_eq e.seq_phase b.power_seq_phase) && not (de_energised e.seq_phase)))

abbrev pub is_failed : Phase → Bool
is_failed failed = true
is_failed p = false

-- A failed park that still slews keeps its power for a while.
abbrev pub still_slewing : Engine → Bool
still_slewing e =
    is_failed e.phase
    && (live e.rot && (e.rot.moving && ltb e.now (e.phase_since + seconds e.cfg.rotate_timeout_s)))

abbrev pub is_due : Borrow → Engine → Bool
is_due b e = b.restore || (is_storm e.pol.state.mode && is_over e.phase)

module _ ⦃out : Outside⦄ where
  -- `sendPowerOn`
  unfoldable pub send_power_on : Engine → Engine
  send_power_on e =
      if succeeded e
      then record (attempt (power_set "on") e) { borrow = mark_sent e.borrow }
      else attempt (power_set "on") e

  -- A borrow whose `restore_to` was saved goes on, any other is undone.
  unfoldable pub borrow_saved : Engine → Engine → Engine
  borrow_saved e b =
      let s = attempt (file_saved (persisted b)) b in
      if succeeded b
      then send_power_on
          (publish_state false (record s { last_persisted = none; borrow_clock = e.now }))
      else set_phase e.phase
          (record s { borrow = none; fault = e.fault; borrow_seq = e.borrow_seq })

  -- `startBorrowIfNeeded`
  unfoldable pub start_borrow : Engine → Engine
  start_borrow e = if may_borrow e then borrow_saved e (borrowing e) else e

  -- `attachBorrow`
  unfoldable pub attach_borrow : Engine → Engine
  attach_borrow e = elim e.borrow [
    | none ↦ start_borrow e
    | some b ↦ if b.taken_over then start_borrow (record e { borrow = none }) else rejoin b e
  ]

  -- The end of a borrow that is due.
  unfoldable pub give_back : Borrow → Engine → Engine
  give_back b e =
      if b.taken_over
      then record e { borrow = none }
      else if not e.seq_status || str_eq e.seq_phase ""
      then e
      else if succeeded e
      then record (attempt (power_set b.restore_to) e) { borrow = none }
      else attempt (power_set b.restore_to) e

  unfoldable pub settle_borrow : Borrow → Engine → Engine
  settle_borrow b e =
      if not (is_due b e) || (not b.restore && still_slewing e) then e else give_back b e

  -- `stepBorrow`
  unfoldable pub step_borrow : Engine → Engine
  step_borrow e = elim e.borrow [
    | none ↦ e
    | some b ↦
        let c = record b { taken_over = b.taken_over || takes_over b e } in
        settle_borrow c (record e { borrow = some c })
  ]
