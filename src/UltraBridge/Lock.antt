-- ===== src/UltraBridge/Lock.antt =====
-- ultrabridge/internal/ub/service/lock.go, persist.go and state.go: the antenna-mode lock of the
-- controller and the retract latch. Times are nanoseconds; the zero time is 0.
use station_a.Base.{
  ℕ, ◌+◌, String, Bool, true, false, not, ◌&&◌, ◌||◌, Option, none, some, List, [], ◌==◌, ltb,
  str_eq, if◌then◌else◌, ok, err,
}
use station_a.AntMode as AntMode
use station_a.AntMode.{lock_of, label}

-- `retractSettle`: two seconds.
abbrev pub retract_settle : ℕ
retract_settle = 2000000000

-- The errors of the controller; a reply holds its command byte, a short one its length.
pub data Fault : Type 0 where
  locked rejected unknown_frequency : Fault
  line : String → Fault
  reply : ℕ → Fault
  short : ℕ → Fault
  bad_mode : String → Fault

-- service.State, but for its time and its band name, which nothing reads, and the lock's part.
pub record Antenna : Type 0 where
  pub frequency_khz : ℕ
  pub band_index : ℕ
  pub mode_name : String
  pub motors_moving : Bool
  pub motor_bits : ℕ
  pub offline : Bool
  pub last_error : String
  pub retracted : Bool

-- `lockState`
pub record LockState : Type 0 where
  pub st : AntMode.State
  pub seen : Bool
  pub hold_until : ℕ
  pub have_seq : Bool
  pub seq : ℕ
  pub retract : Bool
  pub pending : Bool
  pub sent : Bool
  pub sent_at : ℕ
  pub done : Bool

-- `latchRecord`
pub record Latch : Type 0 where
  pub retracted : Bool
  pub extend_due : Bool

-- `Controller`. `kick` is whether the channel holds a token, `file` the latch file on disk,
-- and `asked` what the device was asked, command and payload, the newest first.
pub record Controller : Type 0 where
  pub state : Antenna
  pub extend_due : Bool
  pub latch_path : String
  pub lk : LockState
  pub kick : Bool
  pub file : Option Latch
  pub file_fails : Bool
  pub asked : List (ℕ × List ℕ)

abbrev pub no_antenna : Antenna
no_antenna = record {
  frequency_khz = 0;
  band_index = 0;
  mode_name = "";
  motors_moving = false;
  motor_bits = 0;
  offline = false;
  last_error = "";
  retracted = false;
}

abbrev no_lock : LockState
no_lock = record {
  st = record { mode = AntMode.Mode.other ""; lock = none; power_hold = false };
  seen = false;
  hold_until = 0;
  have_seq = false;
  seq = 0;
  retract = false;
  pending = false;
  sent = false;
  sent_at = 0;
  done = false;
}

-- `NewController`
unfoldable pub new_controller : Controller
new_controller = record {
  state = no_antenna;
  extend_due = false;
  latch_path = "";
  lk = no_lock;
  kick = false;
  file = none;
  file_fails = false;
  asked = [];
}

-- `SetLockHold`
unfoldable pub set_lock_hold : ℕ → ℕ → Controller → Controller
set_lock_hold now d c = record c { lk = record c.lk { hold_until = now + d } }

-- `PersistTo`, by what reading the file gives: no file, an unreadable one, or a record.
unfoldable pub persist_to : String → Option (Option Latch) → Controller → Controller
persist_to path (some (some r)) c = record c {
  latch_path = path;
  state = record c.state { retracted = r.retracted };
  extend_due = r.extend_due || r.retracted;
}
persist_to path content c = record c { latch_path = path }

abbrev same_bit : Bool → Bool → Bool
same_bit true b = b
same_bit false b = not b

-- `updateLatch` to the values given; a change is saved (`saveLatch`).
unfoldable pub update_latch : Bool → Bool → Controller → Controller
update_latch r e c =
    let changed = not (same_bit r c.state.retracted) || not (same_bit e c.extend_due) in
    record c {
      state = record c.state { retracted = r };
      extend_due = e;
      file =
          if changed && (not (str_eq c.latch_path "") && not c.file_fails)
          then some (record { retracted = r; extend_due = e })
          else c.file;
    }

-- The bookkeeping of a lock that was read.
unfoldable pub locked_by : AntMode.Lock → LockState → LockState
locked_by l k =
    let fresh = not k.have_seq || not (l.seq == k.seq) in
    let now = l.retract && (fresh || not k.retract) in
    record k {
      done = k.done && (not (fresh || not l.retract) && not now);
      pending = k.pending || now;
      sent = k.sent && not now;
      have_seq = true;
      seq = l.seq;
      retract = l.retract;
    }

unfoldable pub unlocked : LockState → LockState
unlocked k = record k {
  have_seq = false;
  seq = 0;
  retract = false;
  pending = false;
  sent = false;
  done = false;
}

-- The part of `ApplyAntMode` after the payload was read.
unfoldable pub applied : AntMode.State → Controller → Controller
applied st c =
    let l = lock_of st in
    let k = record c.lk { st = st; seen = true } in
    let now =
      AntMode.locked st
      && (l.retract && ((not k.have_seq || not (l.seq == k.seq)) || not k.retract)) in
    record c {
      lk = if AntMode.locked st then locked_by l k else unlocked k;
      kick = c.kick || (not (str_eq (label st) (label c.lk.st)) || now);
    }

-- `ApplyAntMode`; a malformed payload is dropped.
unfoldable pub apply_ant_mode : AntMode.Payload → Controller → Controller
apply_ant_mode payload c = elim (AntMode.parse payload) [ ok st ↦ applied st c | err e ↦ c ]

-- `lockView`
unfoldable pub lock_view : Controller → String × Option ℕ
lock_view c = (
  label c.lk.st,
  if c.lk.done && (AntMode.locked c.lk.st && (lock_of c.lk.st).retract)
      then some c.lk.seq
      else none,
)

-- `checkExtend`: whether an extend is refused.
unfoldable pub check_extend : ℕ → Controller → Bool
check_extend now c = (not c.lk.seen && ltb now c.lk.hold_until) || AntMode.locked c.lk.st

-- `deviceBackOnline`
unfoldable pub device_back_online : Controller → Controller
device_back_online c =
    if AntMode.locked c.lk.st && (lock_of c.lk.st).retract
    then update_latch false c.extend_due
        (record c { lk = record c.lk { pending = true; sent = false; done = false } })
    else c
