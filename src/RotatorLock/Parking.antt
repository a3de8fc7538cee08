-- ===== src/RotatorLock/Parking.antt =====
-- wrc-rotator-bridge/internal/lock/gate.go: park once, and a stop that wins.
use station_a.Base.{
  Degrees, ℕ, String, true, false, not, ◌&&◌, ◌==◌, ◌≢◌, ◌⊎◌, inl, inr, Bool-cases, Option, none,
  some, ◌∷◌, ℤ, ◌≡◌, refl, ap, ◌∙◌, arith, eqb_ℤ, str_eq, eq_refl, Result, ok, err, if◌then◌else◌,
}
use station_a.AntMode as AntMode
use station_a.AntMode.{lock_of, mode_text}
use station_a.RotatorLock.Types.{
  Angles, Park, Outcome, ParkRecord, halt, World, Gate, Telemetry, no_park, same_az, same_mode,
  matches,
}
use station_a.RotatorLock.Acting.{
  tell, finish, save, start_hold, persist_to, new_park, park_for, applied, apply, watched, observe,
  ready, step_start, target, step_finish, take_over, set_az, jog_dir, set_az_override, stopped,
  stop,
}

-- The park of the lock was sent and is not done.
abbrev pub Underway : Gate → Type 0
Underway g = (AntMode.locked g.st ≡ true) × (g.park.sent ≡ true) × (g.park.done ≡ false)

-- The lock a payload carries, if it is well formed, is the lock of the current park.
abbrev pub SameLock : AntMode.Payload → Gate → Type 0
SameLock payload g =
    (st : AntMode.State)
    → AntMode.parse payload ≡ ok st
    → (AntMode.locked st ≡ true)
      × ((lock_of st).seq ≡ g.park.seq)
      × (same_az (lock_of st).park_az g.park.az ≡ true)

module _ ⦃an : Angles⦄ where
  -- One operation of the gate while one lock lasts. A `Step` begins no write while one is
  -- in flight, and the world may change at any time.
  pub data Acts : Gate → Gate → Type 0 where
    applies : {g : Gate} (payload : AntMode.Payload) → SameLock payload g → Acts g (apply payload g)
    observes : {g : Gate} (t : Telemetry) → Acts g (observe t g)
    starts : {g : Gate} → g.writing ≡ none → Acts g (step_start g)
    finishes : {g : Gate} (p : Park) → g.writing ≡ some p → Acts g (step_finish p g)
    sets_az : {g : Gate} (az : Degrees) → Acts g (set_az az g).1
    jogs : {g : Gate} (dir : String) → Acts g (jog_dir dir g).1
    overrides :
        {g : Gate} (az : Degrees) (override : String) → Acts g (set_az_override az override g).1
    stops : {g : Gate} → Acts g (stop g).1
    holds : {g : Gate} → Acts g (start_hold g)
    turns : {g : Gate} (w : World) → Acts g (record g { world = w })

  -- Any number of operations, the first at the left.
  pub data History : Gate → Gate → Type 0 where
    stays : {g : Gate} → History g g
    first : {g h k : Gate} → Acts g h → History h k → History g k

  abbrev pub Over : Gate → Type 0
  Over g = (g.park.done ≡ true) × (g.writing ≡ none)

  -- A state of the lock that the park is of leaves the park as it is.
  park_for-same :
      (g : Gate) (st : AntMode.State)
      → AntMode.locked st ≡ true
      → (lock_of st).seq ≡ g.park.seq
      → same_az (lock_of st).park_az g.park.az ≡ true
      → park_for g st ≡ g.park
  unfolding park_for
  park_for-same g st l e a = ground arith

  apply-Over :
      (g : Gate) (payload : AntMode.Payload) → SameLock payload g → Over g → Over (apply payload g)
  unfolding apply applied
  apply-Over g payload same (d, w) = kept (AntMode.parse payload) same
    where
      kept :
          (r : Result AntMode.Malformed AntMode.State)
          → ((st : AntMode.State)
              → r ≡ ok st
              → (AntMode.locked st ≡ true)
                × ((lock_of st).seq ≡ g.park.seq)
                × (same_az (lock_of st).park_az g.park.az ≡ true))
          → Over (elim r [ ok st ↦ applied st g | err e ↦ g ])
      kept (err e) f = (d, w)
      kept (ok st) f =
          let (l, e, a) = f st refl in (ap (λ p. p.done) (park_for-same g st l e a) ∙ d, w)

  observe-Over : (g : Gate) (t : Telemetry) → Over g → Over (observe t g)
  unfolding observe watched save finish
  observe-Over g t (d, w) = (ground arith, ground arith)

  step_start-Over : (g : Gate) → Over g → Over (step_start g)
  unfolding step_start ready
  step_start-Over g (d, w) = (ground arith, ground arith)

  set_az_override-Over :
      (g : Gate) (az : Degrees) (override : String)
      → Over g
      → Over (set_az_override az override g).1
  unfolding set_az_override set_az take_over tell
  set_az_override-Over g az override (d, w) = (ground arith, ground arith)

  Acts-Over : {g h : Gate} → Acts g h → Over g → Over h
  unfolding set_az jog_dir tell stop stopped start_hold
  Acts-Over (applies {g} payload same) o = apply-Over g payload same o
  Acts-Over (observes {g} t) o = observe-Over g t o
  Acts-Over (starts {g} e) o = step_start-Over g o
  Acts-Over (finishes p e) (d, w) = (ground arith, ground arith)
  Acts-Over (sets_az az) (d, w) = (ground arith, ground arith)
  Acts-Over (jogs dir) (d, w) = (ground arith, ground arith)
  Acts-Over (overrides {g} az override) o = set_az_override-Over g az override o
  Acts-Over stops (d, w) = (ground arith, ground arith)
  Acts-Over holds (d, w) = (ground arith, ground arith)
  Acts-Over (turns w) o = o

  -- Once the park of a lock is done and no write of it is in flight, no history of operations
  -- under that lock begins another one: the park stays done, and nothing is written.
  pub park_once :
      {g h : Gate}
      → History g h
      → g.park.done ≡ true
      → g.writing ≡ none
      → (h.park.done ≡ true) × (h.writing ≡ none)
  park_once stays d w = (d, w)
  park_once (first a rest) d w = let (e, v) = Acts-Over a (d, w) in park_once rest e v

  -- What a stop does to the park: nothing if none is under way; else it ends it as
  -- cancelled, and `p`, if its write for that park is still in flight, is followed by another halt.
  abbrev pub Ended : Gate → Park → Type 0
  Ended g p =
      (¬ Underway g × ((stop g).1.park ≡ g.park))
      ⊎ (Underway g
          × ((stop g).1.park.done ≡ true)
          × ((stop g).1.park.cancelled ≡ true)
          × ((p.seq ≢ g.park.seq)
              ⊎ ((step_finish p (stop g).1).told ≡ (
                  if g.world.device_fails
                  then target p.az (halt ∷ g.told)
                  else halt ∷ target p.az (halt ∷ g.told)))))

  stop-halts :
      (g : Gate) (p : Park)
      → Underway g
      → p.seq ≡ g.park.seq
      → (step_finish p (stop g).1).told ≡ (
          if g.world.device_fails
          then target p.az (halt ∷ g.told)
          else halt ∷ target p.az (halt ∷ g.told))
  unfolding stop stopped tell finish save step_finish
  stop-halts g p (l, s, d) e = ground arith

  stop-Ended : (g : Gate) (p : Park) → Ended g p
  unfolding stop stopped tell finish save
  stop-Ended g p = elim (Bool-cases (AntMode.locked g.st && (g.park.sent && not g.park.done))) [
    | inr n ↦ inl ((λ (l, s, d). ground arith), ground arith)
    | inl u ↦
        let under : Underway g = (ground arith, ground arith, ground arith) in
        inr (
          under,
          ground arith,
          ground arith,
          elim (Bool-cases (p.seq == g.park.seq)) [
            | inl e ↦ inr (stop-halts g p under (ground arith))
            | inr e ↦ inl (λ q. ground arith)
          ],
        )
  ]

  -- A stop is always told to the device, locked or not, and its answer is the device's. If
  -- a park is under way the stop ends it as cancelled: while the write of that park is still
  -- in flight, its end tells the device to stop again, so the last that an answering device
  -- is told is to halt. Else the park is as it was.
  pub stop-step_finish :
      (g : Gate) (p : Park)
      → ((stop g).1.told ≡ halt ∷ g.told) × ((stop g).0 ≡ (tell halt g).0) × Ended g p
  unfolding stop stopped tell finish save
  stop-step_finish g p = (ground arith, ground arith, stop-Ended g p)

-- What the file holds when the bridge starts again.
abbrev pub reload : Option ParkRecord → Option (Option ParkRecord)
reload none = none
reload (some r) = some (some r)

same_mode_self : (m : AntMode.Mode) → same_mode m m ≡ true
same_mode_self m = eq_refl (mode_text m)

eqb_ℤ_self : (a : ℤ) → eqb_ℤ a a ≡ true
eqb_ℤ_self (ℤ.pos n) = ground arith
eqb_ℤ_self (ℤ.negsuc n) = ground arith

same_az_self : (o : Option ℤ) → same_az o o ≡ true
unfolding same_az
same_az_self none = refl
same_az_self (some a) = eqb_ℤ_self a

-- A park that nothing is left to send of.
abbrev pub over_park : ℕ → ℤ → Park
over_park n az = record {
  seq = n;
  az = some az;
  sent = true;
  arrived = false;
  cancelled = false;
  done = true;
}

park_for-matches :
    (g : Gate) (az : ℤ) (st : AntMode.State)
    → g.park ≡ no_park
    → AntMode.locked st ≡ true
    → (lock_of st).park_az ≡ some az
    → matches g.finished st.mode (lock_of st) ≡ true
    → park_for g st ≡ over_park (lock_of st).seq az
unfolding park_for new_park same_az
park_for-matches g az st e l a m =
    let n : g.park.az ≡ none = ap (λ p. p.az) e in
    let differs : same_az (lock_of st).park_az g.park.az ≡ false = rw (a, n) refl in ground arith

finished-matches :
    (o : Outcome) (g : Gate) (az : ℤ) (mode : AntMode.Mode) (lk : AntMode.Lock)
    → g.park.az ≡ some az
    → mode ≡ g.st.mode
    → lk.seq ≡ g.park.seq
    → lk.park_az ≡ some az
    → matches (finish o g).finished mode lk ≡ true
unfolding matches finish
finished-matches o g az mode lk a m e b =
    let s : same_mode g.st.mode mode ≡ true = rw m (same_mode_self g.st.mode) in
    let z = eqb_ℤ_self az in ground arith

-- A finished park of an azimuth that a gate with a writable state file recorded is over in a
-- gate that starts from that file and is told of the same lock.
pub finish-persist_to :
    (o : Outcome) (g fresh : Gate) (az : ℤ) (st : AntMode.State)
    → str_eq g.state_path "" ≡ false
    → g.world.write_fails ≡ false
    → g.park.az ≡ some az
    → fresh.park ≡ no_park
    → AntMode.locked st ≡ true
    → st.mode ≡ g.st.mode
    → (lock_of st).seq ≡ g.park.seq
    → (lock_of st).park_az ≡ some az
    → (applied st (persist_to g.state_path (reload (save (finish o g)).file) fresh)).park
      ≡ over_park g.park.seq az
unfolding applied save finish persist_to
finish-persist_to o g fresh az st pth w a f l m e b =
    let r = (finish o g).finished in
    let saved : (save (finish o g)).file ≡ some r = ground arith in
    let over =
      park_for-matches (persist_to g.state_path (some (some r)) fresh) az st f l b
        (finished-matches o g az st.mode (lock_of st) a m e b) in
    let to = ap (λ n. over_park n az) e in rw saved (over ∙ to)
