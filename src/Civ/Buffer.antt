-- ===== src/Civ/Buffer.antt =====
-- icom9700-radio-bridge/internal/civ/seq.go: the buffer that reorders received packets.
-- Sequence numbers are 16-bit; times are nanoseconds.
use station_a.Base.{
  ℕ, zero, suc, ◌+◌, ◌-◌, ◌%◌, Bool, true, false, not, ◌&&◌, ◌||◌, Option, none, some, List, [],
  ◌∷◌, reverse, ◌==◌, ltb, leb, if◌then◌else◌,
}

-- `seqCmp`
pub data SeqCmp : Type 0 where
  larger smaller equal : SeqCmp

-- `seqCompare`; the distances wrap.
unfoldable pub seq_compare : ℕ → ℕ → SeqCmp
seq_compare seq to =
    let forward = (seq + (65536 - to)) % 65536 in
    let backward = (to + (65536 - seq)) % 65536 in
    if forward == backward then equal else if ltb backward forward then smaller else larger

abbrev pub is_larger : SeqCmp → Bool
is_larger larger = true
is_larger c = false

-- `rxEntry`
pub record Entry : Type 0 where
  pub seq : ℕ
  pub bytes : List ℕ

-- `rxSeqBuf`. The newest entry is the first; `ready` is whether the channel holds a token, and
-- `ignore_until` stands for ignoreUntilSet too.
pub record RxBuf : Type 0 where
  pub wait_for : ℕ
  pub ready : Bool
  pub entries : List Entry
  pub returned_first : Bool
  pub last_returned : ℕ
  pub locked : Bool
  pub locked_at : ℕ
  pub requested : Bool
  pub requested_range : ℕ × ℕ
  pub ignore_until : Option ℕ
  pub max_entries : ℕ

-- `newRxSeqBuf`; a maximum that is not positive is 512.
unfoldable pub new_buf : ℕ → ℕ → RxBuf
new_buf wait max_entries = record {
  wait_for = wait;
  ready = false;
  entries = [];
  returned_first = false;
  last_returned = 0;
  locked = false;
  locked_at = 0;
  requested = false;
  requested_range = (0, 0);
  ignore_until = none;
  max_entries = if max_entries == 0 then 512 else max_entries;
}

-- `trim`
unfoldable pub trim : ℕ → List Entry → List Entry
trim n [] = []
trim zero (e ∷ es) = []
trim (suc n) (e ∷ es) = e ∷ trim n es

-- The loop of `add` behind the newest entry, and whether it ran to the back.
unfoldable pub place : Entry → List Entry → List Entry
place e [] = e ∷ []
place e (x ∷ xs) =
    let rest = place e xs in
    if x.seq == e.seq
    then x ∷ xs
    else if is_larger (seq_compare e.seq x.seq)
    then e ∷ x ∷ xs
    else x ∷ rest

unfoldable pub at_back : Entry → List Entry → Bool
at_back e [] = true
at_back e (x ∷ xs) =
    let rest = at_back e xs in
    not (x.seq == e.seq) && (not (is_larger (seq_compare e.seq x.seq)) && rest)

unfoldable pub added : Entry → List Entry → RxBuf → RxBuf
added e [] b = record b { entries = e ∷ [] }
added e (x ∷ xs) b =
    if x.seq == e.seq
    then b
    else if is_larger (seq_compare e.seq x.seq)
    then record b { entries = trim b.max_entries (e ∷ x ∷ xs) }
    else record b { entries = x ∷ place e xs; ready = b.ready || at_back e xs }

-- `add`
unfoldable pub add : Entry → RxBuf → RxBuf
add e b = added e b.entries b

-- `gotRange`, from the oldest entry on.
unfoldable pub got_from : ℕ → ℕ → List Entry → Bool
got_from s end [] = false
got_from s end (e ∷ es) =
    let rest = got_from ((s + 1) % 65536) end es in
    if not (e.seq == s) then false else s == end || rest

unfoldable pub got_range : RxBuf → Bool
got_range b = got_from b.requested_range.0 b.requested_range.1 (reverse b.entries)

-- The oldest entry and those before it.
unfoldable pub oldest : List Entry → Option (List Entry × Entry)
oldest [] = none
oldest (e ∷ es) = elim (oldest es) [ none ↦ some ([], e) | some p ↦ some (e ∷ p.0, p.1) ]

-- What `next` answers: an entry, or none (to be asked again after the delay, if it waits).
pub data Answer : Type 0 where
  delivered : Entry → Answer
  empty out_of_order waits : Answer

-- Asking the radio for a range: whether that was sent.
pub record Radio : Type 0 where
  pub request : ℕ → ℕ → Bool

-- `lockTimedOut`: the buffer once the lock has lasted.
abbrev pub lasted : ℕ → RxBuf → Bool
lasted now b = leb (b.locked_at + b.wait_for) now

unfoldable pub timed_out : RxBuf → RxBuf
timed_out b = record b {
  locked = false;
  ignore_until = if b.requested then some b.requested_range.1 else b.ignore_until;
}

-- Inside a gap that is skipped.
abbrev pub is_skipped : Option ℕ → ℕ → Bool
is_skipped none seq = false
is_skipped (some u) seq = not (is_larger (seq_compare seq u))

unfoldable pub deliver : Entry → List Entry → RxBuf → Answer × RxBuf
deliver e rest b =
    (delivered e, record b { last_returned = e.seq; returned_first = true; entries = rest })

module _ ⦃radio : Radio⦄ where
  -- A gap: the buffer is locked and the missing range asked for.
  unfoldable pub gapped : ℕ → ℕ → ℕ → RxBuf → RxBuf
  gapped now from to b = record b {
    locked = true;
    locked_at = now;
    ignore_until = none;
    requested_range = (from, to);
    requested = radio.request from to;
  }

  unfoldable pub next_unlocked : ℕ → Entry → List Entry → RxBuf → Answer × RxBuf
  next_unlocked now e rest b =
      let want = (b.last_returned + 1) % 65536 in
      if not (is_larger (seq_compare e.seq b.last_returned))
      then (out_of_order, record b { entries = rest })
      else if is_skipped b.ignore_until e.seq || e.seq == want
      then deliver e rest b
      else (waits, gapped now want ((e.seq + 65535) % 65536) b)

  unfoldable pub next_locked : ℕ → Entry → List Entry → RxBuf → Answer × RxBuf
  next_locked now e rest b =
      if b.requested && got_range b
      then deliver e rest (record b { locked = false })
      else if lasted now b
      then deliver e rest (timed_out b)
      else (waits, b)

  unfoldable pub next_of : ℕ → Option (List Entry × Entry) → RxBuf → Answer × RxBuf
  next_of now none b = (empty, b)
  next_of now (some (rest, e)) b =
      if not b.returned_first
      then deliver e rest b
      else if b.locked
      then next_locked now e rest b
      else next_unlocked now e rest b

  -- `next`
  unfoldable pub next : ℕ → RxBuf → Answer × RxBuf
  next now b = next_of now (oldest b.entries) b
