-- ===== src/Civ/Sent.antt =====
-- icom9700-radio-bridge/internal/civ/seq.go: the buffer of sent packets, kept for retransmission.
use station_a.Base.{
  ℕ, ◌+◌, Option, none, some, List, [], ◌∷◌, ◌++◌, ◌==◌, ltb, is_some, if◌then◌else◌,
}

-- `txEntry`
pub record TxEntry : Type 0 where
  pub seq : ℕ
  pub bytes : List ℕ
  pub at : ℕ

-- `txSeqBuf`, the oldest entry first.
pub record TxBuf : Type 0 where
  pub retention : ℕ
  pub entries : List TxEntry

-- The loop of `purge`: the entries older than the retention go, from the oldest on.
unfoldable pub purged : ℕ → ℕ → List TxEntry → List TxEntry
purged now retention [] = []
purged now retention (e ∷ es) =
    let rest = purged now retention es in if ltb (e.at + retention) now then rest else e ∷ es

-- `purge`
unfoldable pub purge : ℕ → TxBuf → TxBuf
purge now b = record b { entries = purged now b.retention b.entries }

-- `add`
unfoldable pub keep : ℕ → ℕ → List ℕ → TxBuf → TxBuf
keep now seq bytes b =
    purge now
      (record b { entries = b.entries ++ record { seq = seq; bytes = bytes; at = now } ∷ [] })

-- The loop of `get`, which finds the newest.
unfoldable pub newest_of : ℕ → List TxEntry → Option (List ℕ)
newest_of seq [] = none
newest_of seq (e ∷ es) =
    let later = newest_of seq es in
    if is_some later then later else if e.seq == seq then some e.bytes else none

-- `get`
unfoldable pub get : ℕ → ℕ → TxBuf → Option (List ℕ) × TxBuf
get now seq b =
    let found = newest_of seq b.entries in (found, if is_some found then b else purge now b)
