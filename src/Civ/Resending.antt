-- ===== src/Civ/Resending.antt =====
-- icom9700-radio-bridge/internal/civ/seq.go: a packet that was sent can be sent again.
use station_a.Base.{ℕ, ◌+◌, some, List, [], ◌∷◌, ◌++◌, ◌≡◌, refl, arith, ltb, if-both, if-cases}
use station_a.Civ.Sent.{TxEntry, TxBuf, purged, purge, keep, newest_of, get}

newest_of-append :
    (seq at : ℕ) (bytes : List ℕ) (es : List TxEntry)
    → newest_of seq (es ++ record { seq = seq; bytes = bytes; at = at } ∷ []) ≡ some bytes
unfolding newest_of
newest_of-append seq at bytes [] = ground arith
newest_of-append seq at bytes (e ∷ es) = rw (newest_of-append seq at bytes es) refl

-- What was sent last survives a purge at once.
newest_of-purged :
    (now retention seq : ℕ) (bytes : List ℕ) (es : List TxEntry)
    → newest_of seq
        (purged now retention (es ++ record { seq = seq; bytes = bytes; at = now } ∷ []))
      ≡ some bytes
unfolding purged
newest_of-purged now retention seq bytes [] =
    if-cases (λ l. newest_of seq l ≡ some bytes) (ltb (now + retention) now) (λ h. ground arith)
      (λ h. newest_of-append seq now bytes [])
newest_of-purged now retention seq bytes (e ∷ es) =
    if-both (λ l. newest_of seq l ≡ some bytes) (ltb (e.at + retention) now)
      (newest_of-purged now retention seq bytes es) (newest_of-append seq now bytes (e ∷ es))

-- A packet that was just sent is found by its number, whatever was sent before, and finding it
-- changes nothing.
pub get-keep :
    (now later seq : ℕ) (bytes : List ℕ) (b : TxBuf)
    → get later seq (keep now seq bytes b) ≡ (some bytes, keep now seq bytes b)
unfolding get keep purge
get-keep now later seq bytes b = rw (newest_of-purged now b.retention seq bytes b.entries) refl
