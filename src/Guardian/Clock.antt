-- ===== src/Guardian/Clock.antt =====
-- Times as the guardian stores them. `toISOString` writes '2026-01-02T03:04:05.678Z', and SQLite's
-- `datetime` writes '2026-01-02 03:04:05'. Both begin with the ten characters of the date, and the
-- next one is 'T' or a blank, which decides a comparison of the two as texts on the same date.
use attested_capital.Base.{ℕ, ◌+◌, ◌*◌, ◌/◌, ◌%◌, ◌==◌, ltb, leb, ◌&&◌, ◌||◌, Bool}

-- The day, and the milliseconds or the seconds into it.
pub data Stamp : Type 0 where
  iso : ℕ → ℕ → Stamp
  sql : ℕ → ℕ → Stamp

abbrev pub day_ms : ℕ
day_ms = 86_400_000

-- `new Date(ms).toISOString()`
unfoldable pub to_iso : ℕ → Stamp
to_iso ms = iso (ms / day_ms) (ms % day_ms)

-- `datetime('now')` at a time in milliseconds.
unfoldable pub sql_now : ℕ → Stamp
sql_now ms = sql (ms / day_ms) (ms % day_ms / 1000)

-- `new Date(text).getTime()` of a text with its zone.
unfoldable pub millis : Stamp → ℕ
millis (iso day ms) = day * day_ms + ms
millis (sql day seconds) = day * day_ms + seconds * 1000

-- `a <= b` as texts.
unfoldable pub text_le : Stamp → Stamp → Bool
text_le (iso d m) (iso e n) = ltb d e || (d == e && leb m n)
text_le (sql d m) (sql e n) = ltb d e || (d == e && leb m n)
text_le (iso d m) (sql e n) = ltb d e
text_le (sql d m) (iso e n) = leb d e
