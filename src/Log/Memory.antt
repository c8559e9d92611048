-- ===== src/Log/Memory.antt =====
-- The bytes of the mapped log file, seen as the records that can be read at each offset.
use draft.Base.{ℕ, ◌+◌, ◌-◌, Option, none, some, max, ltb, leb, ◌==◌, if◌then◌else◌}
use draft.Log.Entry.{LogEntry, sentry}

abbrev pub Cells : Type 0
Cells = ℕ → Option LogEntry

-- A record takes its size; an end marker takes the eight bytes of the field `size`.
abbrev pub extent : LogEntry → ℕ
extent e = max 8 e.size

-- The record at `q` outlives a write that starts behind it, at `p`.
abbrev pub keep : Option LogEntry → ℕ → ℕ → Option LogEntry
keep none q p = none
keep (some e) q p = if leb (q + extent e) p then some e else none

-- What is left of the record at `q` when the bytes from `p`, `n` of them, are written.
abbrev pub wipe : Cells → ℕ → ℕ → Cells
wipe m p n q = if ltb q p then keep (m q) q p else if ltb q (p + n) then none else m q

-- `memcpy` of a whole record.
unfoldable pub put_entry : Cells → ℕ → LogEntry → Cells
put_entry m p e q = if q == p then some e else wipe m p e.size q

abbrev pub ended : Option LogEntry → LogEntry
ended none = record sentry { size = 0 }
ended (some e) = record e { size = 0 }

-- `size = log_end_marker` at `p`: only that field is written.
unfoldable pub put_end : Cells → ℕ → Cells
put_end m p q = if q == p then some (ended (m p)) else wipe m p 8 q

abbrev within : Option LogEntry → ℕ → ℕ → Option LogEntry
within none q end = none
within (some e) q end = if leb (q + extent e) end then some e else none

-- `memmove`: a record moves if it lies in the bytes that move.
unfoldable pub memmove : Cells → ℕ → ℕ → ℕ → Cells
memmove m dst src n q =
    if ltb q dst
    then keep (m q) q dst
    else if ltb q (dst + n)
    then (let s = src + (q - dst) in within (m s) s (src + n))
    else m q
