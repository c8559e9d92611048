-- ===== src/Log/Entry.antt =====
-- raft/entry_logger.hpp: the records of the log and of the states file, and how they are made.
use draft.Base.{
  ℕ, ◌+◌, ◌-◌, ◌*◌, ◌/◌, Bool, true, false, Option, none, some, [], ◌∷◌, ◌++◌, Str, length, take,
  drop, if◌then◌else◌,
}
use draft.Endian.{byte, hton64, ntoh64}

-- `data` holds the `len` bytes that the entry uses; the padding up to `size` is left out.
pub record LogEntry : Type 0 where
  pub size : ℕ
  pub index : ℕ
  pub term : ℕ
  pub cfg : Bool
  pub len : ℕ
  pub bytes : Str

pub record States : Type 0 where
  pub size : ℕ
  pub last_index : ℕ
  pub last_term : ℕ
  pub last_config : Str

-- `sizeof(log_entry)` and `sizeof(states)`.
abbrev pub log_entry_size : ℕ
log_entry_size = 40

abbrev pub default_stat_size : ℕ
default_stat_size = 32

abbrev pub sentry : LogEntry
sentry = record { size = log_entry_size; index = 0; term = 0; cfg = false; len = 0; bytes = [] }

-- `(n + log_entry_alignment - 1) & ~(log_entry_alignment - 1)`
abbrev pub align : ℕ → ℕ
align n = (n + 7) / 8 * 8

abbrev pub cfg_offset : Bool → ℕ
cfg_offset cfg = if cfg then 8 else 0

-- The machine is little-endian: the number's low byte comes first in memory.
abbrev pub store64 : ℕ → Str
store64 n =
    byte 0 n ∷ byte 1 n ∷ byte 2 n ∷ byte 3 n ∷ byte 4 n ∷ byte 5 n ∷ byte 6 n ∷ byte 7 n ∷ []

abbrev pub load64 : Str → ℕ
load64 [] = 0
load64 (b ∷ bs) = b + 256 * load64 bs

-- `log_entry::str`
unfoldable pub str : LogEntry → Str
str e = take (e.len - cfg_offset e.cfg) (drop (cfg_offset e.cfg) e.bytes)

-- The index of the configuration entry before this one, kept in network order in its data.
unfoldable pub prev_cfg : LogEntry → ℕ
prev_cfg e = ntoh64 true (load64 (take 8 e.bytes))

-- `make_log_entry`, the fields that `raft_impl::make_entry` sets, and `copy` of the data.
unfoldable pub make_entry : ℕ → Str → ℕ → ℕ → Bool → LogEntry
make_entry cfg_entry_index text index term cfg = record {
  size = align (log_entry_size + cfg_offset cfg + length text);
  index = index;
  term = term;
  cfg = cfg;
  len = length text + cfg_offset cfg;
  bytes = (if cfg then store64 (hton64 true cfg_entry_index) else []) ++ text;
}

-- `make_states`; `none` is `nullptr`. `copy` sets the index and the term.
unfoldable pub make_states : Str → Option States
make_states [] = none
make_states (c ∷ text) = some (record {
  size = align (default_stat_size + length (c ∷ text));
  last_index = 0;
  last_term = 0;
  last_config = c ∷ text;
})
