-- ===== src/Log/Reopen.antt =====
-- raft/entry_logger.hpp: `init`, which reads the files of a log again, and `to_string`; the loops are
-- over the records, with the iterators of raft/entry_iterator.hpp.
pub mod Recover
pub mod Print
mod Tests
use draft.Base.{
  ℕ, zero, suc, ◌+◌, Bool, true, false, not, ◌&&◌, ◌||◌, Option, none, some, List, [], ◌∷◌, ◌++◌,
  Str, codes, ◌==◌, if◌then◌else◌,
}
use draft.Log.Entry.{LogEntry, States, sentry, default_stat_size, str}
use draft.Log.Memory.{Cells, put_entry}
use draft.Log.Room.{RcErrno, rc_good, rc_mmap_new_file, is_good}
use draft.Log.{EntryLogger, ◌>>=◌}

-- What the two calls of `map` answer, and what the mapped files hold.
pub record Files : Type 0 where
  pub ldbs_rc : RcErrno
  pub ldbs_cells : Cells
  pub ldbs_size : ℕ
  pub stat_rc : RcErrno
  pub stat : States
  pub stat_size : ℕ

abbrev is_new : RcErrno → Bool
is_new rc_mmap_new_file = true
is_new _ = false

-- `operator++`: the next record starts where this one ends. An iterator is a place and the size of
-- the record there.
abbrev pub advance : ℕ → LogEntry → ℕ
advance pos e = pos + e.size

-- The loop of `init`, on fuel; it ends at a record of size `log_end_marker`.
unfoldable pub read_infos : ℕ → ℕ → EntryLogger → Option EntryLogger
read_infos zero pos l = none
read_infos (suc fuel) pos l = do
  e ← l.cells pos
  let rest = read_infos fuel (advance pos e) (record l {
    infos = l.infos ++ record { index = e.index; amount = l.payload_size } ∷ [];
    payload_size = l.payload_size + e.size;
    cfg_entry_index = if e.cfg then e.index else l.cfg_entry_index;
  })
  if e.size == 0 then some l else rest

-- `states t{sizeof(states), 0, 0, 0}`
abbrev pub no_states : States
no_states = record { size = default_stat_size; last_index = 0; last_term = 0; last_config = [] }

abbrev pub blank : EntryLogger
blank = record {
  cells = λ q. none;
  infos = [];
  payload_size = 0;
  cfg_entry_index = 0;
  ldbs_size = 0;
  stat_size = 0;
  stat = no_states;
}

-- The end of `init`: the states file.
unfoldable pub init_stat : Files → EntryLogger → EntryLogger × RcErrno
init_stat f l =
    let opened = record l { stat_size = f.stat_size } in
    if is_new f.stat_rc
    then (record opened { stat = no_states }, rc_good)
    else if is_good f.stat_rc
    then (record opened { stat = f.stat }, rc_good)
    else (l, f.stat_rc)

-- `init` of a new logger. The file holds fewer records than bytes.
unfoldable pub init : Files → Option (EntryLogger × RcErrno)
init f =
    let cells = if is_new f.ldbs_rc then put_entry f.ldbs_cells 0 sentry else f.ldbs_cells in
    let opened = (do
      l ← read_infos (suc f.ldbs_size) 0 (record blank { cells = cells })
      some (init_stat f (record l { ldbs_size = f.ldbs_size }))) in
    if is_new f.ldbs_rc || is_good f.ldbs_rc then opened else some (blank, f.ldbs_rc)

-- The loop of `to_string`, on fuel: `it != begin()` and `next != end()` compare the sizes of the records.
unfoldable pub print_entries : ℕ → Cells → ℕ → ℕ → Option Str
print_entries zero m first_size pos = none
print_entries (suc fuel) m first_size pos = do
  e ← m pos
  let rest = (do
    next ← m (advance pos e)
    text ← print_entries fuel m first_size (advance pos e)
    let comma = if not (e.size == first_size) && not (next.size == 0) then codes "," else []
    some (str e ++ comma ++ text))
  if e.size == 0 then some [] else rest

unfoldable pub to_string : EntryLogger → Option Str
to_string l = do first ← l.cells 0; print_entries (suc l.ldbs_size) l.cells first.size 0
