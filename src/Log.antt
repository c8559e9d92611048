-- ===== src/Log.antt =====
-- raft/entry_logger.hpp: the log file as records at byte offsets, with the index table `infos`.
--
-- `cells q` is the record that can be read at byte `q` of the mapped file; `none` where no whole record
-- starts. Each write takes the bytes that it covers from the records that held them. Reading such
-- a place, a null pointer and an index past `infos` are undefined in the source: an operation is
-- then `none`.
pub mod Entry
pub mod Memory
pub mod Room
pub mod View
pub mod Chains
pub mod Lookup
pub mod Rewind
pub mod Append
pub mod Chop
pub mod Dropped
pub mod Made
pub mod Copy
pub mod Shift
pub mod Drop
pub mod Map
pub mod Reopen
pub mod Tests
use draft.Base.{
  ℕ, zero, suc, ◌+◌, ◌-◌, ◌*◌, ◌/◌, Bool, true, false, not, ◌&&◌, ◌||◌, Option, none, some, List,
  [], ◌∷◌, ◌++◌, Str, length, get_elem?, take, drop, ltb, leb, ◌==◌, if◌then◌else◌,
}
use Entry.{LogEntry, States, prev_cfg, str, make_states, sentry}
use Memory.{Cells, put_entry, put_end, memmove}
use Room.{Os, RcErrno, rc_good, rc_oor, is_good, grow_until, grow_stat_until}

pub record LogEntryInfo : Type 0 where
  pub index : ℕ
  pub amount : ℕ

pub record EntryLogger : Type 0 where
  pub cells : Cells
  pub infos : List LogEntryInfo
  pub payload_size : ℕ
  pub cfg_entry_index : ℕ
  pub ldbs_size : ℕ
  pub stat_size : ℕ
  pub stat : States

infixl 5 ◌>>=◌
abbrev pub ◌>>=◌ {ℓ κ} : {A : Type ℓ} {B : Type κ} → Option A → (A → Option B) → Option B
none >>= f = none
some a >>= f = f a

abbrev pub front : List LogEntryInfo → Option LogEntryInfo
front is = get_elem? is 0

abbrev pub back : List LogEntryInfo → Option LogEntryInfo
back is = get_elem? is (length is - 1)

-- The guard that `chop`, `drop` and `operator[]` share, but for their test of index 0.
unfoldable pub out_of_range : List LogEntryInfo → ℕ → Bool
out_of_range [] index = true
out_of_range (a ∷ []) index = ltb index a.index || ltb a.index index
out_of_range (a ∷ b ∷ is) index =
    ltb index a.index
    || elim (back (a ∷ b ∷ is)) [ none ↦ true | some z ↦ ltb z.index index ]
    || (not (index == 0) && ltb index b.index)

-- `infos[index - last_index() - infos.front().index]`
unfoldable pub info_at : EntryLogger → ℕ → Option LogEntryInfo
info_at l index = do f ← front l.infos; get_elem? l.infos (index - l.stat.last_index - f.index)

unfoldable pub first_entry : EntryLogger → Option LogEntry
first_entry l = do f ← front l.infos; l.cells f.amount

unfoldable pub last_entry : EntryLogger → Option LogEntry
last_entry l = do b ← back l.infos; l.cells b.amount

-- `operator[]`; `none` is `nullptr`.
unfoldable pub lookup : EntryLogger → ℕ → Option LogEntry
lookup l index =
    if out_of_range l.infos index
    then none
    else if index == 0
    then first_entry l
    else do m ← info_at l index; l.cells m.amount

unfoldable pub last_entry_index : EntryLogger → Option ℕ
last_entry_index l =
    if length l.infos == 1 then some l.stat.last_index else do e ← last_entry l; some e.index

unfoldable pub last_entry_term : EntryLogger → Option ℕ
last_entry_term l =
    if length l.infos == 1 then some l.stat.last_term else do e ← last_entry l; some e.term

abbrev null_matches : EntryLogger → ℕ → ℕ → Bool
null_matches l index term = l.stat.last_index == index && l.stat.last_term == term

unfoldable pub has_entry : EntryLogger → ℕ → ℕ → Bool
has_entry l index term = elim (lookup l index) [
  | none ↦ null_matches l index term
  | some e ↦ e.index == index && e.term == term
]

unfoldable pub entry_conflicted : EntryLogger → ℕ → ℕ → Bool
entry_conflicted l index term = elim (lookup l index) [
  | none ↦ false
  | some e ↦ not (e.term == term)
]

unfoldable pub config : EntryLogger → Str
config l = elim (lookup l l.cfg_entry_index) [ none ↦ [] | some e ↦ str e ]

unfoldable pub sizes : List LogEntry → ℕ
sizes [] = 0
sizes (e ∷ es) = e.size + sizes es

-- The loop of `append`: `pos` is the place of `tail`, the last record so far.
unfoldable pub place : ℕ → LogEntry → List LogEntry → EntryLogger → EntryLogger
place pos tail [] l = l
place pos tail (e ∷ es) l = place (pos + tail.size) e es (record l {
  cells = put_entry l.cells (pos + tail.size) e;
  infos = l.infos ++ record { index = e.index; amount = pos + tail.size } ∷ [];
  cfg_entry_index = if e.cfg then e.index else l.cfg_entry_index;
})

-- `next->size = log_end_marker` behind the last record, and the new payload.
unfoldable pub finish : ℕ → EntryLogger → Option EntryLogger
finish size_bytes l = do
  b ← back l.infos
  tail ← last_entry l
  some (record l {
    cells = put_end l.cells (b.amount + tail.size);
    payload_size = l.payload_size + size_bytes;
  })

-- `append` once the file has the room.
unfoldable pub append_at :
    Os → ℕ → List LogEntry → Bool → EntryLogger → Option (EntryLogger × RcErrno)
append_at os size_bytes entries sync l = do
  b ← back l.infos
  tail ← last_entry l
  done ← finish size_bytes (place b.amount tail entries l)
  some (done, if sync then os.sync (size_bytes + 8) else rc_good)

-- `append` of a list of entries, with its error results.
unfoldable pub append : Os → List LogEntry → Bool → EntryLogger → Option (EntryLogger × RcErrno)
append os entries sync l = do
  let size_bytes = sizes entries
  (ldbs, rc) ← grow_until os (suc (suc size_bytes)) l.payload_size size_bytes l.ldbs_size
  let grown = record l { ldbs_size = ldbs }
  if is_good rc then append_at os size_bytes entries sync grown else some (grown, rc)

-- `while (index <= cfg_entry_index_)` of `chop`, on fuel.
pub rewind : ℕ → EntryLogger → ℕ → ℕ → Option ℕ
rewind zero l index cfg = none
rewind (suc fuel) l index cfg =
    let rest = (do e ← lookup l cfg; rewind fuel l index (prev_cfg e)) in
    if leb index cfg then rest else some cfg

unfoldable pub chop : Os → ℕ → Bool → EntryLogger → Option (EntryLogger × RcErrno)
chop os index sync l = if index == 0 || out_of_range l.infos index then some (l, rc_oor) else do
  cfg ← rewind (suc l.cfg_entry_index) l index l.cfg_entry_index
  m ← info_at l index
  some (
    record l {
      cells = put_end l.cells m.amount;
      infos = take (index - l.stat.last_index) l.infos;
      payload_size = m.amount;
      cfg_entry_index = cfg;
    },
    if sync then os.sync 8 else rc_good,
  )

-- `while (curr_cfg_index && index < curr_cfg_index)` of `drop`, on fuel.
unfoldable pub last_cfg_upto : ℕ → EntryLogger → ℕ → ℕ → Option ℕ
last_cfg_upto zero l index cfg = none
last_cfg_upto (suc fuel) l index cfg =
    let rest = (do e ← lookup l cfg; last_cfg_upto fuel l index (prev_cfg e)) in
    if not (cfg == 0) && ltb index cfg then rest else some cfg

-- `copy` of the states: the previous configuration stays where there is no new one.
unfoldable pub copy_states :
    Os → Option States → ℕ → ℕ → EntryLogger → Option (EntryLogger × RcErrno)
copy_states os none index term l = some (
  record l { stat = record l.stat { last_index = index; last_term = term } },
  os.sync l.stat.size,
)
copy_states os (some p) index term l = do
  (size, rc) ←
      grow_stat_until os (suc (suc (length p.last_config))) (length p.last_config) l.stat_size
  let grown = record l { stat_size = size }
  if is_good rc
      then some (
        record grown { stat = record p { last_index = index; last_term = term } },
        os.sync p.size,
      )
      else some (grown, rc)

abbrev pub minus : ℕ → LogEntryInfo → LogEntryInfo
minus n i = record i { amount = i.amount - n }

unfoldable pub lower : ℕ → List LogEntryInfo → List LogEntryInfo
lower n [] = []
lower n (i ∷ is) = minus n i ∷ lower n is

-- The entries up to `index` go, the others move to the front of the file.
unfoldable pub shift_down : ℕ → EntryLogger → Option EntryLogger
shift_down index l = do
  f ← front l.infos
  first ← get_elem? l.infos (1 - f.index)
  last ← back l.infos
  next ← get_elem? l.infos (index + 1 - l.stat.last_index - f.index)
  tail ← last_entry l
  let end = last.amount + tail.size
  let bytes_dropped = next.amount - first.amount
  let moved = memmove l.cells first.amount next.amount (end - next.amount)
  some (record l {
    cells = put_end moved (end - bytes_dropped);
    infos = f ∷ lower bytes_dropped (drop (suc (index - l.stat.last_index)) l.infos);
    payload_size = l.payload_size - bytes_dropped;
  })

-- The text of the configuration entry at `cfg`, empty where there is none.
abbrev pub cfg_text : EntryLogger → ℕ → Str
cfg_text l cfg = if cfg == 0 then [] else elim (lookup l cfg) [ none ↦ [] | some e ↦ str e ]

-- `drop` of every entry.
unfoldable pub drop_all : Os → ℕ → ℕ → Str → Bool → EntryLogger → Option (EntryLogger × RcErrno)
drop_all os index term cfg_data sync l = do
  (l2, rc) ← chop os (l.stat.last_index + 1) sync l
  if is_good rc then copy_states os (make_states cfg_data) index term l2 else some (l2, rc)

-- The bytes that `drop` moves: all that stays behind the sentry record.
abbrev pub bytes_moved : EntryLogger → ℕ
bytes_moved l = l.payload_size - sentry.size

-- `drop` where entries stay.
unfoldable pub drop_some : Os → ℕ → ℕ → Str → Bool → EntryLogger → Option (EntryLogger × RcErrno)
drop_some os index term cfg_data sync l = do
  l2 ← shift_down index l
  (l3, rc) ← copy_states os (make_states cfg_data) index term l2
  if is_good rc
      then some (l3, if sync then os.sync (bytes_moved l3 + 8) else rc_good)
      else some (l3, rc)

unfoldable pub drop_upto : Os → ℕ → Bool → EntryLogger → Option (EntryLogger × RcErrno)
drop_upto os index sync l =
    if index == 0 || out_of_range l.infos index then some (l, rc_oor) else do
      cfg ← last_cfg_upto (suc l.cfg_entry_index) l index l.cfg_entry_index
      let l1 = record l {
        cfg_entry_index = if leb l.cfg_entry_index index then 0 else l.cfg_entry_index;
      }
      let cfg_data = cfg_text l cfg
      e ← lookup l1 index
      b ← back l1.infos
      if index == b.index
          then drop_all os index e.term cfg_data sync l1
          else drop_some os index e.term cfg_data sync l1
