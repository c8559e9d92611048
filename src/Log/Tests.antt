-- ===== src/Log/Tests.antt =====
-- A log with one configuration entry, on which the theorems on the log are applied.
use draft.Base.{◌+◌, ◌≡◌, refl, ◌<◌, true, none, some, [], ◌∷◌, ◌==◌, codes, if◌then◌else◌, arith}
use draft.Endian.{hton64, ntoh64, reverse, byte}
use draft.Log.{EntryLogger, append, chop, drop_upto, lookup, rewind, sizes}
use draft.Log.Entry.{LogEntry, make_entry, prev_cfg, sentry}
use draft.Log.Memory.{Cells}
use draft.Log.Room.{Os, rc_good, rc_error, grow_until, Grows, grow_until-Grows}
use draft.Log.View.{Rep, Chain, stop, link, entry_at}
use draft.Log.Append.{Appends, append-Appends}
use draft.Log.Chop.{Chopped, chop-Chopped}
use draft.Log.Drop.{drop_upto-Dropped}
use draft.Log.Dropped.{Dropped}
use draft.Log.Lookup.{lookup-entry_at}
use draft.Log.Rewind.{Finds, rewind-Chain}

-- A system that grows files up to 8,192 bytes.
abbrev pub small_disk : Os
small_disk = record { remap = λ n. if n == 8192 then rc_good else rc_error; sync = λ n. rc_good }

-- The configuration entry, of 56 bytes.
abbrev pub config_a : LogEntry
config_a = record {
  size = 56;
  index = 1;
  term = 1;
  cfg = true;
  len = 11;
  bytes = 0 ∷ 0 ∷ 0 ∷ 0 ∷ 0 ∷ 0 ∷ 0 ∷ 0 ∷ codes "a:1";
}

abbrev one_cells : Cells
one_cells q =
    if q == 0
    then some sentry
    else if q == 40
    then some config_a
    else if q == 96
    then some (record sentry { size = 0 })
    else none

abbrev pub one_entry : EntryLogger
one_entry = record {
  cells = one_cells;
  infos = (record { index = 0; amount = 0 }) ∷ (record { index = 1; amount = 40 }) ∷ [];
  payload_size = 96;
  cfg_entry_index = 1;
  ldbs_size = 4096;
  stat_size = 4096;
  stat = record { size = 32; last_index = 0; last_term = 0; last_config = [] };
}

make_entry-config_a : make_entry 0 (codes "a:1") 1 1 true ≡ config_a
unfolding make_entry hton64 reverse byte
make_entry-config_a = refl

prev_cfg-config_a : prev_cfg config_a ≡ 0
unfolding prev_cfg ntoh64 reverse byte
prev_cfg-config_a = refl

pub one_entry-Chain : Chain 0 (config_a ∷ []) 1
unfolding entry_at
one_entry-Chain =
    link config_a (omega arith) refl (omega (arith, prev_cfg-config_a))
      (stop (omega (arith, prev_cfg-config_a)))

pub one_entry-Rep : Rep one_entry (config_a ∷ [])
unfolding sizes
one_entry-Rep = record {
  infos = refl;
  laid = (refl, (omega arith), (refl, (omega arith), tt));
  payload = refl;
  ends = (record sentry { size = 0 }, refl, refl);
  counts = (refl, tt);
  chain = one_entry-Chain;
  cfg_le = omega arith;
  paged = omega arith;
  room = omega arith;
}

abbrev pub second : LogEntry
second = record {
  size = 56;
  index = 2;
  term = 1;
  cfg = true;
  len = 11;
  bytes = 0 ∷ 0 ∷ 0 ∷ 0 ∷ 0 ∷ 0 ∷ 0 ∷ 1 ∷ codes "b:1";
}

pub prev_cfg-second : prev_cfg second ≡ 1
unfolding prev_cfg ntoh64 reverse byte
prev_cfg-second = refl

append-Appends_example :
    Appends small_disk one_entry
      (config_a ∷ [])
      (second ∷ [])
      (append small_disk (second ∷ []) true one_entry)
append-Appends_example =
    append-Appends small_disk one_entry (config_a ∷ []) (second ∷ []) true one_entry-Rep
      ((omega arith), refl, tt)
      ((λ _. ((omega (arith, prev_cfg-second)), rw prev_cfg-second one_entry-Chain)), tt)

chop-Chopped_example :
    Chopped one_entry (config_a ∷ []) 1 (chop small_disk 1 true one_entry) rc_good
chop-Chopped_example =
    chop-Chopped small_disk one_entry (config_a ∷ []) 1 true one_entry-Rep (omega arith)
      (omega arith)

lookup-entry_at_example : lookup one_entry 1 ≡ entry_at 0 (config_a ∷ []) 1
lookup-entry_at_example = lookup-entry_at one_entry (config_a ∷ []) one_entry-Rep 1

grow_until-Grows_example :
    Grows small_disk (4000 + 8 + 200) 4096 (grow_until small_disk 202 4000 200 4096)
grow_until-Grows_example =
    grow_until-Grows small_disk 4000 200 202 4096 (omega arith) (omega arith) (omega arith)
      (omega arith)

rewind-Chain_example : Finds 0 (config_a ∷ []) 1 (λ c. c < 1) (rewind 2 one_entry 1 1)
rewind-Chain_example =
    rewind-Chain one_entry (config_a ∷ []) one_entry-Rep 1 2 1 (omega arith) (omega arith)
      one_entry-Chain

drop_upto-Dropped_example :
    Dropped small_disk one_entry (config_a ∷ []) 1 (drop_upto small_disk 1 true one_entry)
drop_upto-Dropped_example =
    drop_upto-Dropped small_disk one_entry (config_a ∷ []) one_entry-Rep (omega arith) 1 true
      (omega arith) (omega arith)
