-- ===== src/Storage/Snapshot.antt =====
-- server/storage_server.hpp: the database written to a file and read from it, and the data that another
-- server transfers.
use draft.Base.{
  Bool, true, false, Option, none, some, List, [], ◌∷◌, ◌++◌, Str, codes, ◌==◌, if◌then◌else◌,
}
use draft.Config.{ConfigParser, ConfigErrno, conf_good, conf_error}
use draft.Config.{parse as parse_config}
use draft.Log.{◌>>=◌}
use draft.Table.{Table, assign}
use draft.Storage.{Server}

-- `db[key] = value` for each pair that the configuration parser found.
unfoldable pub load_pairs : Table → Table → Table
load_pairs [] db = db
load_pairs ((k, v) ∷ kvs) db = load_pairs kvs (assign k v db)

-- The file at `path_`: none, or its text, of which the parser of configuration files makes the options.
abbrev pub Reader : Type 0
Reader = Str → List Str

abbrev no_config : ConfigParser
no_config = record { inited = false; config_ = [] }

-- The end of `load_database`, on the answer of the configuration parser, and whether it is RC_GOOD.
unfoldable pub load_parsed : ConfigParser → ConfigErrno → Server → Server × Bool
load_parsed c conf_good server = (record server { db = load_pairs c.config_ server.db }, true)
load_parsed c conf_error server = (server, false)

unfoldable pub load_database : Reader → Option Str → Server → Option (Server × Bool)
load_database read none server = some (server, true)
load_database read (some []) server = some (server, true)
load_database read (some (b ∷ bytes)) server = do
  (c, rc) ← parse_config (some (read (b ∷ bytes))) no_config
  some (load_parsed c rc server)

-- `drop_database`; the file is removed.
unfoldable pub drop_database : Server → Server
drop_database server = record server { db = [] }

unfoldable pub set_path : Str → Server → Server
set_path path server = record server { path = path }

-- The path without a slash at its end, if it has one: then it is a directory.
unfoldable pub without_slash : Str → Option Str
without_slash [] = none
without_slash (c ∷ []) = if c == b'/' then some [] else none
without_slash (c ∷ d ∷ s) = elim (without_slash (d ∷ s)) [ none ↦ none | some t ↦ some (c ∷ t) ]

pub data FileKind : Type 0 where
  directory regular_file other_file : FileKind

-- `on_data_transfer` before a transfer.
unfoldable pub before_transfer : Str → Server → Server
before_transfer path server = elim (without_slash path) [
  | some dir ↦ set_path dir server
  | none ↦ drop_database (set_path path server)
]

-- `on_data_transfer` after a transfer; the result of `load_database` is not looked at.
unfoldable pub after_transfer : Reader → FileKind → Option Str → Str → Server → Option Server
after_transfer read regular_file file path server = do
  (loaded, rc) ← load_database read file (set_path path server)
  some loaded
after_transfer read _ file path server = some (set_path path server)

-- The text that `take_snapshot` writes.
unfoldable pub snapshot_text : Table → Str
snapshot_text [] = []
snapshot_text ((k, v) ∷ db) = k ++ codes " = " ++ v ++ 10 ∷ [] ++ snapshot_text db
