-- ===== src/Config.antt =====
-- raft/config_parser.hpp: the pairs of a configuration file, which the library Boost.Program_options
-- reads. What that library makes of the file, the names and the values in turn, is a parameter.
pub mod Pairs
mod Tests
use draft.Base.{ℕ, ◌≡◌, Bool, true, false, Option, none, some, List, [], ◌∷◌, Str, if◌then◌else◌}
use draft.Table.{Table, get_value, emplace_value}

pub data ConfigErrno : Type 0 where
  conf_good conf_error : ConfigErrno

pub record ConfigParser : Type 0 where
  pub inited : Bool
  pub config_ : Table

-- The loop over the options: a name and its value are put in, unless the name is there. Without a value
-- behind the last name the source reads outside the list.
unfoldable pub put_pairs : List Str → Table → Option Table
put_pairs [] t = some t
put_pairs (k ∷ []) t = none
put_pairs (k ∷ v ∷ ops) t = put_pairs ops (emplace_value k v t)

abbrev put_parsed : ConfigParser → Option Table → Option (ConfigParser × ConfigErrno)
put_parsed c none = none
put_parsed c (some t) = some (record { inited = true; config_ = t }, conf_good)

-- `parse`, with the options of the file; `none` for a file that does not open.
unfoldable pub parse : Option (List Str) → ConfigParser → Option (ConfigParser × ConfigErrno)
parse ops c =
    if c.inited
    then some (c, conf_good)
    else elim ops [ none ↦ some (c, conf_error) | some os ↦ put_parsed c (put_pairs os c.config_) ]

unfoldable pub find : Str → ConfigParser → Option Str
find k c = get_value k c.config_
