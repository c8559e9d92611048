-- ===== src/Config/Tests.antt =====
-- A configuration that gives a name two values.
use draft.Base.{◌≡◌, [], ◌∷◌, some, Str, codes, false}
use draft.Config.{ConfigParser, conf_good, parse, find}
use draft.Config.Pairs.{options_of, find-parse}
use draft.Table.{Table, IsMap, get_value}

abbrev two_ports : Table
two_ports = (codes "port", codes "80") ∷ (codes "port", codes "81") ∷ []

two_ports_parsed :
    (c : ConfigParser) × (parse
        (some (options_of two_ports))
        (record { inited = false; config_ = [] })
      ≡ some (c, conf_good))
    × IsMap c.config_
    × ((k : Str) → find k c ≡ get_value k two_ports)
two_ports_parsed = find-parse two_ports
