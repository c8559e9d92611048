-- ===== src/Raft/Settings/Tests.antt =====
-- A configuration with a port for the calls.
use draft.Base.{◌≡◌, refl, true, false, [], ◌∷◌, codes, str_eq, skip_space, is_space}
use draft.Config.{ConfigParser, find}
use draft.Numbers.{stol, after_space, digits, more_digits}
use draft.Table.{Table, get_value}
use draft.Raft.Settings.{
  Settings, read_settings, value, and_then, required, number, stoi, port_setting,
  compaction_setting, default_http_port,
}
use draft.Raft.Settings.Ports.{IsPort, read_settings-IsPort}

abbrev pairs : Table
pairs =
    (codes "path", codes "p")
    ∷ (codes "vote_file", codes "v")
    ∷ (codes "stat_file", codes "s")
    ∷ (codes "ldbs_file", codes "l")
    ∷ (codes "rpc_port", codes "3000")
    ∷ []

abbrev small_config : ConfigParser
small_config = record { inited = true; config_ = pairs }

abbrev small_settings : Settings
small_settings = record {
  path = codes "p";
  vote_file = codes "v";
  stat_file = codes "s";
  ldbs_file = codes "l";
  interface = codes "lo";
  min_election_timeout = 150;
  max_election_timeout = 300;
  server_catch_up_rounds = 10;
  election_rpc_timeout = 70;
  heartbeat_rate = 80;
  heartbeat_rpc_timeout = 70;
  transfer_rpc_timeout = 0;
  snapshot_rate = 120;
  log_compaction_enabled = true;
  rpc_host = [];
  rpc_port = codes "3000";
  http_host = [];
  http_port = default_http_port;
}

small_settings_read : read_settings false small_config ≡ value small_settings
unfolding read_settings and_then required find get_value str_eq number stoi stol skip_space is_space
    after_space digits more_digits port_setting compaction_setting
small_settings_read = refl

read_settings-IsPort_example : IsPort (codes "3000") × IsPort default_http_port
read_settings-IsPort_example =
    read_settings-IsPort false small_config small_settings small_settings_read
