-- ===== src/Raft/Settings.antt =====
-- What `init` reads of the configuration file: the paths, the numbers with their defaults, and the ports.
pub mod Ports
mod Tests
use draft.Base.{
  ℕ, ◌+◌, ◌-◌, ◌%◌, ◌^◌, Bool, true, false, not, ◌&&◌, ◌||◌, Option, none, some, List, [], ◌∷◌, Str,
  str_eq, codes, ltb, leb, ◌==◌, if◌then◌else◌,
}
use draft.Config.{ConfigParser, find}
use draft.Log.{◌>>=◌}
use draft.Numbers.{stol}
use draft.Raft.Configure.{default_rpc_port}

pub record Settings : Type 0 where
  pub path : Str
  pub vote_file : Str
  pub stat_file : Str
  pub ldbs_file : Str
  pub interface : Str
  pub min_election_timeout : ℕ
  pub max_election_timeout : ℕ
  pub server_catch_up_rounds : ℕ
  pub election_rpc_timeout : ℕ
  pub heartbeat_rate : ℕ
  pub heartbeat_rpc_timeout : ℕ
  pub transfer_rpc_timeout : ℕ
  pub snapshot_rate : ℕ
  pub log_compaction_enabled : Bool
  pub rpc_host : Str
  pub rpc_port : Str
  pub http_host : Str
  pub http_port : Str

-- What comes of reading a setting: its value, RC_CONF_ERROR, or an exception of `std::stoi` that nothing
-- catches.
pub data Read {ℓ} (A : Type ℓ) : Type ℓ where
  value : A → Read A
  conf_error : Read A
  thrown : Read A

unfoldable pub and_then {ℓ κ} : {A : Type ℓ} {B : Type κ} → Read A → (A → Read B) → Read B
and_then (value a) f = f a
and_then conf_error f = conf_error
and_then thrown f = thrown

-- `std::stoi`: the sign and the magnitude of an `int`.
unfoldable pub stoi : Str → Read (Bool × ℕ)
stoi s = elim (stol s) [
  | none ↦ thrown
  | some (negative, n) ↦
      if leb n (if negative then 2 ^ 31 else 2 ^ 31 - 1) then value (negative, n) else thrown
]

-- An `int` kept in a `uint32_t`.
abbrev pub to_uint32 : Bool × ℕ → ℕ
to_uint32 (negative, n) = if negative then (2 ^ 32 - n) % 2 ^ 32 else n

-- A number that has a default.
unfoldable pub number : Option Str → ℕ → Read ℕ
number none default_number = value default_number
number (some s) default_number = and_then (stoi s) (λ i. value (to_uint32 i))

-- A name that must be there.
unfoldable pub required : Option Str → Read Str
required none = conf_error
required (some s) = value s

abbrev pub in_port_range : Bool × ℕ → Bool
in_port_range (negative, n) = not negative && leb 1024 n && leb n 65535

-- `rpc_port` and `http_port`: the text stays as it is.
unfoldable pub port_setting : Option Str → Str → Read Str
port_setting none default_port = value default_port
port_setting (some s) default_port =
    and_then (stoi s) (λ i. if in_port_range i then value s else conf_error)

-- Another text leaves the member as it is.
unfoldable pub compaction_setting : Bool → Option Str → Bool
compaction_setting before none = true
compaction_setting before (some s) =
    if str_eq s (codes "true") || str_eq s (codes "1")
    then true
    else if str_eq s (codes "false") || str_eq s (codes "0")
    then false
    else before

abbrev pub text_or : Str → Option Str → Str
text_or s none = s
text_or s (some t) = t

abbrev pub default_http_port : Str
default_http_port = codes "2026"

-- The settings in the order of `init`; `before` is the member log_compaction_enabled_.
unfoldable pub read_settings : Bool → ConfigParser → Read Settings
read_settings before c = and_then (required (find (codes "path") c)) λ path.
    and_then (required (find (codes "vote_file") c)) λ vote_file.
      and_then (required (find (codes "stat_file") c)) λ stat_file.
        and_then (required (find (codes "ldbs_file") c)) λ ldbs_file.
          and_then (number (find (codes "min_election_timeout") c) 150) λ min_election_timeout.
            and_then (number (find (codes "max_election_timeout") c) 300) λ max_election_timeout.
              and_then (number (find (codes "server_catch_up_rounds") c) 10)
                λ server_catch_up_rounds.
                  and_then (number (find (codes "election_rpc_timeout") c) 70)
                    λ election_rpc_timeout.
                      and_then (number (find (codes "heartbeat_rate") c) 80) λ heartbeat_rate.
                        and_then (number (find (codes "heartbeat_rpc_timeout") c) 70)
                          λ heartbeat_rpc_timeout.
                            and_then (number (find (codes "transfer_rpc_timeout") c) 0)
                              λ transfer_rpc_timeout.
                                and_then (number (find (codes "snapshot_rate") c) 120)
                                  λ snapshot_rate.
                                    and_then
                                      (port_setting (find (codes "rpc_port") c) default_rpc_port)
                                      λ rpc_port.
                                        and_then
                                          (port_setting (find (codes "http_port") c)
                                            default_http_port)
                                          λ http_port. value (record {
                                            path = path;
                                            vote_file = vote_file;
                                            stat_file = stat_file;
                                            ldbs_file = ldbs_file;
                                            interface =
                                                text_or (codes "lo") (find (codes "interface") c);
                                            min_election_timeout = min_election_timeout;
                                            max_election_timeout = max_election_timeout;
                                            server_catch_up_rounds = server_catch_up_rounds;
                                            election_rpc_timeout = election_rpc_timeout;
                                            heartbeat_rate = heartbeat_rate;
                                            heartbeat_rpc_timeout = heartbeat_rpc_timeout;
                                            transfer_rpc_timeout = transfer_rpc_timeout;
                                            snapshot_rate = snapshot_rate;
                                            log_compaction_enabled =
                                                compaction_setting before
                                                  (find (codes "log_compaction_enabled") c);
                                            rpc_host = text_or [] (find (codes "rpc_host") c);
                                            rpc_port = rpc_port;
                                            http_host = text_or [] (find (codes "http_host") c);
                                            http_port = http_port;
                                          })
