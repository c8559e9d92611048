-- ===== src/Raft/Startup.antt =====
-- `load_config` and `bootstrap_cluster_config`, which `init` calls: the members that a server starts with.
pub mod Members
mod Tests
use draft.Base.{
  ℕ, ◌+◌, Bool, true, false, not, ◌&&◌, Option, none, some, List, [], ◌∷◌, Str, str_eq, ◌==◌,
  if◌then◌else◌,
}
use draft.Log.{EntryLogger, last_entry_index, config, ◌>>=◌}
use draft.Log.{append as log_append}
use draft.Log.Entry.{make_entry as log_make_entry}
use draft.Log.Room.{Os, RcErrno, rc_good, rc_conf_error, is_good}
use draft.Numbers.{is_ipv4}
use draft.Split.{split}
use draft.Raft.Types.{Node, Raft}
use draft.Raft.Cluster.{Cluster, contains, emplace, update, serialize_configuration}
use draft.Raft.Configure.{default_rpc_port, make_id, make_node}

-- An address of the configuration gets its node, unless it is a member.
unfoldable pub load_address : Str → Raft → Option Raft
load_address a r = if contains a r.cluster then some r else (do
  n ← make_node r a (if str_eq a r.self_id then r.rpc_port else default_rpc_port)
  some (record r { cluster = emplace a n r.cluster }))

-- The loop of `load_config` over the addresses.
unfoldable pub load_addresses : List Str → Raft → Option Raft
load_addresses [] r = some r
load_addresses (a ∷ rest) r = do next ← load_address a r; load_addresses rest next

-- The end of `bootstrap_cluster_config`, for a first server whose address is this one's.
unfoldable pub bootstrap_first : Os → Str → Raft → Option (Raft × RcErrno)
bootstrap_first os address r = do
  server ← make_node r address r.rpc_port
  let r1 = record r { cluster = emplace address server r.cluster }
  last ← last_entry_index r.log
  let e =
      log_make_entry r.log.cfg_entry_index (serialize_configuration r1.cluster) (last + 1) 1 true
  (l, rc) ← log_append os (e ∷ []) true r.log
  now_last ← last_entry_index l
  let done = record r1 {
    log = l;
    cluster =
        update server.id (λ n. record n { next_index = now_last + 1; match_index = now_last })
          r1.cluster;
    commit_index = e.index;
  }
  some (if is_good rc then done else record r1 { log = l }, rc)

-- `servers` is what the configuration file has for the name.
unfoldable pub bootstrap_cluster_config : Os → Option Str → Raft → Option (Raft × RcErrno)
bootstrap_cluster_config os none r = some (r, rc_good)
bootstrap_cluster_config os (some servers) r = elim (split b',' servers) [
  | [] ↦ some (r, rc_good)
  | ◌∷◌ first rest ↦
      let address = make_id r first in
      if not (is_ipv4 first)
      then some (r, rc_conf_error)
      else if not (str_eq r.self_id address)
      then some (r, rc_conf_error)
      else bootstrap_first os address r
]

abbrev pub is_empty_text : Str → Bool
is_empty_text [] = true
is_empty_text _ = false

unfoldable pub load_config : Os → Option Str → Raft → Option (Raft × RcErrno)
load_config os servers r =
    let base = r.log.stat.last_index in
    let text = if r.log.cfg_entry_index == 0 then r.log.stat.last_config else config r.log in
    if r.log.cfg_entry_index == 0 && is_empty_text r.log.stat.last_config
    then bootstrap_cluster_config os servers r
    else (do
      r' ← load_addresses (split b',' text) (record r { commit_index = base; last_applied = base })
      some (r', rc_good))
