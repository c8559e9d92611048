-- ===== src/Raft/Configure.antt =====
-- Members and addresses: `make_id`, `make_node` and `adjust_configuration`.
use draft.Base.{
  ◌+◌, Bool, true, false, Option, some, List, [], ◌∷◌, ◌++◌, Str, str_eq, codes, if◌then◌else◌,
}
use draft.Log.{last_entry_index, ◌>>=◌}
use draft.Split.{split}
use draft.Raft.Types.{Node, Raft}
use draft.Raft.Cluster.{Cluster, emplace}

abbrev pub default_rpc_port : Str
default_rpc_port = codes "2023"

abbrev with_port : List Str → Str → Str → Str
with_port (host ∷ []) address port = address ++ (b':' ∷ port)
with_port _ address port = address

-- `make_id`: an address with no port gets one.
unfoldable pub make_id : Raft → Str → Str
make_id r address =
    with_port (split b':' address) address
      (if str_eq address r.interface_address then r.rpc_port else default_rpc_port)

abbrev host_and_port : List Str → Str → Str → Str
host_and_port (host ∷ p ∷ rest) address port = host ++ (b':' ∷ p)
host_and_port _ address port = address ++ (b':' ∷ port)

-- `make_node`; the id is `host:port`.
unfoldable pub make_node : Raft → Str → Str → Option Node
make_node r address port = do
  last ← last_entry_index r.log
  some (record {
    id = host_and_port (split b':' address) address port;
    alive = false;
    next_index = last + 1;
    match_index = 0;
    transfer_leader_to = false;
    transfer_data_to = false;
  })

-- The members of a configuration that are not there yet.
unfoldable pub add_addresses : List Str → Raft → Option Raft
add_addresses [] r = some r
add_addresses (a ∷ rest) r = do
  n ← make_node r a default_rpc_port
  add_addresses rest (record r { cluster = emplace a n r.cluster })

unfoldable pub mem : Str → List Str → Bool
mem a [] = false
mem a (b ∷ l) = if str_eq a b then true else mem a l

unfoldable pub retain : List Str → Cluster → Cluster
retain addresses [] = []
retain addresses ((a, n) ∷ c) =
    let rest = retain addresses c in if mem a addresses then (a, n) ∷ rest else rest

unfoldable pub adjust_configuration : Str → Raft → Option Raft
adjust_configuration [] r = some r
adjust_configuration (c ∷ config) r = do
  let addresses = split b',' (c ∷ config)
  r1 ← add_addresses addresses r
  some (record r1 { cluster = retain addresses r1.cluster })
