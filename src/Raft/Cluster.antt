-- ===== src/Raft/Cluster.antt =====
-- The map of the members by address, and the configuration text made of it.
use draft.Base.{
  ℕ, ◌/◌, Bool, true, false, Option, none, some, List, [], ◌∷◌, ◌++◌, Str, str_eq, length, ltb,
  if◌then◌else◌,
}
use draft.Raft.Types.{Node, Raft, Reconfiguration}

abbrev pub Cluster : Type 0
Cluster = List (Str × Node)

unfoldable pub find : Str → Cluster → Option Node
find a [] = none
find a ((b, n) ∷ c) = if str_eq a b then some n else find a c

unfoldable pub contains : Str → Cluster → Bool
contains a [] = false
contains a ((b, n) ∷ c) = if str_eq a b then true else contains a c

-- `emplace` and `insert`: an address that is there keeps its node.
unfoldable pub emplace : Str → Node → Cluster → Cluster
unfolding contains
emplace a n c = if contains a c then c else c ++ (a, n) ∷ []

unfoldable pub erase : Str → Cluster → Cluster
erase a [] = []
erase a ((b, n) ∷ c) = let rest = erase a c in if str_eq a b then rest else (b, n) ∷ rest

-- A change of the nodes whose id is `a`, made through a pointer to the node.
unfoldable pub update : Str → (Node → Node) → Cluster → Cluster
update a f [] = []
update a f ((b, n) ∷ c) = (b, if str_eq n.id a then f n else n) ∷ update a f c

unfoldable pub map_nodes : (Node → Node) → Cluster → Cluster
map_nodes f [] = []
map_nodes f ((b, n) ∷ c) = (b, f n) ∷ map_nodes f c

abbrev pub update_recfg : Str → (Node → Node) → Option Reconfiguration → Option Reconfiguration
update_recfg id f none = none
update_recfg id f (some c) =
    some (record c { node = if str_eq c.node.id id then f c.node else c.node })

-- A change of the node `id`, wherever it is held: in the cluster, in the reconfiguration, or in both.
unfoldable pub update_node : Str → (Node → Node) → Raft → Raft
update_node id f r = record r { cluster = update id f r.cluster; recfg = update_recfg id f r.recfg }

-- A change of every member, also where the reconfiguration holds the member's node.
unfoldable pub update_members : (Node → Node) → Raft → Raft
unfolding contains
update_members f r = record r {
  cluster = map_nodes f r.cluster;
  recfg = elim r.recfg [
    | none ↦ none
    | some c ↦ some (record c { node = if contains c.node.id r.cluster then f c.node else c.node })
  ];
}

abbrev pub count_self : Str → Cluster → ℕ
count_self a c = if contains a c then 1 else 0

-- `serialize_configuration`: the ids, with commas between them.
unfoldable pub serialize_configuration : Cluster → Str
serialize_configuration [] = []
serialize_configuration ((a, n) ∷ []) = n.id
serialize_configuration ((a, n) ∷ m ∷ c) = n.id ++ (b',' ∷ serialize_configuration (m ∷ c))

abbrev better : Option Node → Node → Bool
better none n = true
better (some m) n = ltb m.match_index n.match_index

latest : Str → Option Node → Cluster → Option Node
latest self best [] = best
latest self best ((a, n) ∷ c) =
    latest self (if str_eq n.id self then best else if better best n then some n else best) c

-- `latest_server`: a member other than this one with the greatest match index, the first of them.
unfoldable pub latest_server : Str → Cluster → Str
unfolding latest
latest_server self c = elim (latest self none c) [ none ↦ self | some n ↦ n.id ]

-- More than half of the members.
abbrev pub is_majority : ℕ → Cluster → Bool
is_majority n c = ltb (length c / 2) n
