-- ===== src/Raft/Member.antt =====
-- Answers to `append_entries`, the catching up of a new member, the changes of membership and the
-- transfer of leadership.
pub mod Votes
pub mod Requests
use draft.Base.{
  ℕ, ◌+◌, ◌-◌, Bool, true, false, not, ◌&&◌, ◌||◌, Option, none, some, [], ◌∷◌, ◌++◌, Str, str_eq,
  codes, length, ltb, leb, ◌==◌, if◌then◌else◌,
}
use draft.Log.{lookup, last_entry_index, append as log_append, ◌>>=◌}
use draft.Log.Entry.{make_entry as log_make_entry}
use draft.Log.Room.{Os, RcErrno, rc_good, rc_error, is_good}
use draft.Raft.Types.{
  Node, Raft, Reconfiguration, ReconfigurationType, server_addition, server_removal,
  AppendEntriesRes, init_transfer, start_data_transfer, reset_transfer_timer, emit, is_leader,
}
use draft.Raft.Cluster.{
  Cluster, find, contains, emplace, erase, update_node, serialize_configuration, latest_server,
}
use draft.Raft.Replicate.{append_entries_to, timeout_now}
use draft.Raft.Commit.{adjust_commit_index, complete_reconfiguration}
use draft.Raft.Election.{step_down, append_entries}
use draft.Raft.Configure.{make_id, make_node, default_rpc_port}

-- `newly(n)`: the node is the one that is being added.
abbrev pub newly : Str → Option Reconfiguration → Bool
newly id none = false
newly id (some c) = elim c.type [ server_addition ↦ str_eq c.node.id id | server_removal ↦ false ]

unfoldable pub find_id : Str → Cluster → Option Node
find_id id [] = none
find_id id ((a, n) ∷ c) = if str_eq n.id id then some n else find_id id c

-- The node behind a pointer: that of the reconfiguration, or the member.
abbrev pub node_of : Str → Raft → Option Node
node_of id r = elim r.recfg [
  | none ↦ find_id id r.cluster
  | some c ↦ if str_eq c.node.id id then some c.node else find_id id r.cluster
]

-- `make_entry` of `raft_impl` for the next index, and its `append`, synced.
unfoldable pub append_entry : Os → Str → Bool → Raft → Option (Raft × RcErrno)
append_entry os text cfg r = do
  last ← last_entry_index r.log
  let e = log_make_entry r.log.cfg_entry_index text (last + 1) r.curr_term cfg
  (l, rc) ← log_append os (e ∷ []) true r.log
  some (record r { log = l }, rc)

-- `raft_impl::append`, for a client's command: the index of the entry, 0 where it fails, and nothing
-- where the server does not lead, whose result is the code `RC_NOT_LEADER` as an unsigned number.
unfoldable pub append : Os → Str → Raft → Option (Raft × Option ℕ)
unfolding append_entry
append os text r =
    if is_leader r.role
    then (do
      last ← last_entry_index r.log
      (r', rc) ← append_entry os text false r
      some (r', some (if is_good rc then last + 1 else 0)))
    else some (r, none)

-- `do_data_transfer(node*)` behind `init_transfer`; `exists` is whether the path is there.
unfoldable pub do_data_transfer : Bool → Node → Raft → Option Raft
do_data_transfer exists n r =
    if not (is_leader r.role)
    then some r
    else if newly n.id r.recfg && not exists && not n.transfer_data_to
    then append_entries_to n r
    else (do
      last ← last_entry_index r.log
      some (
          emit (start_data_transfer n.id) (
            update_node n.id (λ m. record m { transfer_data_to = true; next_index = last + 1 }) r)))

abbrev pub close_to : ℕ → ℕ → Bool
close_to last match_index = leb match_index last && leb (last - match_index) 5

-- The entry of the new configuration, unless it is there, and a round of heartbeats.
unfoldable pub deploy : Os → Reconfiguration → Raft → Option Raft
unfolding append_entry
deploy os c r = if c.entry_added then append_entries r else (do
  let r1 = record r { cluster = emplace c.node.id c.node r.cluster }
  (r2, rc) ← append_entry os (serialize_configuration r1.cluster) true r1
  if is_good rc
      then append_entries (record r2 { recfg = some (record c { entry_added = true }) })
      else some (complete_reconfiguration (codes "ERROR") r2))

-- `rounds < server_catch_up_rounds_ - 1` on `uint32_t`.
abbrev pub rounds_left : ℕ → ℕ → Bool
rounds_left rounds limit = limit == 0 || ltb (rounds + 1) limit

-- `handle_catch_up_server_append_entries`, with the milliseconds since the last round.
unfoldable pub handle_catch_up : Os → ℕ → Raft → Option Raft
unfolding deploy
handle_catch_up os msecs r = elim r.recfg [
  | none ↦ none
  | some c ↦ do
    last ← last_entry_index r.log
    if rounds_left c.rounds r.server_catch_up_rounds
        then append_entries_to c.node
            (record r { recfg = some (record c { rounds = c.rounds + 1 }) })
        else if ltb msecs r.min_election_timeout && close_to last c.node.match_index
        then deploy os c r
        else some (complete_reconfiguration (codes "TIMEOUT") r)
]

unfoldable pub handle_transfer_leader_to : Node → Raft → Option Raft
handle_transfer_leader_to n r = do
  last ← last_entry_index r.log
  if n.match_index == last then timeout_now n r else some r

abbrev pub catch_up : Os → ℕ → Str → Raft → Option Raft
catch_up os msecs id r = if newly id r.recfg then handle_catch_up os msecs r else some r

-- A member holds the entries up to its match index.
unfoldable pub on_success : Os → ℕ → Str → AppendEntriesRes → Raft → Option Raft
on_success os msecs id res r = do
  let r1 =
      update_node id
        (λ n. record n { match_index = res.match_index; next_index = res.match_index + 1 }) r
  n ← node_of id r1
  r2 ← adjust_commit_index r1
  r3 ← (if n.transfer_leader_to then handle_transfer_leader_to n r2 else some r2)
  catch_up os msecs id r3

-- The logs differ: try the entry behind the member's last one, or send the data if it is gone.
unfoldable pub on_mismatch : Bool → Str → AppendEntriesRes → Raft → Option Raft
on_mismatch exists id res r = elim (lookup r.log (res.match_index + 1)) [
  | none ↦ do
    let r1 =
        update_node id (λ n. record n { next_index = res.match_index + 1; transfer_data_to = true })
          r
    n ← node_of id r1
    do_data_transfer exists n (emit init_transfer r1)
  | some e ↦ do
    let r1 = update_node id (λ n. record n { next_index = res.match_index + 1 }) r
    n ← node_of id r1
    append_entries_to n r1
]

unfoldable pub on_append_entries :
    Os → ℕ → Bool → Str → Option AppendEntriesRes → Raft → Option Raft
unfolding on_success on_mismatch step_down
on_append_entries os msecs exists id none r = catch_up os msecs id r
on_append_entries os msecs exists id (some res) r =
    if not (is_leader r.role)
    then some r
    else if res.success
    then on_success os msecs id res r
    else if ltb r.curr_term res.term
    then some (step_down res.term id r)
    else on_mismatch exists id res r

-- A request of an operator: the new state, the result and the text of the reply.
abbrev pub Request : Type 0
Request = Option (Raft × RcErrno × Str)

abbrev pub refuse : Str → Raft → Request
refuse why r = some (r, rc_error, why ++ (b' ' ∷ r.leader_id))

-- `make_config`, with the flag `ready` of the response taken back.
abbrev pub make_config : Str → Node → ReconfigurationType → Raft → Raft
make_config address n type r = record r {
  recfg =
      some (record { type = type; address = address; rounds = 0; entry_added = false; node = n });
}

abbrev pub is_some : Option Reconfiguration → Bool
is_some none = false
is_some (some c) = true

unfoldable pub add_server : Bool → (Str → Bool) → Str → Raft → Request
add_server exists is_ipv4 target r =
    let address = make_id r target in
    if not (is_leader r.role)
    then refuse (codes "NOT_LEADER") r
    else if contains address r.cluster
    then refuse (codes "IN_CFG") r
    else if not (is_ipv4 address)
    then refuse (codes "INVALID_SERVER") r
    else if is_some r.recfg
    then refuse (codes "INPROGRESS") r
    else (do
      n ← make_node r address default_rpc_port
      let r1 = make_config address n server_addition r
      r2 ←
          (if r1.log_compaction_enabled
            then do_data_transfer exists n (emit init_transfer r1)
            else append_entries_to n r1)
      some (r2, rc_good, []))

abbrev pub transfer_target : Raft → Str → Option Node
transfer_target r address = find address r.cluster

-- The part of `leadership_transfer` behind its tests.
unfoldable pub hand_over : Node → Raft → Option Raft
hand_over n r = do
  last ← last_entry_index r.log
  let r1 = record (update_node n.id (λ m. record m { transfer_leader_to = true }) r) {
    server_transfer_leader_to = some n.id;
    server_transfer_reply_to = some false;
  }
  if n.match_index == last
      then timeout_now n r1
      else (do r2 ← append_entries_to n r1; some (emit reset_transfer_timer r2))

abbrev pub is_transferring : Option Str → Bool
is_transferring none = false
is_transferring (some s) = true

unfoldable pub leadership_transfer : Str → Raft → Request
unfolding hand_over
leadership_transfer target r =
    let address = make_id r target in
    if not (is_leader r.role)
    then refuse (codes "NOT_LEADER") r
    else if str_eq address []
    then refuse (codes "EMPTY_SERVER") r
    else if is_transferring r.server_transfer_leader_to
    then refuse (codes "INPROGRESS") r
    else if str_eq address r.self_id
    then refuse (codes "IN_CFG") r
    else elim (transfer_target r address) [
      | none ↦ refuse (codes "NOT_IN_CFG") r
      | some n ↦ do r1 ← hand_over n r; some (r1, rc_good, [])
    ]

abbrev pub remove_self : Str → Node → Raft → Request
remove_self address n r = do
  (r1, rc, text) ← leadership_transfer (latest_server r.self_id r.cluster) r
  some (
      if is_good rc
      then (make_config address n server_removal r1, rc_good, text)
      else (r1, rc_error, codes "ERROR " ++ r.leader_id))

abbrev pub remove_other : Str → Node → Raft → Request
remove_other address n r = do
  r1 ← append_entries (make_config address n server_removal r)
  some (r1, rc_good, [])

unfoldable pub del_server : Os → Str → Raft → Request
unfolding leadership_transfer append_entry
del_server os target r =
    let address = make_id r target in
    if not (is_leader r.role)
    then refuse (codes "NOT_LEADER") r
    else elim (find address r.cluster) [
      | none ↦ refuse (codes "NOT_IN_CFG") r
      | some n ↦
          if is_some r.recfg
          then refuse (codes "INPROGRESS") r
          else if length r.cluster == 1
          then refuse (codes "UNIQUE_SERVER") r
          else (do
            let r1 = record r { cluster = erase address r.cluster }
            (r2, rc) ← append_entry os (serialize_configuration r1.cluster) true r1
            if not (is_good rc)
                then refuse (codes "ERROR") r2
                else if str_eq address r.self_id
                then remove_self address n r2
                else remove_other address n r2)
    ]
