-- ===== src/Raft/Transfer.antt =====
-- The transfer of data as the leader makes it, and the timers of a transfer of leadership and of the
-- heartbeats. What the walk over the files finds is the record `Walk`; the bytes of the files stay
-- in the effects.
pub mod Votes
use draft.Base.{
  ℕ, Bool, true, false, not, ◌&&◌, Option, none, some, [], ◌∷◌, ◌++◌, Str, codes, ltb,
  if◌then◌else◌,
}
use draft.Log.{drop_upto, ◌>>=◌}
use draft.Log.Room.{Os, RcErrno}
use draft.Raft.Types.{
  Node, Raft, Reconfiguration, server_addition, server_removal, DataRes, emit, reply, init_transfer,
  start_data_transfer, send_done_transfer, is_leader,
}
use draft.Raft.Cluster.{find, update_node}
use draft.Raft.Replicate.{append_entries_to, timeout_now}
use draft.Raft.Commit.{complete_reconfiguration}
use draft.Raft.Election.{step_down, append_entries}
use draft.Raft.Member.{newly, node_of, do_data_transfer}

-- `begin == end`, whether `path_` is there and is a file, and whether its last byte was read.
pub record Walk : Type 0 where
  pub at_end : Bool
  pub exists : Bool
  pub regular_file : Bool
  pub eof : Bool

-- `do_data_transfer(address, path)`.
unfoldable pub transfer_to : Walk → Str → Raft → Option Raft
transfer_to w address r = if not (is_leader r.role) then some r else elim (find address r.cluster) [
  | none ↦ some r
  | some n ↦ do_data_transfer w.exists n (emit init_transfer r)
]

-- `do_data_transfer(node*)` for the requests behind the first.
unfoldable pub send_more : Walk → Str → Raft → Option Raft
send_more w id r = if not (is_leader r.role) then some r else (do
  n ← node_of id r
  if w.at_end && newly id r.recfg && not w.exists && not n.transfer_data_to
      then append_entries_to n r
      else some (emit (start_data_transfer id) r))

-- A request that was stored: the next one, or the end.
unfoldable pub send_on : Walk → Str → Raft → Option Raft
send_on w id r =
    if w.at_end && not (w.regular_file && not w.eof)
    then some (emit (send_done_transfer id) r)
    else send_more w id r

-- `on_data_transfer`; `none` is a call that failed.
unfoldable pub on_data_transfer : Walk → Str → Option DataRes → Raft → Option Raft
on_data_transfer w id none r = if newly id r.recfg then send_more w id r else some r
on_data_transfer w id (some res) r =
    if res.success
    then send_on w id r
    else if ltb r.curr_term res.term
    then some (step_down res.term id r)
    else some r

-- The member has the data and is sent entries.
unfoldable pub transfer_done : Str → Raft → Option Raft
transfer_done id r = do
  let r1 = update_node id (λ n. record n { transfer_data_to = false }) (emit init_transfer r)
  n ← node_of id r1
  append_entries_to n r1

unfoldable pub on_done_transfer : Str → Option DataRes → Raft → Option Raft
on_done_transfer id none r =
    if newly id r.recfg then some (emit (send_done_transfer id) r) else some r
on_done_transfer id (some res) r =
    if res.success
    then transfer_done id r
    else if ltb r.curr_term res.term
    then some (step_down res.term id r)
    else some r

-- A call of timeout_now that failed is made again while the transfer of leadership goes on.
unfoldable pub on_timeout_now : Bool → Str → Raft → Option Raft
on_timeout_now failed id r =
    if failed
    then (do n ← node_of id r; if n.transfer_leader_to then timeout_now n r else some r)
    else some r

abbrev pub answer_timeout : Option Bool → Raft → Raft
answer_timeout (some false) r = emit (reply (codes "TIMEOUT" ++ r.leader_id)) r
answer_timeout _ r = r

abbrev pub end_removal : Option Reconfiguration → Raft → Raft
end_removal none r = answer_timeout r.server_transfer_reply_to r
end_removal (some c) r = elim c.type [
  | server_removal ↦ complete_reconfiguration (codes "TIMEOUT") r
  | server_addition ↦ answer_timeout r.server_transfer_reply_to r
]

-- `on_leadership_transfer_timeout`, when the timer ran out.
unfoldable pub on_leadership_transfer_timeout : Str → Raft → Raft
on_leadership_transfer_timeout id r =
    let r1 = update_node id (λ n. record n { transfer_leader_to = false }) r in
    record (end_removal r1.recfg r1) {
      server_transfer_reply_to = none;
      server_transfer_leader_to = none;
    }

-- `on_heartbeat_timeout`, with whether the timer ran out.
unfoldable pub on_heartbeat_timeout : Bool → Raft → Option Raft
on_heartbeat_timeout expired r = if expired then append_entries r else some r

-- `raft_impl::drop`; the entries go from the log.
unfoldable pub drop_entries : Os → ℕ → Bool → Raft → Option (Raft × RcErrno)
drop_entries os index sync r = do
  (l, rc) ← drop_upto os index sync r.log
  some (record r { log = l }, rc)
