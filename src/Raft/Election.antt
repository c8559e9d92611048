-- ===== src/Raft/Election.antt =====
-- The elections: the phase before a vote, the vote, and the changes of role.
pub mod Roles
pub mod Ballots
use draft.Base.{
  ℕ, zero, suc, ◌+◌, ◌/◌, Bool, true, false, not, ◌&&◌, ◌||◌, Option, none, some, List, [], ◌∷◌,
  ◌++◌, Str, str_eq, codes, length, ltb, leb, ◌==◌, if◌then◌else◌,
}
use draft.Log.{last_entry_index, ◌>>=◌}
use draft.Raft.Types.{
  Node, Raft, Reconfiguration, server_removal, server_addition, VoteRes, Effect,
  reset_election_timer, remove_election_timer, reset_heartbeat_timer, remove_heartbeat_timer,
  cancel_transfer_timer, sync_vote, set_last_heartbeat, send_pre_vote, send_request_vote, reply,
  emit, leader, candidate, follower, is_leader, is_candidate, next_term,
}
use draft.Raft.Cluster.{Cluster, contains, count_self, is_majority, update_node, update_members}
use draft.Raft.Replicate.{append_entries_each, vote_req}
use draft.Raft.Commit.{adjust_commit_index, complete_reconfiguration, is_alone}

abbrev pub removes : Option Reconfiguration → Bool
removes none = false
removes (some c) = elim c.type [ server_removal ↦ true | server_addition ↦ false ]

abbrev pub unanswered : Option Bool → Bool
unanswered none = false
unanswered (some ready) = not ready

-- The part of `step_down` for a leadership transfer that is going on.
unfoldable pub transferred : Str → Option Str → Raft → Raft
unfolding update_node
transferred cur_leader none r = r
transferred cur_leader (some target) r =
    let r1 = update_node target (λ n. record n { transfer_leader_to = false }) r in
    let r2 =
      if removes r.recfg
      then emit cancel_transfer_timer
          (complete_reconfiguration (codes "OK") (record r1 { leader_id = cur_leader }))
      else if unanswered r.server_transfer_reply_to
      then emit cancel_transfer_timer (emit (reply (codes "OK " ++ target)) r1)
      else r1 in
    record r2 { server_transfer_reply_to = none; server_transfer_leader_to = none }

unfoldable pub step_down : ℕ → Str → Raft → Raft
unfolding transferred complete_reconfiguration
step_down new_term cur_leader r = transferred cur_leader r.server_transfer_leader_to (
    emit reset_election_timer (
      emit sync_vote
        (record (emit remove_heartbeat_timer r) { role = follower; curr_term = new_term })))

-- `append_entries()`: a round of heartbeats.
unfoldable pub append_entries : Raft → Option Raft
append_entries r =
    let r1 = emit reset_heartbeat_timer r in
    if is_leader r.role
    then (do
      r2 ← append_entries_each r1.cluster (emit set_last_heartbeat r1)
      if is_alone r2 then adjust_commit_index r2 else some r2)
    else some r1

unfoldable pub step_up : Raft → Option Raft
unfolding update_members
step_up r = do
  last ← last_entry_index r.log
  append_entries (
      emit remove_election_timer (
        update_members (λ n. record n { match_index = 0; next_index = last + 1 })
          (record r { role = leader; leader_id = r.self_id })))

-- A request to each other member.
unfoldable pub request_votes : Cluster → Raft → Option Raft
request_votes [] r = some r
request_votes ((a, n) ∷ c) r =
    let others = request_votes c r in
    if str_eq n.id r.self_id
    then others
    else (do req ← vote_req r false; request_votes c (emit (send_request_vote n.id req) r))

abbrev pub stand : Raft → Raft
stand r = emit sync_vote (record r {
  role = candidate;
  leader_id = codes "unknown";
  curr_term = next_term r.curr_term;
  voted_for = r.self_id;
  votes = count_self r.self_id r.cluster;
})

unfoldable pub leader_election : Raft → Option Raft
leader_election r =
    let r1 = stand r in
    if is_alone r1
    then step_up r1
    else (do r2 ← request_votes r1.cluster r1; some (emit reset_election_timer r2))

unfoldable pub send_pre_votes : Bool → Cluster → Raft → Option Raft
send_pre_votes early [] r = some r
send_pre_votes early ((a, n) ∷ c) r =
    let others = send_pre_votes early c r in
    if str_eq n.id r.self_id
    then others
    else (do req ← vote_req r early; send_pre_votes early c (emit (send_pre_vote n.id req) r))

unfoldable pub pre_vote : Bool → Raft → Option Raft
pre_vote early r =
    if is_alone r
    then leader_election r
    else send_pre_votes early r.cluster (record r {
      pre_votes_granted = count_self r.self_id r.cluster;
      pre_votes_refused = 0;
      role = follower;
    })

unfoldable pub checkout : Raft → Option Raft
checkout r =
    if is_majority r.pre_votes_granted r.cluster
    then leader_election r
    else if r.pre_votes_granted + r.pre_votes_refused == length r.cluster
    then some (emit reset_election_timer r)
    else some r

-- The answer to a call, `none` where the call failed.
unfoldable pub on_pre_vote : Option VoteRes → Raft → Option Raft
on_pre_vote res r = if is_candidate r.role || is_leader r.role then some r else elim res [
  | none ↦ checkout (record r { pre_votes_refused = r.pre_votes_refused + 1 })
  | some v ↦ checkout (
      if v.vote_granted
      then record r { pre_votes_granted = r.pre_votes_granted + 1 }
      else record r { pre_votes_refused = r.pre_votes_refused + 1 })
]

abbrev pub on_vote : VoteRes → Raft → Option Raft
on_vote v r =
    if v.vote_granted
    then (if ltb v.term r.curr_term
        then some r
        else (let r1 = record r { votes = r.votes + 1 } in
            if is_majority r1.votes r1.cluster then step_up r1 else some r1))
    else if ltb r.curr_term v.term
    then some (step_down v.term [] r)
    else some r

unfoldable pub on_request_vote : Option VoteRes → Raft → Option Raft
unfolding step_down
on_request_vote none r = some r
on_request_vote (some v) r = if is_candidate r.role then on_vote v r else some r

-- `on_election_timeout` when the timer has run out.
abbrev pub on_election_timeout : Raft → Option Raft
on_election_timeout = pre_vote false
