-- ===== src/Raft/Transfer/Votes.antt =====
-- The handlers of transfers and timers leave the term and the vote, but for a reply of a higher term.
use draft.Base.{
  ◌≡◌, inl, ℕ, refl, Bool, true, false, not, ◌&&◌, Option, none, some, Str, ltb, if◌then◌else◌,
  arith, codes,
}
use draft.Log.{◌>>=◌, drop_upto, EntryLogger}
use draft.Log.Room.{Os, RcErrno}
use draft.Raft.Types.{
  Node, Raft, Reconfiguration, ReconfigurationType, server_addition, server_removal, DataRes, emit,
  init_transfer, is_leader,
}
use draft.Raft.Cluster.{find, update_node}
use draft.Raft.Commit.{complete_reconfiguration}
use draft.Raft.Election.{step_down}
use draft.Raft.Election.Roles.{
  SameVote, KeepsVote, KeepsVote-bind, KeepsVote-if, append_entries_to-vote, append_entries-vote,
  step_down-vote,
}
use draft.Raft.Member.{newly, node_of, do_data_transfer}
use draft.Raft.Member.Votes.{timeout_now-vote, do_data_transfer-vote}
use draft.Raft.Rpc.Advance.{CalmIn-if}
use draft.Raft.Rpc.Changes.{Calm-refl, CalmIn, CalmIn-keeps}
use draft.Raft.Transfer.{
  Walk, transfer_to, send_more, send_on, on_data_transfer, transfer_done, on_done_transfer,
  on_timeout_now, answer_timeout, end_removal, on_leadership_transfer_timeout, on_heartbeat_timeout,
  drop_entries,
}

found-vote :
    (w : Walk) (r : Raft) (o : Option Node)
    → KeepsVote r
        (elim o [ none ↦ some r | some n ↦ do_data_transfer w.exists n (emit init_transfer r) ])
found-vote w r none = (refl, refl, refl, refl, inl refl)
found-vote w r (some n) = do_data_transfer-vote w.exists n (emit init_transfer r)

transfer_to-vote : (w : Walk) (address : Str) (r : Raft) → KeepsVote r (transfer_to w address r)
unfolding transfer_to
transfer_to-vote w address r =
    KeepsVote-if r (not (is_leader r.role)) _ _ (refl, refl, refl, refl, inl refl)
      (found-vote w r (find address r.cluster))

send_more-vote : (w : Walk) (id : Str) (r : Raft) → KeepsVote r (send_more w id r)
unfolding send_more
send_more-vote w id r =
    KeepsVote-if r (not (is_leader r.role)) _ _ (refl, refl, refl, refl, inl refl)
      (KeepsVote-bind r (node_of id r) _ λ n.
        KeepsVote-if r (w.at_end && newly id r.recfg && not w.exists && not n.transfer_data_to) _ _
          (append_entries_to-vote n r) (refl, refl, refl, refl, inl refl))

send_on-vote : (w : Walk) (id : Str) (r : Raft) → KeepsVote r (send_on w id r)
unfolding send_on
send_on-vote w id r =
    KeepsVote-if r (w.at_end && not (w.regular_file && not w.eof)) _ _
      (refl, refl, refl, refl, inl refl) (send_more-vote w id r)

keeps : (r : Raft) (o : Option Raft) → KeepsVote r o → CalmIn r o
keeps r o k = CalmIn-keeps r r o (Calm-refl r) k

pub transfer_to-Calm : (w : Walk) (address : Str) (r : Raft) → CalmIn r (transfer_to w address r)
transfer_to-Calm w address r = keeps r _ (transfer_to-vote w address r)

stepping_down :
    (term : ℕ) (id : Str) (r : Raft)
    → CalmIn r (if ltb r.curr_term term then some (step_down term id r) else some r)
stepping_down term id r = ground (arith, step_down-vote term id r, Calm-refl r)

pub on_data_transfer-Calm :
    (w : Walk) (id : Str) (o : Option DataRes) (r : Raft) → CalmIn r (on_data_transfer w id o r)
unfolding on_data_transfer
on_data_transfer-Calm w id none r = keeps r _ (
    KeepsVote-if r (newly id r.recfg) _ _ (send_more-vote w id r)
      (refl, refl, refl, refl, inl refl))
on_data_transfer-Calm w id (some res) r =
    CalmIn-if r res.success _ _ (keeps r _ (send_on-vote w id r)) (stepping_down res.term id r)

transfer_done-vote : (id : Str) (r : Raft) → KeepsVote r (transfer_done id r)
unfolding transfer_done
transfer_done-vote id r =
    let r1 = update_node id (λ n. record n { transfer_data_to = false }) (emit init_transfer r) in
    KeepsVote-bind r (node_of id r1) _ λ n. unfold update_node in append_entries_to-vote n r1

pub on_done_transfer-Calm :
    (id : Str) (o : Option DataRes) (r : Raft) → CalmIn r (on_done_transfer id o r)
unfolding on_done_transfer
on_done_transfer-Calm id none r = keeps r _ (
    KeepsVote-if r (newly id r.recfg) _ _ (refl, refl, refl, refl, inl refl)
      (refl, refl, refl, refl, inl refl))
on_done_transfer-Calm id (some res) r =
    CalmIn-if r res.success _ _ (keeps r _ (transfer_done-vote id r)) (stepping_down res.term id r)

pub on_timeout_now-Calm :
    (failed : Bool) (id : Str) (r : Raft) → CalmIn r (on_timeout_now failed id r)
unfolding on_timeout_now
on_timeout_now-Calm failed id r = keeps r _ (
    KeepsVote-if r failed _ _
      (KeepsVote-bind r (node_of id r) _ λ n.
        KeepsVote-if r n.transfer_leader_to _ _ (timeout_now-vote n r)
          (refl, refl, refl, refl, inl refl))
      (refl, refl, refl, refl, inl refl))

answer_timeout-vote : (o : Option Bool) (r : Raft) → SameVote r (answer_timeout o r)
answer_timeout-vote none r = (refl, refl, refl, refl, inl refl)
answer_timeout-vote (some true) r = (refl, refl, refl, refl, inl refl)
answer_timeout-vote (some false) r = (refl, refl, refl, refl, inl refl)

end_removal-vote : (o : Option Reconfiguration) (r : Raft) → SameVote r (end_removal o r)
unfolding complete_reconfiguration
end_removal-vote none r = answer_timeout-vote r.server_transfer_reply_to r
end_removal-vote (some c) r = by_type c.type
  where
    by_type :
        (t : ReconfigurationType)
        → SameVote r (elim t [
          | server_removal ↦ complete_reconfiguration (codes "TIMEOUT") r
          | server_addition ↦ answer_timeout r.server_transfer_reply_to r
        ])
    by_type server_removal = (refl, refl, refl, refl, inl refl)
    by_type server_addition = answer_timeout-vote r.server_transfer_reply_to r

pub on_leadership_transfer_timeout-vote :
    (id : Str) (r : Raft) → SameVote r (on_leadership_transfer_timeout id r)
unfolding on_leadership_transfer_timeout update_node
on_leadership_transfer_timeout-vote id r =
    end_removal-vote _ (update_node id (λ n. record n { transfer_leader_to = false }) r)

on_heartbeat_timeout-Calm : (expired : Bool) (r : Raft) → CalmIn r (on_heartbeat_timeout expired r)
unfolding on_heartbeat_timeout
on_heartbeat_timeout-Calm expired r =
    keeps r _
      (KeepsVote-if r expired _ _ (append_entries-vote r) (refl, refl, refl, refl, inl refl))

-- Compaction keeps the term, the vote, the role and the counted votes, and changes the log.
abbrev pub Compacts : Raft → Raft → Type 0
Compacts r r' =
    (r'.curr_term ≡ r.curr_term)
    × (r'.voted_for ≡ r.voted_for)
    × (r'.role ≡ r.role)
    × (r'.votes ≡ r.votes)

abbrev pub CompactsIn : Raft → Option (Raft × RcErrno) → Type 0
CompactsIn r none = Unit
CompactsIn r (some x) = Compacts r x.0

pub drop_entries-Compacts :
    (os : Os) (index : ℕ) (sync : Bool) (r : Raft) → CompactsIn r (drop_entries os index sync r)
unfolding drop_entries
drop_entries-Compacts os index sync r = by_result (drop_upto os index sync r.log)
  where
    by_result :
        (o : Option (EntryLogger × RcErrno))
        → CompactsIn r (o >>= (λ x. some (record r { log = x.0 }, x.1)))
    by_result none = tt
    by_result (some x) = (refl, refl, refl, refl)
