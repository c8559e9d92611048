-- ===== src/Raft/Tests.antt =====
-- A cluster of three servers, on which the theorems on a server are applied.
use draft.Base.{
  suc, ◌+◌, ℕ, ◌≡◌, refl, true, false, Option, none, some, [], ◌∷◌, Str, codes, str_eq, ◌↔◌, arith,
}
use draft.Log.{
  out_of_range, info_at, last_entry, lookup, last_entry_index, last_entry_term, has_entry,
  entry_conflicted, append, append_at, place, finish, sizes,
}
use draft.Log.Entry.{make_entry}
use draft.Log.Room.{lacks_room, grow_until}
use draft.Log.Memory.{put_entry, put_end}
use draft.Log.Tests.{small_disk, one_entry, config_a, one_entry-Rep}
use draft.Raft.Rpc.Total.{GoesOn, Follows, append_entries_lem}
use draft.Log.View.{entry_at}
use draft.Raft.Replicate.{append_entries_req}
use draft.Raft.Replicate.Requests.{wires, append_entries_req-InOrder}
use draft.Raft.Rpc.Skip.{InOrder}
use draft.Raft.Rpc.Store.{Stored, store_entries-Stored}
use draft.Raft.Types.{Node, Raft, VoteReq, VoteRes, AppendEntriesReq, follower, leader, RoleType}
use draft.Raft.Cluster.{contains}
use draft.Raft.Commit.{adjust_commit_index, is_alone}
use draft.Raft.Election.{step_down, leader_election}
use draft.Raft.Election.Ballots.{Stands, leader_election_lem}
use draft.Raft.Rpc.{
  Answer, request_vote, append_entries, adopt, store_entries, skip_existing, make_entries,
}
use draft.Raft.Rpc.Vote.{MayHave, request_vote_lem}
use draft.Raft.Rpc.Steps.{asked_to_vote}
use draft.Raft.Rpc.Once.{Run, stay, go_on, vote_once}
use draft.Raft.Rpc.Follow.{Told, append_entries-Told}

abbrev member : Str → ℕ → Node
member id match_index = record {
  id = id;
  alive = true;
  next_index = 2;
  match_index = match_index;
  transfer_leader_to = false;
  transfer_data_to = false;
}

abbrev pub server : RoleType → Raft
server role = record {
  self_id = codes "a:1";
  interface_address = codes "a";
  rpc_port = codes "1";
  log = one_entry;
  role = role;
  leader_id = codes "b:1";
  curr_term = 1;
  voted_for = [];
  commit_index = 0;
  last_applied = 0;
  votes = 0;
  pre_votes_granted = 0;
  pre_votes_refused = 0;
  cluster =
      (codes "a:1", member (codes "a:1") 0)
      ∷ (codes "b:1", member (codes "b:1") 1)
      ∷ (codes "c:1", member (codes "c:1") 0)
      ∷ [];
  recfg = none;
  server_transfer_leader_to = none;
  server_transfer_reply_to = none;
  log_compaction_enabled = true;
  min_election_timeout = 150;
  server_catch_up_rounds = 10;
  effects = [];
}

abbrev or_else {ℓ} : {A : Type ℓ} → A → Option A → A
or_else d none = d
or_else d (some a) = a

abbrev ask : Str → VoteReq
ask id = record {
  term = 2;
  candidate_id = id;
  last_log_index = 1;
  last_log_term = 1;
  early = false;
}

abbrev refusal : VoteRes
refusal = record { term = 0; vote_granted = false }

abbrev voted : VoteReq → Raft → Raft × VoteRes
voted req r = or_else (r, refusal) (request_vote req r)

abbrev asked : Raft × VoteRes
asked = voted (ask (codes "b:1")) (server follower)

abbrev rival : Raft × VoteRes
rival = voted (ask (codes "c:1")) asked.0

abbrev again : Raft × VoteRes
again = voted (ask (codes "b:1")) rival.0

asked_is : request_vote (ask (codes "b:1")) (server follower) ≡ some asked
unfolding request_vote adopt step_down last_entry_index last_entry_term last_entry str_eq
asked_is = refl

asked_granted : asked.1.vote_granted ≡ true
unfolding request_vote adopt step_down last_entry_index last_entry_term last_entry str_eq
asked_granted = refl

rival_is : request_vote (ask (codes "c:1")) asked.0 ≡ some rival
unfolding request_vote adopt step_down last_entry_index last_entry_term last_entry str_eq
rival_is = refl

again_is : request_vote (ask (codes "b:1")) rival.0 ≡ some again
unfolding request_vote adopt step_down last_entry_index last_entry_term last_entry str_eq
again_is = refl

again_granted : again.1.vote_granted ≡ true
unfolding request_vote adopt step_down last_entry_index last_entry_term last_entry str_eq
again_granted = refl

rival-Run : Run small_disk asked.0 rival.0
rival-Run = go_on (asked_to_vote (ask (codes "c:1")) rival.1 rival_is) stay

vote_once_example : (ask (codes "b:1")).candidate_id ≡ (ask (codes "b:1")).candidate_id
vote_once_example =
    vote_once small_disk (ask (codes "b:1")) (ask (codes "b:1")) (server follower) asked.0 rival.0
      again.0 asked.1 again.1 asked_is asked_granted rival-Run again_is again_granted refl (λ e. cc)

last_index : last_entry_index (server follower).log ≡ some 1
unfolding last_entry_index last_entry
last_index = refl

last_term : last_entry_term (server follower).log ≡ some 1
unfolding last_entry_term last_entry
last_term = refl

request_vote_lem_example :
    (r' : Raft) × (res : VoteRes) × (request_vote (ask (codes "b:1")) (server follower)
      ≡ some (r', res))
    × (res.vote_granted ≡ true ↔ MayHave (ask (codes "b:1")) 1 1 (server follower))
request_vote_lem_example =
    request_vote_lem (ask (codes "b:1")) (server follower) 1 1 last_index last_term

abbrev adjusted : Raft
adjusted = or_else (server leader) (adjust_commit_index (server leader))

not_alone : is_alone (server leader) ≡ false
unfolding contains str_eq
not_alone = refl

leader_election_lem_example :
    (r' : Raft) × (leader_election (server leader) ≡ some r') × Stands (server leader) 1 1 r'
leader_election_lem_example = leader_election_lem (server leader) 1 1 not_alone last_index last_term

abbrev heartbeat : AppendEntriesReq
heartbeat = record {
  term = 1;
  leader_id = codes "b:1";
  prev_log_index = 1;
  prev_log_term = 1;
  entries = (record { term = 1; index = 2; text = codes "x"; config = false }) ∷ [];
  leader_commit = 1;
}

abbrev followed : Answer
followed =
    or_else (server follower, record { term = 0; success = false; match_index = 0 }, true)
      (append_entries small_disk heartbeat (server follower))

followed_is : append_entries small_disk heartbeat (server follower) ≡ some followed
unfolding append_entries adopt store_entries skip_existing make_entries make_entry has_entry lookup
    out_of_range info_at entry_conflicted append append_at place finish sizes grow_until lacks_room
    put_entry put_end last_entry_index last_entry
followed_is = refl

append_entries-Told_example : Told small_disk heartbeat (server follower) followed
append_entries-Told_example =
    append_entries-Told small_disk heartbeat (server follower) followed followed_is

store_entries-Stored_example :
    Stored one_entry
      (config_a ∷ [])
      0
      ((record { term = 2; index = 1; text = codes "x"; config = false }) ∷ [])
      (store_entries small_disk
        ((record { term = 2; index = 1; text = codes "x"; config = false }) ∷ [])
        one_entry)
store_entries-Stored_example =
    store_entries-Stored small_disk one_entry (config_a ∷ []) 0
      ((record { term = 2; index = 1; text = codes "x"; config = false }) ∷ []) one_entry-Rep
      (omega arith) (omega arith) (refl, tt)

heartbeat-GoesOn : GoesOn heartbeat one_entry
heartbeat-GoesOn = ((omega arith), (refl, tt))

append_entries_lem_example :
    (x : Answer) × (append_entries small_disk heartbeat (server follower) ≡ some x)
    × Told small_disk heartbeat (server follower) x
    × Follows small_disk heartbeat
        (server follower)
        (config_a ∷ [])
        one_entry-Rep
        (omega arith)
        heartbeat-GoesOn
        x.0.log
        x.1.success
append_entries_lem_example =
    append_entries_lem small_disk heartbeat (server follower) (config_a ∷ []) one_entry-Rep
      (omega arith) heartbeat-GoesOn

append_entries_req-InOrder_example :
    (req : AppendEntriesReq) × (append_entries_req
        (server leader)
        (record (member (codes "b:1") 0) { next_index = 1 })
      ≡ some req)
    × (req.prev_log_index + 1 ≡ 1)
    × (req.prev_log_term ≡ 0)
    × (req.entries ≡ wires (config_a ∷ []))
    × (req.term ≡ (server leader).curr_term)
    × (req.leader_id ≡ (server leader).self_id)
    × (req.leader_commit ≡ (server leader).commit_index)
    × InOrder (suc req.prev_log_index) req.entries
unfolding entry_at
append_entries_req-InOrder_example =
    append_entries_req-InOrder (server leader) (config_a ∷ []) one_entry-Rep
      (record (member (codes "b:1") 0) { next_index = 1 }) (omega arith) (omega arith)
