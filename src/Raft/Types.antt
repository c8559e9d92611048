-- ===== src/Raft/Types.antt =====
-- The state of a server (the fields of `raft_impl`), its messages (raft.proto) and its effects.
-- The request ids, which only label lines of the program's log, are left out but for that of a data
-- transfer, whose first request differs from the others.
use draft.Base.{ℕ, ◌+◌, ◌%◌, ◌^◌, Bool, Option, List, [], ◌∷◌, ◌++◌, Str}
use draft.Log.{EntryLogger}

pub data RoleType : Type 0 where
  leader candidate follower : RoleType

pub data ReconfigurationType : Type 0 where
  server_addition server_removal : ReconfigurationType

-- A member of the cluster. `id` is its `host:port`, at most 21 bytes for an IPv4 address.
pub record Node : Type 0 where
  pub id : Str
  pub alive : Bool
  pub next_index : ℕ
  pub match_index : ℕ
  pub transfer_leader_to : Bool
  pub transfer_data_to : Bool

pub record VoteReq : Type 0 where
  pub term : ℕ
  pub candidate_id : Str
  pub last_log_index : ℕ
  pub last_log_term : ℕ
  pub early : Bool

pub record VoteRes : Type 0 where
  pub term : ℕ
  pub vote_granted : Bool

-- `LogEntry` of raft.proto.
pub record WireEntry : Type 0 where
  pub term : ℕ
  pub index : ℕ
  pub text : Str
  pub config : Bool

pub record AppendEntriesReq : Type 0 where
  pub term : ℕ
  pub leader_id : Str
  pub prev_log_index : ℕ
  pub prev_log_term : ℕ
  pub entries : List WireEntry
  pub leader_commit : ℕ

pub record AppendEntriesRes : Type 0 where
  pub term : ℕ
  pub success : Bool
  pub match_index : ℕ

pub record DataReq : Type 0 where
  pub term : ℕ
  pub leader_id : Str
  pub last_index : ℕ
  pub last_term : ℕ
  pub last_config : Str
  pub name : Str
  pub id : ℕ

pub record DataRes : Type 0 where
  pub term : ℕ
  pub success : Bool

pub record Reconfiguration : Type 0 where
  pub type : ReconfigurationType
  pub address : Str
  pub rounds : ℕ
  pub entry_added : Bool
  pub node : Node

-- What a handler does beside changing the state.
pub data Effect : Type 0 where
  reset_election_timer remove_election_timer reset_heartbeat_timer remove_heartbeat_timer : Effect
  reset_transfer_timer cancel_transfer_timer sync_vote set_last_heartbeat : Effect
  push_committed push_transfer init_transfer : Effect
  send_pre_vote send_request_vote send_timeout_now : Str → VoteReq → Effect
  send_append_entries : Str → AppendEntriesReq → Effect
  start_data_transfer send_done_transfer : Str → Effect
  data_transfer_callback : Str → Effect
  reply : Str → Effect

pub record Raft : Type 0 where
  pub self_id : Str
  pub interface_address : Str
  pub rpc_port : Str
  pub log : EntryLogger
  pub role : RoleType
  pub leader_id : Str
  pub curr_term : ℕ
  pub voted_for : Str
  pub commit_index : ℕ
  pub last_applied : ℕ
  pub votes : ℕ
  pub pre_votes_granted : ℕ
  pub pre_votes_refused : ℕ
  pub cluster : List (Str × Node)
  pub recfg : Option Reconfiguration
  pub server_transfer_leader_to : Option Str
  -- The response of a leadership transfer, with its flag `ready`.
  pub server_transfer_reply_to : Option Bool
  pub log_compaction_enabled : Bool
  pub min_election_timeout : ℕ
  pub server_catch_up_rounds : ℕ
  pub effects : List Effect

abbrev pub emit : Effect → Raft → Raft
emit e r = record r { effects = r.effects ++ e ∷ [] }

abbrev pub is_leader : RoleType → Bool
is_leader leader = Bool.true
is_leader _ = Bool.false

abbrev pub is_candidate : RoleType → Bool
is_candidate candidate = Bool.true
is_candidate _ = Bool.false

-- `++curr_term()` on `uint64_t`.
abbrev pub next_term : ℕ → ℕ
next_term t = (t + 1) % 2 ^ 64
