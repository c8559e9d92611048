-- ===== src/Raft.antt =====
-- raft/raft_impl.hpp, raft/raft_rpc.hpp, raft/raft_base.hpp and raft/raft.proto: a Raft server. The
-- state is a record, a handler returns the new state, and what it sends, replies, saves or sets a timer
-- for is a list of effects in the order of the calls.
pub mod Tests
pub mod Types
pub mod Growth
pub mod Cluster
pub mod Replicate
pub mod Commit
pub mod Election
pub mod Configure
pub mod Member
pub mod Respond
pub mod Settings
pub mod Startup
pub mod Transfer
pub mod Rpc
pub mod Safety
pub mod Files
