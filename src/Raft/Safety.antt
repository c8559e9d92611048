-- ===== src/Raft/Safety.antt =====
-- A cluster of servers with fixed members: the steps of each server, tick by tick, and the answers to the
-- requests for a vote (raft/raft_rpc.hpp) that a candidate counts (raft/raft_impl.hpp).
mod Timeline
mod Tests
mod LogTests
pub mod Tally
pub mod Held
pub mod Ticks
pub mod Unique
pub mod AppendOnly
use draft.Base.{
  ℕ, suc, ◌≤◌, ◌<◌, ◌≡◌, Bool, true, false, Option, some, List, [], ◌∷◌, Str, ◌==◌, if◌then◌else◌,
}
use draft.Log.Room.{Os}
use draft.Raft.Types.{Raft, VoteReq, VoteRes, follower}
use draft.Raft.Cluster.{Cluster}
use draft.Raft.Configure.{mem}
use draft.Raft.Election.{on_request_vote}
use draft.Raft.Replicate.{vote_req}
use draft.Raft.Rpc.{request_vote}
use draft.Raft.Rpc.Steps.{Step, is_grant}

abbrev pub addresses : Cluster → List Str
addresses [] = []
addresses ((a, n) ∷ c) = a ∷ addresses c

module _ (os : Os) (members : List Str) (at : Str → ℕ → Raft) where
  -- The server `m` rests, starts again or makes a step; `granted` lists the members whose votes it has in its term.
  -- An answer that grants a vote is that of a member, to a request that the server filled at a tick, in a
  -- term that it has or had, and a member answers once.
  pub data Tick (m : Str) (r : Raft) (granted : List Str) (r' : Raft) (granted' : List Str)
      : Type 0 where
    rests : r' ≡ r → granted' ≡ granted → Tick m r granted r' granted'
    -- A server that starts again follows, and has the term and the vote of its vote file, which is mapped.
    restarts :
        r'.curr_term ≡ r.curr_term
        → r'.voted_for ≡ r.voted_for
        → r'.role ≡ follower
        → granted' ≡ granted
        → Tick m r granted r' granted'
    acts :
        (x : Step os r r')
        → is_grant x ≡ false
        → granted' ≡ (if r'.curr_term == r.curr_term then granted else m ∷ [])
        → Tick m r granted r' granted'
    is_late :
        (v : VoteRes)
        → on_request_vote (some v) r ≡ some r'
        → v.term < r.curr_term
        → granted' ≡ granted
        → Tick m r granted r' granted'
    counts :
        (v : VoteRes) (req : VoteReq) (voter : Str) (i k : ℕ)
        → on_request_vote (some v) r ≡ some r'
        → v.vote_granted ≡ true
        → r.curr_term ≤ v.term
        → request_vote req (at voter k) ≡ some (at voter (suc k), v)
        → vote_req (at m i) false ≡ some req
        → req.term ≤ r.curr_term
        → mem voter members ≡ true
        → mem voter granted ≡ false
        → granted' ≡ voter ∷ granted
        → Tick m r granted r' granted'

-- The states of the servers at each tick. All start as followers.
pub record World (os : Os) (members : List Str) : Type 0 where
  pub at : Str → ℕ → Raft
  pub granted : Str → ℕ → List Str
  pub own_id : (m : Str) (k : ℕ) → (at m k).self_id ≡ m
  pub fixed : (m : Str) (k : ℕ) → addresses (at m k).cluster ≡ members
  pub first : (m : Str) → (at m 0).role ≡ follower
  pub ticks :
      (m : Str) (k : ℕ)
      → Tick os members at m (at m k) (granted m k) (at m (suc k)) (granted m (suc k))
