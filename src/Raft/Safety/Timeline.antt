-- ===== src/Raft/Safety/Timeline.antt =====
-- An election in a cluster of three servers: `a:1` asks, `b:1` votes for it, and `a:1` leads.
use draft.Base.{
  ℕ, zero, suc, ◌≡◌, refl, Bool, true, false, Option, none, some, List, [], ◌∷◌, Str, codes, str_eq,
  str_eq_iff,
}
use draft.Log.{last_entry_index, last_entry_term, last_entry}
use draft.Raft.Types.{Raft, VoteReq, VoteRes, follower}
use draft.Raft.Cluster.{contains, map_nodes}
use draft.Raft.Election.{
  pre_vote, on_pre_vote, on_request_vote, send_pre_votes, checkout, leader_election, request_votes,
  step_up, append_entries, step_down,
}
use draft.Raft.Replicate.{vote_req, append_entries_each, append_entries_to, append_entries_req}
use draft.Raft.Rpc.{request_vote, adopt}
use draft.Raft.Tests.{server}

abbrev pub name_a : Str
name_a = codes "a:1"

abbrev pub name_b : Str
name_b = codes "b:1"

abbrev pub names : List Str
names = name_a ∷ name_b ∷ codes "c:1" ∷ []

abbrev pub starting : Str → Raft
starting m = record (server follower) { self_id = m }

abbrev pub or_start : Option Raft → Raft
or_start none = starting name_a
or_start (some r) = r

abbrev pub yes_vote : VoteRes
yes_vote = record { term = 2; vote_granted = true }

abbrev pub asking : Raft
asking = or_start (pre_vote false (starting name_a))

abbrev pub standing : Raft
standing = or_start (on_pre_vote (some yes_vote) asking)

abbrev pub leading : Raft
leading = or_start (on_request_vote (some yes_vote) standing)

abbrev pub its_request : VoteReq
its_request = record {
  term = 2;
  candidate_id = name_a;
  last_log_index = 1;
  last_log_term = 1;
  early = false;
}

abbrev pub after_vote : Option (Raft × VoteRes) → Raft
after_vote none = starting name_b
after_vote (some x) = x.0

abbrev pub voting : Raft
voting = after_vote (request_vote its_request (starting name_b))

pub asking_is : pre_vote false (starting name_a) ≡ some asking
unfolding pre_vote send_pre_votes vote_req str_eq contains last_entry_index last_entry_term
    last_entry
asking_is = refl

pub standing_is : on_pre_vote (some yes_vote) asking ≡ some standing
unfolding pre_vote send_pre_votes vote_req str_eq contains last_entry_index last_entry_term
    last_entry on_pre_vote checkout leader_election request_votes
standing_is = refl

pub leading_is : on_request_vote (some yes_vote) standing ≡ some leading
unfolding pre_vote send_pre_votes vote_req str_eq contains last_entry_index last_entry_term
    last_entry on_pre_vote checkout leader_election request_votes on_request_vote step_up
    append_entries map_nodes append_entries_each append_entries_to append_entries_req
leading_is = refl

pub voting_is : request_vote its_request (starting name_b) ≡ some (voting, yes_vote)
unfolding request_vote adopt step_down last_entry_index last_entry_term last_entry str_eq
voting_is = refl

-- The server `a:1` at each tick, the server `b:1`, and any other.
abbrev pub of_a : ℕ → Raft
of_a zero = starting name_a
of_a (suc zero) = asking
of_a (suc (suc zero)) = standing
of_a (suc (suc (suc zero))) = standing
of_a (suc (suc (suc (suc k)))) = leading

abbrev pub of_b : ℕ → Raft
of_b zero = starting name_b
of_b (suc zero) = starting name_b
of_b (suc (suc zero)) = starting name_b
of_b (suc (suc (suc k))) = voting

abbrev pub given_a : ℕ → List Str
given_a zero = []
given_a (suc zero) = []
given_a (suc (suc zero)) = name_a ∷ []
given_a (suc (suc (suc zero))) = name_a ∷ []
given_a (suc (suc (suc (suc k)))) = name_b ∷ name_a ∷ []

abbrev pub given_b : ℕ → List Str
given_b zero = []
given_b (suc zero) = []
given_b (suc (suc zero)) = []
given_b (suc (suc (suc k))) = name_b ∷ []

pub data Place (m : Str) : Type 0 where
  is_a : m ≡ name_a → Place m
  is_b : m ≡ name_b → Place m
  is_other : Place m

unfoldable pub place_b : (m : Str) (b : Bool) → str_eq m name_b ≡ b → Place m
place_b m true e = is_b ((str_eq_iff m name_b).0 e)
place_b m false e = is_other

unfoldable pub place_a : (m : Str) (b : Bool) → str_eq m name_a ≡ b → Place m
place_a m true e = is_a ((str_eq_iff m name_a).0 e)
place_a m false e = place_b m (str_eq m name_b) refl

unfoldable pub place_of : (m : Str) → Place m
place_of m = place_a m (str_eq m name_a) refl

unfoldable pub state : (m : Str) → Place m → ℕ → Raft
state m (is_a e) k = of_a k
state m (is_b e) k = of_b k
state m is_other k = starting m

unfoldable pub given : (m : Str) → Place m → ℕ → List Str
given m (is_a e) k = given_a k
given m (is_b e) k = given_b k
given m is_other k = []
