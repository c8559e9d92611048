-- ===== src/Raft/Election/Ballots.antt =====
-- The requests that a server sends when it stands for election.
use draft.Base.{
  ℕ, ◌≡◌, ap, sym, ◌∙◌, inl, inr, false, some, List, [], ◌∷◌, ◌++◌, append-nil, append_assoc, Str,
  str_eq, if◌then◌else◌, Bool-cases, ◌+◌, ◌%◌, ◌^◌, refl,
}
use draft.Log.{last_entry_index, last_entry_term}
use draft.Raft.Types.{
  Raft, VoteReq, Effect, send_request_vote, reset_election_timer, sync_vote, candidate, emit,
}
use draft.Raft.Cluster.{Cluster, contains}
use draft.Raft.Replicate.{vote_req}
use draft.Raft.Commit.{is_alone}
use draft.Raft.Election.{request_votes, stand, leader_election}

-- A request to each member but the server itself.
abbrev pub ballots : Str → VoteReq → Cluster → List Effect
ballots self req [] = []
ballots self req ((a, n) ∷ c) =
    if str_eq n.id self then ballots self req c else send_request_vote n.id req ∷ ballots self req c

-- The request of the server `self`.
abbrev pub ballot : Str → ℕ → ℕ → ℕ → VoteReq
ballot self curr index term = record {
  term = curr;
  candidate_id = self;
  last_log_index = index;
  last_log_term = term;
  early = false;
}

abbrev pub send_all : List Effect → Raft → Raft
send_all es r = record r { effects = r.effects ++ es }

request_votes-ballots :
    (c : Cluster) (r : Raft) (index term : ℕ)
    → last_entry_index r.log ≡ some index
    → last_entry_term r.log ≡ some term
    → request_votes c r
      ≡ some (send_all (ballots r.self_id (ballot r.self_id r.curr_term index term) c) r)
unfolding request_votes vote_req
request_votes-ballots [] r index term hi ht =
    ap (λ es. some (record r { effects = es })) (sym (append-nil r.effects))
request_votes-ballots ((a, n) ∷ c) r index term hi ht = elim (Bool-cases (str_eq n.id r.self_id)) [
  | inl own ↦ rw own (request_votes-ballots c r index term hi ht)
  | inr other ↦
      rw (other, hi, ht)
        (request_votes-ballots c
            (emit (send_request_vote n.id (ballot r.self_id r.curr_term index term)) r) index term
            hi ht
          ∙ ap (λ es. some (record r { effects = es }))
              (append_assoc r.effects
                (send_request_vote n.id (ballot r.self_id r.curr_term index term) ∷ [])
                (ballots r.self_id (ballot r.self_id r.curr_term index term) c)))
]

-- What a server that stands for election becomes and does: a candidate in the next of its 64-bit terms,
-- that has voted for itself and counts one vote if it is a member, with the log, the members and the
-- commit index that it had; it saves its vote, sends a request to each other member, and sets its
-- election timer again, in this order.
abbrev pub Stands : Raft → ℕ → ℕ → Raft → Type 0
Stands r index term r' =
    (r'.role ≡ candidate)
    × (r'.curr_term ≡ (r.curr_term + 1) % 2 ^ 64)
    × (r'.voted_for ≡ r.self_id)
    × (r'.votes ≡ (if contains r.self_id r.cluster then 1 else 0))
    × (r'.log ≡ r.log)
    × (r'.cluster ≡ r.cluster)
    × (r'.commit_index ≡ r.commit_index)
    × (r'.effects
        ≡ ((r.effects ++ sync_vote ∷ [])
            ++ ballots r.self_id (ballot r.self_id ((r.curr_term + 1) % 2 ^ 64) index term)
                r.cluster)
          ++ reset_election_timer ∷ [])

-- A server that is not the only member, and whose log has a last entry, stands for election: it becomes a
-- candidate in the next term, with its own vote, which it counts if it is a member, and with its log,
-- members and commit index; and after its vote is saved and before its election timer is set again it
-- sends each other member a request with the new term and the index and term of its last entry.
pub leader_election_lem :
    (r : Raft) (index term : ℕ)
    → is_alone r ≡ false
    → last_entry_index r.log ≡ some index
    → last_entry_term r.log ≡ some term
    → (r' : Raft) × (leader_election r ≡ some r') × Stands r index term r'
unfolding leader_election
leader_election_lem r index term alone hi ht = (
  emit reset_election_timer (
      send_all
        (ballots r.self_id (ballot r.self_id ((r.curr_term + 1) % 2 ^ 64) index term) r.cluster)
        (stand r)),
  rw alone (rw (request_votes-ballots r.cluster (stand r) index term hi ht) refl),
  (refl, refl, refl, refl, refl, refl, refl, refl),
)
