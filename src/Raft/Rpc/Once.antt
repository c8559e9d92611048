-- ===== src/Raft/Rpc/Once.antt =====
-- The votes over the runs of a server.
use draft.Base.{◌≡◌, ◌≢◌, true, some, [], inl, inr, arith}
use draft.Log.Room.{Os}
use draft.Raft.Types.{Raft, VoteReq, VoteRes}
use draft.Raft.Rpc.{request_vote}
use draft.Raft.Rpc.Vote.{request_vote_granted, HasVoted, FreeToVote}
use draft.Raft.Rpc.Changes.{Advances, Advances-trans, Advances-refl, Moves-Advances}
use draft.Raft.Rpc.Stand.{Counts}
use draft.Raft.Rpc.Steps.{Step, Step-Moves, counts_vote, compacts_log}

pub data Run (os : Os) : Raft → Raft → Type 0 where
  stay : {r : Raft} → Run os r r
  go_on : {r s t : Raft} → Step os r s → Run os s t → Run os r t

Counts-Advances : (v : VoteRes) (r r' : Raft) → Counts v r r' → Advances r r'
Counts-Advances v r r' c = inr (c.3, inr c.4)

pub Step-Advances : (os : Os) (r r' : Raft) → Step os r r' → Advances r r'
Step-Advances os r r' x = elim (Step-Moves os r r' x) [
  | inl m ↦ Moves-Advances r r' m
  | inr (counts_vote v c g) ↦ Counts-Advances v r r' c
  | inr (compacts_log c g) ↦ inr (c.0, inr c.1)
]

one_vote :
    (req req' : VoteReq) (s t : Raft)
    → HasVoted req s
    → FreeToVote req' t
    → Advances s t
    → req'.term ≡ req.term
    → req.candidate_id ≢ []
    → req'.candidate_id ≡ req.candidate_id
one_vote req req' s t voted free adv same named = ground arith

-- However the handlers of a server run, with any calls, answers and requests, and `pre_vote`, `on_pre_vote`
-- and `timeout_now` only where the term is below 2^64 - 1, the term does not fall, and as long
-- as it stays a vote that was given stays.
pub Run-Advances : (os : Os) (r r' : Raft) → Run os r r' → Advances r r'
Run-Advances os r _ stay = Advances-refl r
Run-Advances os r t (go_on {s = s} x run) =
    Advances-trans r s t (Step-Advances os r s x) (Run-Advances os s t run)

-- Two requests for a vote in one term that a server grants, the second after any run of its handlers in
-- which `pre_vote`, `on_pre_vote` and `timeout_now` find a term below 2^64 - 1, are for the same candidate, if the first names one.
pub vote_once :
    (os : Os) (req req' : VoteReq) (r s t u : Raft) (res res' : VoteRes)
    → request_vote req r ≡ some (s, res)
    → res.vote_granted ≡ true
    → Run os s t
    → request_vote req' t ≡ some (u, res')
    → res'.vote_granted ≡ true
    → req'.term ≡ req.term
    → req.candidate_id ≢ []
    → req'.candidate_id ≡ req.candidate_id
vote_once os req req' r s t u res res' e g run e' g' same named =
    let first = request_vote_granted req r s res e g in
    let second = request_vote_granted req' t u res' e' g' in
    one_vote req req' s t first.0 second.1 (Run-Advances os s t run) same named
