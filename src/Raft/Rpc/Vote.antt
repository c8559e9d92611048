-- ===== src/Raft/Rpc/Vote.antt =====
-- What a request for a vote is answered, and what it does to the term and the vote.
use draft.Base.{
  ℕ, ◌≤◌, ◌<◌, ◌≡◌, refl, ap, sym, subst, ◌∙◌, ◌⊎◌, ◌↔◌, inl, inr, true, Option, none, some, [],
  Str, str_eq_iff, ltb, arith, Bool-cases,
}
use draft.Log.{EntryLogger, last_entry_index, last_entry_term, ◌>>=◌}
use mathlib.Core.Option.{some-injective}
use draft.Raft.Types.{Raft, VoteReq, VoteRes}
use draft.Raft.Election.Roles.{step_down-vote, step_down_log}
use draft.Raft.Rpc.Changes.{Calm, Calm-trans}
use draft.Raft.Rpc.{request_vote, adopt, decide}

pub adopt-Calm : (term : ℕ) (leader_id : Str) (r : Raft) → Calm r (adopt term leader_id r)
unfolding adopt
adopt-Calm term leader_id r =
    ground (arith, step_down-vote term leader_id (record r { voted_for = [] }))

-- After `adopt` the term is at least that of the request.
adopt_term : (term : ℕ) (leader_id : Str) (r : Raft) → term ≤ (adopt term leader_id r).curr_term
unfolding adopt
adopt_term term leader_id r =
    ground (arith, step_down-vote term leader_id (record r { voted_for = [] }))

-- A granting `decide` leaves the term of the request and a vote for its candidate, and found no other vote.
decide_granted :
    (req : VoteReq) (index term : ℕ) (r : Raft)
    → req.term ≤ r.curr_term
    → (decide req index term r).1.vote_granted ≡ true
    → (r.curr_term ≡ req.term)
      × ((decide req index term r).0.curr_term ≡ req.term)
      × ((decide req index term r).0.voted_for ≡ req.candidate_id)
      × ((r.voted_for ≡ []) ⊎ (r.voted_for ≡ req.candidate_id))
decide_granted req index term r h g = ground (arith, str_eq_iff req.candidate_id r.voted_for)

-- A request of a higher term is adopted; any other leaves the server as it is.
adopt_cases : (term : ℕ) (id : Str) (r : Raft) → (r.curr_term < term) ⊎ (adopt term id r ≡ r)
unfolding adopt
adopt_cases term id r = elim (Bool-cases (ltb r.curr_term term)) [
  | inl e ↦ inl (ground arith)
  | inr e ↦ inr (rw e)
]

-- No other vote was given in the term of the request.
abbrev pub FreeToVote : VoteReq → Raft → Type 0
FreeToVote req r =
    (r.curr_term < req.term)
    ⊎ ((r.curr_term ≡ req.term) × ((r.voted_for ≡ []) ⊎ (r.voted_for ≡ req.candidate_id)))

-- The state holds the vote for the candidate of the request.
abbrev pub HasVoted : VoteReq → Raft → Type 0
HasVoted req r = (r.curr_term ≡ req.term) × (r.voted_for ≡ req.candidate_id)

-- What `request_vote` hands back where it ends: the decision after `adopt`.
request_vote_inv :
    (req : VoteReq) (r r' : Raft) (res : VoteRes)
    → request_vote req r ≡ some (r', res)
    → (index : ℕ) × (term : ℕ) × (last_entry_index (adopt req.term [] r).log ≡ some index)
      × (last_entry_term (adopt req.term [] r).log ≡ some term)
      × (decide req index term (adopt req.term [] r) ≡ (r', res))
unfolding request_vote
request_vote_inv req r r' res e =
    go (last_entry_index (adopt req.term [] r).log) (last_entry_term (adopt req.term [] r).log) refl
      refl e
  where
    go :
        (i t : Option ℕ)
        → last_entry_index (adopt req.term [] r).log ≡ i
        → last_entry_term (adopt req.term [] r).log ≡ t
        → (do index ← i; term ← t; some (decide req index term (adopt req.term [] r)))
          ≡ some (r', res)
        → (index : ℕ) × (term : ℕ) × (last_entry_index (adopt req.term [] r).log ≡ some index)
          × (last_entry_term (adopt req.term [] r).log ≡ some term)
          × (decide req index term (adopt req.term [] r) ≡ (r', res))
    go none t p q e = absurd (cc)
    go (some i) none p q e = absurd (cc)
    go (some i) (some t) p q e = (i, t, p, q, some-injective _ _ e)

-- A granted vote leaves the term of the request and the vote for its candidate, and before the call the
-- term was lower, or it was the same and the vote was not given or given to that candidate.
pub request_vote_granted :
    (req : VoteReq) (r r' : Raft) (res : VoteRes)
    → request_vote req r ≡ some (r', res)
    → res.vote_granted ≡ true
    → HasVoted req r' × FreeToVote req r
request_vote_granted req r r' res e g =
    let (i, t, _, _, p) = request_vote_inv req r r' res e in
    let d =
      decide_granted req i t (adopt req.term [] r) (adopt_term req.term [] r)
        (ap (λ (x : Raft × VoteRes). x.1.vote_granted) p ∙ g) in
    (
      (
        sym (ap (λ (x : Raft × VoteRes). x.0.curr_term) p) ∙ d.1,
        sym (ap (λ (x : Raft × VoteRes). x.0.voted_for) p) ∙ d.2,
      ),
      elim (adopt_cases req.term [] r) [
        | inl lt ↦ inl lt
        | inr same ↦
            inr (
              rw same at (d.0),
              elim d.3 [ inl n ↦ inl (rw same at n) | inr c ↦ inr (rw same at c) ],
            )
      ],
    )

decide_term :
    (req : VoteReq) (index term : ℕ) (r : Raft)
    → (decide req index term r).1.vote_granted ≡ true
    → (decide req index term r).1.term ≡ req.term
decide_term req index term r g = ground arith

-- A granting answer holds the term of its request.
pub request_vote_term :
    (req : VoteReq) (r r' : Raft) (res : VoteRes)
    → request_vote req r ≡ some (r', res)
    → res.vote_granted ≡ true
    → res.term ≡ req.term
request_vote_term req r r' res e g =
    let (i, t, _, _, p) = request_vote_inv req r r' res e in
    sym (ap (λ (x : Raft × VoteRes). x.1.term) p)
    ∙ decide_term req i t (adopt req.term [] r)
        (ap (λ (x : Raft × VoteRes). x.1.vote_granted) p ∙ g)

decide-Calm : (req : VoteReq) (index term : ℕ) (r : Raft) → Calm r (decide req index term r).0
decide-Calm req index term r = ground (
  arith,
  str_eq_iff req.candidate_id r.voted_for,
  step_down-vote req.term [] (record r { voted_for = req.candidate_id }),
)

pub request_vote-Calm :
    (req : VoteReq) (r r' : Raft) (res : VoteRes) → request_vote req r ≡ some (r', res) → Calm r r'
request_vote-Calm req r r' res e =
    let (i, t, _, _, p) = request_vote_inv req r r' res e in
    Calm-trans r (adopt req.term [] r) r' (adopt-Calm req.term [] r) (
      subst (Calm (adopt req.term [] r)) (ap (λ (x : Raft × VoteRes). x.0) p)
        (decide-Calm req i t (adopt req.term [] r)))

adopt_log : (term : ℕ) (id : Str) (r : Raft) → (adopt term id r).log ≡ r.log
unfolding adopt
adopt_log term id r = ground (arith, step_down_log term id (record r { voted_for = [] }))

-- Of a candidate whose term and log are at least those of the server, and for which it is free to vote.
abbrev pub MayHave : VoteReq → ℕ → ℕ → Raft → Type 0
MayHave req index term r =
    FreeToVote req r × (term ≤ req.last_log_term) × (index ≤ req.last_log_index)

decide_refused :
    (req : VoteReq) (index term : ℕ) (r : Raft)
    → (decide req index term (adopt req.term [] r)).1.vote_granted ≡ true ↔ MayHave req index term r
unfolding adopt
decide_refused req index term r = (
  ground (
    arith,
    str_eq_iff req.candidate_id r.voted_for,
    step_down-vote req.term [] (record r { voted_for = [] }),
  ),
  ground (
    arith,
    str_eq_iff req.candidate_id r.voted_for,
    step_down-vote req.term [] (record r { voted_for = [] }),
  ),
)

-- A request for a vote is answered, if the log of the server has a last entry; the answer grants it
-- exactly if the term of the request is higher than that of the server, or is the same and the vote is
-- not given or is given to the same candidate, and neither the last term nor the last index of the
-- candidate is below that of the server.
pub request_vote_lem :
    (req : VoteReq) (r : Raft) (index term : ℕ)
    → last_entry_index r.log ≡ some index
    → last_entry_term r.log ≡ some term
    → (r' : Raft) × (res : VoteRes) × (request_vote req r ≡ some (r', res))
      × (res.vote_granted ≡ true ↔ MayHave req index term r)
unfolding request_vote
request_vote_lem req r index term hi ht =
    let d = decide req index term (adopt req.term [] r) in
    (d.0, d.1, (simp (adopt_log req.term [] r, hi, ht)), decide_refused req index term r)

-- Where the vote is granted, the last term and the last index of the server are not above those of the
-- request.
pub request_vote_last :
    (req : VoteReq) (r r' : Raft) (res : VoteRes)
    → request_vote req r ≡ some (r', res)
    → res.vote_granted ≡ true
    → (index : ℕ) × (term : ℕ) × (last_entry_index r.log ≡ some index)
      × (last_entry_term r.log ≡ some term)
      × (term ≤ req.last_log_term)
      × (index ≤ req.last_log_index)
request_vote_last req r r' res e g =
    let (index, term, hi, ht, p) = request_vote_inv req r r' res e in
    let (_, le, le') =
      (decide_refused req index term r).0 (ap (λ (x : Raft × VoteRes). x.1.vote_granted) p ∙ g) in
    (
      index,
      term,
      ap (λ (l : EntryLogger). last_entry_index l) (sym (adopt_log req.term [] r)) ∙ hi,
      ap (λ (l : EntryLogger). last_entry_term l) (sym (adopt_log req.term [] r)) ∙ ht,
      le,
      le',
    )
