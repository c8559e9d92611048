-- ===== src/Raft/Rpc/Stand.antt =====
-- What the handlers of an election do to the term, the vote, the role and the counted votes.
use draft.Base.{
  suc, ◌+◌, ◌==◌, ◌^◌, ◌<◌, ◌≤◌, ◌≡◌, ◌⊎◌, inl, inr, refl, Bool, true, false, ◌||◌, Option, none,
  some, [], ltb, length, if◌then◌else◌, arith,
}
use draft.Log.{◌>>=◌}
use draft.Raft.Types.{
  Raft, emit, reset_election_timer, remove_election_timer, VoteRes, is_candidate, is_leader,
  follower, candidate, leader, RoleType,
}
use draft.Raft.Cluster.{is_majority, count_self}
use draft.Raft.Commit.{is_alone}
use draft.Raft.Election.{
  step_down, step_up, pre_vote, on_pre_vote, on_request_vote, on_vote, checkout,
}
use draft.Raft.Election.Roles.{KeepsVote, step_down-vote, step_up-vote, send_pre_votes-vote}
use draft.Raft.Rpc.{timeout_now}
use draft.Raft.Rpc.Changes.{
  Calm, Calm-refl, CalmIn, CalmIn-keeps, MovesIn, MovesIn-if, MovesIn-Calm, Moves,
  leader_election-Moves,
}

-- Standing for election raises the term; all else of the phase before a vote leaves it.
pub pre_vote-Moves :
    (early : Bool) (r : Raft) → suc r.curr_term < 2 ^ 64 → MovesIn r (pre_vote early r)
unfolding pre_vote
pre_vote-Moves early r h =
    let r1 = record r {
      pre_votes_granted = count_self r.self_id r.cluster;
      pre_votes_refused = 0;
      role = follower;
    } in
    MovesIn-if r (is_alone r) _ _ (leader_election-Moves r h) (
      MovesIn-Calm r _ (
        CalmIn-keeps r r1 _ (inr (refl, inr refl, inl refl, inl refl))
          (send_pre_votes-vote early r.cluster r1)))

checkout-Moves : (r : Raft) → suc r.curr_term < 2 ^ 64 → MovesIn r (checkout r)
unfolding checkout
checkout-Moves r h =
    let all_in = r.pre_votes_granted + r.pre_votes_refused == length r.cluster in
    let waited = some (emit reset_election_timer r) in
    MovesIn-if r (is_majority r.pre_votes_granted r.cluster) _ (if all_in then waited else some r)
      (leader_election-Moves r h)
      (MovesIn-if r all_in waited (some r) (inl (Calm-refl r)) (inl (Calm-refl r)))

pub on_pre_vote-Moves :
    (res : Option VoteRes) (r : Raft) → suc r.curr_term < 2 ^ 64 → MovesIn r (on_pre_vote res r)
unfolding on_pre_vote
on_pre_vote-Moves none r h =
    MovesIn-if r (is_candidate r.role || is_leader r.role) (some r) _ (inl (Calm-refl r))
      (checkout-Moves (record r { pre_votes_refused = r.pre_votes_refused + 1 }) h)
on_pre_vote-Moves (some v) r h =
    MovesIn-if r (is_candidate r.role || is_leader r.role) (some r) _ (inl (Calm-refl r))
      (counted v.vote_granted)
  where
    counted :
        (b : Bool)
        → MovesIn r (
            checkout (
              if b
              then record r { pre_votes_granted = r.pre_votes_granted + 1 }
              else record r { pre_votes_refused = r.pre_votes_refused + 1 }))
    counted true = checkout-Moves (record r { pre_votes_granted = r.pre_votes_granted + 1 }) h
    counted false = checkout-Moves (record r { pre_votes_refused = r.pre_votes_refused + 1 }) h

is_candidate_role : (role : RoleType) → is_candidate role ≡ true → role ≡ candidate
is_candidate_role leader e = cc
is_candidate_role candidate e = refl
is_candidate_role follower e = cc

-- A granting answer of no lower term is counted by a candidate, which leads once its votes are a majority.
abbrev pub Counts : VoteRes → Raft → Raft → Type 0
Counts v r r' =
    (r.role ≡ candidate)
    × (v.vote_granted ≡ true)
    × (r.curr_term ≤ v.term)
    × (r'.curr_term ≡ r.curr_term)
    × (r'.voted_for ≡ r.voted_for)
    × (r'.votes ≡ r.votes + 1)
    × ((r'.role ≡ candidate) ⊎ (is_majority (r.votes + 1) r.cluster ≡ true))

abbrev pub CountsIn : VoteRes → Raft → Option Raft → Type 0
CountsIn v r none = Unit
CountsIn v r (some r') = Calm r r' ⊎ Counts v r r'

CountsIn-Calm : (v : VoteRes) (r : Raft) (o : Option Raft) → CalmIn r o → CountsIn v r o
CountsIn-Calm v r none h = tt
CountsIn-Calm v r (some x) h = inl h

won :
    (v : VoteRes) (r : Raft) (o : Option Raft)
    → r.role ≡ candidate
    → v.vote_granted ≡ true
    → r.curr_term ≤ v.term
    → is_majority (r.votes + 1) r.cluster ≡ true
    → KeepsVote (record r { role = leader; votes = r.votes + 1 }) o
    → CountsIn v r o
won v r none c g le m k = tt
won v r (some x) c g le m k = inr (c, g, le, k.0, k.1, k.3, inr m)

CountsIn-if :
    (v : VoteRes) (r : Raft) (b : Bool) (m n : Option Raft)
    → (b ≡ true → CountsIn v r m)
    → (b ≡ false → CountsIn v r n)
    → CountsIn v r (if b then m else n)
CountsIn-if v r true m n hm hn = hm refl
CountsIn-if v r false m n hm hn = hn refl

granting :
    (v : VoteRes) (r : Raft)
    → r.role ≡ candidate
    → v.vote_granted ≡ true
    → CountsIn v r (
        if ltb v.term r.curr_term
        then some r
        else (let r1 = record r { votes = r.votes + 1 } in
            if is_majority r1.votes r1.cluster then step_up r1 else some r1))
granting v r c g =
    let r1 = record r { votes = r.votes + 1 } in
    CountsIn-if v r (ltb v.term r.curr_term) _ _ (λ old. inl (Calm-refl r))
      λ now.
        let le : r.curr_term ≤ v.term = ground arith in
        CountsIn-if v r (is_majority r1.votes r1.cluster) _ _
          (λ m. won v r (step_up r1) c g le m (step_up-vote r1))
          λ m. inr (c, g, le, refl, refl, refl, inl c)

refusing :
    (v : VoteRes) (r : Raft)
    → CalmIn r (if ltb r.curr_term v.term then some (step_down v.term [] r) else some r)
refusing v r = ground (arith, step_down-vote v.term [] r)

-- An answer to a request for a vote.
pub on_request_vote-Counts : (v : VoteRes) (r : Raft) → CountsIn v r (on_request_vote (some v) r)
unfolding on_request_vote
on_request_vote-Counts v r =
    CountsIn-if v r (is_candidate r.role) (on_vote v r) (some r)
      (λ c.
        CountsIn-if v r v.vote_granted _ _ (λ g. granting v r (is_candidate_role r.role c) g)
          λ refused. CountsIn-Calm v r _ (refusing v r))
      λ other. inl (Calm-refl r)

abbrev pub MovesWith : Raft → Option (Raft × VoteRes) → Type 0
MovesWith r none = Unit
MovesWith r (some x) = Moves r x.0

pub timeout_now-Moves : (r : Raft) → suc r.curr_term < 2 ^ 64 → MovesWith r (timeout_now r)
unfolding timeout_now
timeout_now-Moves r h =
    with_answer (pre_vote true (emit remove_election_timer r))
      (pre_vote-Moves true (emit remove_election_timer r) h)
  where
    with_answer :
        (o : Option Raft)
        → MovesIn r o
        → MovesWith r (do r1 ← o; some (r1, record { term = r1.curr_term; vote_granted = false }))
    with_answer none k = tt
    with_answer (some x) k = k
