-- ===== src/Raft/Rpc/Changes.antt =====
-- How a handler may change the term, the vote, the role and the counted votes.
use draft.Base.{
  suc, ◌^◌, ◌≤◌, ◌<◌, ◌≡◌, refl, ◌∙◌, ◌⊎◌, inl, inr, Bool, true, false, Option, none, some, [],
  arith, if◌then◌else◌,
}
use draft.Raft.Types.{Raft, follower, candidate, leader}
use draft.Log.{EntryLogger, ◌>>=◌}
use draft.Raft.Growth.{Grows, Grows-trans}
use draft.Raft.Commit.{is_alone}
use draft.Raft.Election.{stand, leader_election}
use draft.Raft.Election.Roles.{KeepsVote, stood, leader_election-vote}

-- The term grows; while it stays, a vote that was given stays.
abbrev pub Advances : Raft → Raft → Type 0
Advances r r' =
    (r.curr_term < r'.curr_term)
    ⊎ ((r'.curr_term ≡ r.curr_term) × ((r.voted_for ≡ []) ⊎ (r'.voted_for ≡ r.voted_for)))

pub Advances-trans : (r s t : Raft) → Advances r s → Advances s t → Advances r t
Advances-trans r s t h k = ground arith

pub Advances-refl : (r : Raft) → Advances r r
Advances-refl r = inr (refl, inr refl)

-- The server follows, or it has the role and the counted votes that it had.
abbrev pub Settles : Raft → Raft → Type 0
Settles r r' = (r'.role ≡ follower) ⊎ ((r'.role ≡ r.role) × (r'.votes ≡ r.votes))

-- The server follows, or its log grows at most.
abbrev pub OnlyGrows : Raft → Raft → Type 0
OnlyGrows r r' = (r'.role ≡ follower) ⊎ Grows r.log r'.log

-- The server takes a higher term as a follower; or its term stays, with a vote that was given, it settles,
-- and its log only grows.
abbrev pub Calm : Raft → Raft → Type 0
Calm r r' =
    ((r.curr_term < r'.curr_term) × (r'.role ≡ follower))
    ⊎ ((r'.curr_term ≡ r.curr_term)
        × ((r.voted_for ≡ []) ⊎ (r'.voted_for ≡ r.voted_for))
        × Settles r r'
        × OnlyGrows r r')

pub Calm-refl : (r : Raft) → Calm r r
Calm-refl r = inr (refl, inr refl, inr (refl, refl), inr (inl refl))

pub Calm-trans : (r s t : Raft) → Calm r s → Calm s t → Calm r t
Calm-trans r s t (inl h) (inl k) = inl (omega arith, k.1)
Calm-trans r s t (inl h) (inr k) = inl (ground arith)
Calm-trans r s t (inr h) (inl k) = inl (ground arith)
Calm-trans r s t (inr (e, v, p, g)) (inr (e', v', p', g')) =
    inr (e' ∙ e, ground arith, ground arith, only_grows g g')
  where
    only_grows : OnlyGrows r s → OnlyGrows s t → OnlyGrows r t
    only_grows a (inl f) = inl f
    only_grows (inl f) (inr w) = elim p' [ inl f' ↦ inl f' | inr same ↦ inl (same.0 ∙ f) ]
    only_grows (inr w) (inr w') = inr (Grows-trans r.log s.log t.log w w')

abbrev pub CalmIn : Raft → Option Raft → Type 0
CalmIn r none = Unit
CalmIn r (some r') = Calm r r'

pub CalmIn-keeps : (r s : Raft) (o : Option Raft) → Calm r s → KeepsVote s o → CalmIn r o
CalmIn-keeps r s none a k = tt
CalmIn-keeps r s (some x) a k = Calm-trans r s x a (inr (k.0, inr k.1, inr (k.2, k.3), inr k.4))

pub CalmIn-bind {ℓ} :
    {A : Type ℓ} (r : Raft) (m : Option A) (f : A → Option Raft)
    → ((a : A) → CalmIn r (f a))
    → CalmIn r (m >>= f)
CalmIn-bind r none f h = tt
CalmIn-bind r (some a) f h = h a

pub CalmIn-then :
    (r : Raft) (m : Option Raft) (f : Raft → Option Raft)
    → CalmIn r m
    → ((s : Raft) → Calm r s → CalmIn r (f s))
    → CalmIn r (m >>= f)
CalmIn-then r none f h k = tt
CalmIn-then r (some s) f h k = k s h

pub CalmIn-from : (r s : Raft) (o : Option Raft) → Calm r s → CalmIn s o → CalmIn r o
CalmIn-from r s none h k = tt
CalmIn-from r s (some x) h k = Calm-trans r s x h k

-- A follower may change its log in any way.
pub Calm-relog :
    (l : EntryLogger) (r s : Raft) → s.role ≡ follower → Calm r s → Calm r (record s { log = l })
Calm-relog l r s f h = ground arith

pub Calm-role : (r s : Raft) → r.role ≡ follower → Calm r s → s.role ≡ follower
Calm-role r s f h = ground arith

-- The server stands for election in a higher term: it has its own vote, and its role is that of a
-- candidate, unless it is the only member.
abbrev pub Stands : Raft → Raft → Type 0
Stands r r' =
    (r.curr_term < r'.curr_term)
    × (r'.voted_for ≡ r.self_id)
    × (r'.votes ≤ 1)
    × ((r'.role ≡ candidate) ⊎ (is_alone r ≡ true))

abbrev pub Moves : Raft → Raft → Type 0
Moves r r' = Calm r r' ⊎ Stands r r'

abbrev pub MovesIn : Raft → Option Raft → Type 0
MovesIn r none = Unit
MovesIn r (some r') = Moves r r'

pub Moves-Advances : (r r' : Raft) → Moves r r' → Advances r r'
Moves-Advances r r' h = ground arith

pub MovesIn-if :
    (r : Raft) (b : Bool) (m n : Option Raft)
    → MovesIn r m
    → MovesIn r n
    → MovesIn r (if b then m else n)
MovesIn-if r true m n hm hn = hm
MovesIn-if r false m n hm hn = hn

pub MovesIn-Calm : (r : Raft) (o : Option Raft) → CalmIn r o → MovesIn r o
MovesIn-Calm r none h = tt
MovesIn-Calm r (some x) h = inl h

MovesIn-keeps : (r s : Raft) (o : Option Raft) → Stands r s → KeepsVote s o → MovesIn r o
MovesIn-keeps r s none a k = tt
MovesIn-keeps r s (some x) a k = inr (ground arith)

count_self-le : (r : Raft) → (stand r).votes ≤ 1
count_self-le r = ground arith

stood-Stands : (r : Raft) → suc r.curr_term < 2 ^ 64 → Stands r (stood r)
stood-Stands r h = by_alone (is_alone r) refl
  where
    by_alone :
        (b : Bool)
        → is_alone r ≡ b
        → Stands r (if b then record (stand r) { role = leader } else stand r)
    by_alone true e = (omega arith, refl, count_self-le r, inr e)
    by_alone false e = (omega arith, refl, count_self-le r, inl refl)

pub leader_election-Moves : (r : Raft) → suc r.curr_term < 2 ^ 64 → MovesIn r (leader_election r)
leader_election-Moves r h =
    MovesIn-keeps r (stood r) (leader_election r) (stood-Stands r h) (leader_election-vote r)
