-- ===== src/Raft/Rpc/Advance.antt =====
-- What the calls of a leader do to the term, the vote, the role and the counted votes.
use draft.Base.{
  ◌≡◌, inl, inr, [], ℕ, ◌==◌, Str, refl, Bool, true, false, Option, none, some, ltb, if◌then◌else◌,
  arith,
}
use draft.Log.{EntryLogger, last_entry_index, config, chop, copy_states, ◌>>=◌}
use draft.Log.Room.{Os}
use draft.Raft.Types.{
  Raft, remove_election_timer, emit, set_last_heartbeat, AppendEntriesReq, DataReq, DataRes,
  follower,
}
use draft.Raft.Election.Roles.{step_down-vote, adjust_configuration-vote}
use draft.Raft.Configure.{adjust_configuration}
use draft.Raft.Rpc.{
  adopt, append_entries, enter, follow, answer, commit_with, store_entries, data_transfer,
  first_transfer, adopt_states, done_transfer, Answer,
}
use draft.Raft.Rpc.Vote.{adopt-Calm}
use draft.Raft.Rpc.Changes.{
  CalmIn-bind, CalmIn-then, CalmIn-from, Calm-relog, Calm-role, Calm, Calm-trans, Calm-refl, CalmIn,
  CalmIn-keeps,
}

-- A state that a call hands back beside its reply advances.
abbrev pub Leads {ℓ} : {A : Type ℓ} → (A → Raft) → Raft → Option A → Type 0
Leads state r none = Unit
Leads state r (some x) = Calm r (state x)

pub Leads-bind {ℓ ℓ'} :
    {A : Type ℓ}
    → {B : Type ℓ'} → (state : B → Raft) (r : Raft) (m : Option A) (f : A → Option B)
    → ((a : A) → Leads state r (f a))
    → Leads state r (m >>= f)
Leads-bind state r none f h = tt
Leads-bind state r (some a) f h = h a

pub Leads-if {ℓ} :
    {A : Type ℓ}
    → (state : A → Raft) (r : Raft) (b : Bool) (m n : Option A) → Leads state r m
    → Leads state r n
    → Leads state r (if b then m else n)
Leads-if state r true m n hm hn = hm
Leads-if state r false m n hm hn = hn

pub Leads-then {ℓ} :
    {A : Type ℓ}
    → (state : A → Raft) (r : Raft) (m : Option Raft) (f : Raft → Option A) → CalmIn r m
    → ((r' : Raft) → Calm r r' → Leads state r (f r'))
    → Leads state r (m >>= f)
Leads-then state r none f hm hf = tt
Leads-then state r (some r') f hm hf = hf r' hm

abbrev pub after_answer : Answer → Raft
after_answer x = x.0

abbrev pub after_data : Raft × DataRes → Raft
after_data x = x.0

pub CalmIn-if :
    (r : Raft) (b : Bool) (m n : Option Raft)
    → CalmIn r m
    → CalmIn r n
    → CalmIn r (if b then m else n)
CalmIn-if r true m n hm hn = hm
CalmIn-if r false m n hm hn = hn

answer-Leads :
    (r r' : Raft) (result failed : Bool)
    → Calm r r'
    → Leads after_answer r (answer result failed r')
answer-Leads r r' result failed a = Leads-bind after_answer r (last_entry_index r'.log) _ λ last. a

enter-Calm : (req : AppendEntriesReq) (r : Raft) → Calm r (enter req r)
enter-Calm req r = ground (arith, adopt-Calm req.term req.leader_id r)

enter_role : (req : AppendEntriesReq) (r : Raft) → (enter req r).role ≡ follower
unfolding adopt
enter_role req r =
    ground (arith, step_down-vote req.term req.leader_id (record r { voted_for = [] }))

commit_with-Calm : (leader_commit last : ℕ) (r : Raft) → Calm r (commit_with leader_commit last r)
commit_with-Calm leader_commit last r = ground arith

follow-Leads :
    (req : AppendEntriesReq) (need : Bool) (r r' : Raft)
    → Calm r r'
    → Leads after_answer r (follow req need r')
follow-Leads req need r r' a = Leads-bind after_answer r (last_entry_index r'.log) _ λ last.
    (let r1 = commit_with req.leader_commit last r' in
      let a1 = Calm-trans r r' r1 a (commit_with-Calm req.leader_commit last r') in
      let r2 = emit set_last_heartbeat (record r1 { leader_id = req.leader_id }) in
      Leads-then after_answer r _ _
        (CalmIn-if r need _ _
          (CalmIn-keeps r r2 _ a1 (adjust_configuration-vote (config r2.log) r2)) a1)
        λ r3 a3. answer-Leads r r3 true false a3)

pub append_entries-Leads :
    (os : Os) (req : AppendEntriesReq) (r : Raft) → Leads after_answer r (append_entries os req r)
unfolding append_entries
append_entries-Leads os req r =
    let stored =
      λ (l : EntryLogger). Calm-relog l r (enter req r) (enter_role req r) (enter-Calm req r) in
    Leads-if after_answer r (ltb req.term r.curr_term) _ _
      (answer-Leads r r false false (Calm-refl r))
      (Leads-if after_answer r _ _ _ (answer-Leads r (enter req r) false false (enter-Calm req r)) (
        Leads-bind after_answer r (store_entries os req.entries (enter req r).log) _ λ x.
          Leads-if after_answer r x.2 _ _ (follow-Leads req x.1 r _ (stored x.0))
            (answer-Leads r _ false true (stored x.0))))

-- A follower takes the states of the leader.
adopt_states-Calm :
    (os : Os) (req : DataReq) (r : Raft) → r.role ≡ follower → CalmIn r (adopt_states os req r)
unfolding adopt_states
adopt_states-Calm os req r f = CalmIn-bind r (chop os _ true r.log) _ λ x.
    (let r1 = record r {
      log = x.0;
      commit_index = req.last_index;
      last_applied = req.last_index;
    } in
      CalmIn-then r (adjust_configuration req.last_config r1) _
        (CalmIn-keeps r r1 _ (inr (refl, inr refl, inl f, inl f))
          (adjust_configuration-vote req.last_config r1))
        λ r2 a2.
          CalmIn-bind r (copy_states os _ _ _ r2.log) _
            λ y. Calm-relog y.0 r r2 (Calm-role r r2 f a2) a2)

first_transfer-Calm :
    (os : Os) (req : DataReq) (r : Raft) → r.role ≡ follower → CalmIn r (first_transfer os req r)
first_transfer-Calm os req r f =
    let r1 = emit remove_election_timer r in
    CalmIn-then r (if r1.log_compaction_enabled then adopt_states os req r1 else some r1) _
      (CalmIn-if r r1.log_compaction_enabled _ _
        (CalmIn-from r r1 _ (Calm-refl r) (adopt_states-Calm os req r1 f)) (Calm-refl r))
      λ r2 a. ground arith

following-Calm :
    (id : Str) (r s : Raft) → Calm r s → Calm r (record s { role = follower; leader_id = id })
following-Calm id r s a = ground arith

pub data_transfer-Leads :
    (os : Os) (req : DataReq) (r : Raft) → Leads after_data r (data_transfer os req r)
unfolding data_transfer
data_transfer-Leads os req r =
    let r1 = record (adopt req.term req.leader_id r) {
      role = follower;
      leader_id = req.leader_id;
    } in
    let a =
      following-Calm req.leader_id r (adopt req.term req.leader_id r)
        (adopt-Calm req.term req.leader_id r) in
    Leads-if after_data r (ltb req.term r.curr_term) _ _ (Calm-refl r) (
      Leads-then after_data r _ _
        (CalmIn-if r (req.id == 1) _ _ (CalmIn-from r r1 _ a (first_transfer-Calm os req r1 refl))
          a)
        λ r2 a2. a2)

pub done_transfer-Calm :
    (exists : Bool) (req : DataReq) (r : Raft) → Calm r (done_transfer exists req r).0
unfolding done_transfer
done_transfer-Calm exists req r = ground (arith, adopt-Calm req.term req.leader_id r)
