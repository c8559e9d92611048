-- ===== src/Raft/Election/Roles.antt =====
-- What the parts of a handler do to the term and the vote.
use draft.Base.{
  ℕ, ◌%◌, ◌^◌, ◌≡◌, refl, ◌∙◌, Bool, true, false, not, ◌&&◌, Option, none, some, List, [], ◌∷◌, Str,
  str_eq, if◌then◌else◌, arith, Bool-cases, inl, inr,
}
use draft.Log.{last_entry_index, ◌>>=◌}
use draft.Raft.Types.{Node, Raft, Reconfiguration, is_leader, leader, follower}
use draft.Raft.Growth.{Grows, Grows-trans}
use draft.Raft.Cluster.{Cluster}
use draft.Raft.Replicate.{append_entries_req, append_entries_to, append_entries_each, vote_req}
use draft.Raft.Commit.{
  commit_to, commit_alone, finish_reconfiguration, adjust_commit_index, complete_reconfiguration,
  majority_index, is_alone,
}
use draft.Raft.Election.{
  step_down, transferred, append_entries, step_up, request_votes, send_pre_votes, stand,
  leader_election,
}
use draft.Raft.Configure.{make_node, add_addresses, adjust_configuration}

-- The term, the vote, the role and the counted votes are those of `r`, and the log grows at most.
abbrev pub SameVote : Raft → Raft → Type 0
SameVote r r' =
    (r'.curr_term ≡ r.curr_term)
    × (r'.voted_for ≡ r.voted_for)
    × (r'.role ≡ r.role)
    × (r'.votes ≡ r.votes)
    × Grows r.log r'.log

-- Whatever a step hands back, it keeps these.
abbrev pub KeepsVote : Raft → Option Raft → Type 0
KeepsVote r none = Unit
KeepsVote r (some r') = SameVote r r'

SameVote-trans : (r s t : Raft) → SameVote r s → SameVote s t → SameVote r t
SameVote-trans r s t h k =
    (k.0 ∙ h.0, k.1 ∙ h.1, k.2 ∙ h.2, k.3 ∙ h.3, Grows-trans r.log s.log t.log h.4 k.4)

pub KeepsVote-bind {ℓ} :
    {A : Type ℓ} (r : Raft) (m : Option A) (f : A → Option Raft)
    → ((a : A) → KeepsVote r (f a))
    → KeepsVote r (m >>= f)
KeepsVote-bind r none f h = tt
KeepsVote-bind r (some a) f h = h a

pub KeepsVote-if :
    (r : Raft) (b : Bool) (m n : Option Raft)
    → KeepsVote r m
    → KeepsVote r n
    → KeepsVote r (if b then m else n)
KeepsVote-if r true m n hm hn = hm
KeepsVote-if r false m n hm hn = hn

-- One step behind another.
pub KeepsVote-then :
    (r : Raft) (m : Option Raft) (f : Raft → Option Raft)
    → KeepsVote r m
    → ((r' : Raft) → KeepsVote r' (f r'))
    → KeepsVote r (m >>= f)
KeepsVote-then r none f hm hf = tt
KeepsVote-then r (some r') f hm hf = onward (f r') (hf r')
  where
    onward : (o : Option Raft) → KeepsVote r' o → KeepsVote r o
    onward none h = tt
    onward (some x) h = SameVote-trans r r' x hm h

pub append_entries_to-vote : (n : Node) (r : Raft) → KeepsVote r (append_entries_to n r)
unfolding append_entries_to
append_entries_to-vote n r =
    KeepsVote-bind r (append_entries_req r n) _ (λ req. (refl, refl, refl, refl, inl refl))

append_entries_each-vote : (c : Cluster) (r : Raft) → KeepsVote r (append_entries_each c r)
unfolding append_entries_each
append_entries_each-vote [] r = (refl, refl, refl, refl, inl refl)
append_entries_each-vote ((a, n) ∷ c) r =
    KeepsVote-then r _ (append_entries_each c)
      (KeepsVote-if r (not (str_eq n.id r.self_id) && not n.transfer_data_to)
        (append_entries_to n r) (some r) (append_entries_to-vote n r)
        (refl, refl, refl, refl, inl refl))
      (append_entries_each-vote c)

commit_to-vote : (o : Option ℕ) (r : Raft) → SameVote r (commit_to o r)
commit_to-vote none r = (refl, refl, refl, refl, inl refl)
commit_to-vote (some i) r = (refl, refl, refl, refl, inl refl)

commit_alone-vote : (old last : ℕ) (r : Raft) → SameVote r (commit_alone old last r)
commit_alone-vote old last r = ground arith

finish-vote :
    (old : ℕ) (r : Raft) (c : Option Reconfiguration) → SameVote r (finish_reconfiguration old r c)
finish-vote old r none = (refl, refl, refl, refl, inl refl)
finish-vote old r (some c) = unfold complete_reconfiguration in ground arith

pub adjust_commit_index-vote : (r : Raft) → KeepsVote r (adjust_commit_index r)
unfolding adjust_commit_index
adjust_commit_index-vote r = KeepsVote-bind r (majority_index r) _ λ found.
    KeepsVote-bind r (last_entry_index r.log) _ λ last.
      (let r1 = commit_to found r in
        let r2 = commit_alone (r.commit_index % 2 ^ 32) last r1 in
        SameVote-trans r r2 (finish_reconfiguration (r.commit_index % 2 ^ 32) r2 r2.recfg)
          (SameVote-trans r r1 r2 (commit_to-vote found r) (commit_alone-vote _ last r1))
          (finish-vote _ r2 r2.recfg))

pub append_entries-vote : (r : Raft) → KeepsVote r (append_entries r)
unfolding append_entries
append_entries-vote r =
    KeepsVote-if r (is_leader r.role) _ _
      (KeepsVote-then r _ _ (append_entries_each-vote r.cluster _) λ r2.
        KeepsVote-if r2 (is_alone r2) _ _ (adjust_commit_index-vote r2)
          (refl, refl, refl, refl, inl refl))
      (refl, refl, refl, refl, inl refl)

-- The server leads, and keeps its term, its vote and the counted votes.
pub step_up-vote : (r : Raft) → KeepsVote (record r { role = leader }) (step_up r)
unfolding step_up
step_up-vote r =
    KeepsVote-bind (record r { role = leader }) (last_entry_index r.log) _
      λ last. append_entries-vote _

request_votes-vote : (c : Cluster) (r : Raft) → KeepsVote r (request_votes c r)
unfolding request_votes
request_votes-vote [] r = (refl, refl, refl, refl, inl refl)
request_votes-vote ((a, n) ∷ c) r =
    KeepsVote-if r (str_eq n.id r.self_id) _ _ (request_votes-vote c r)
      (KeepsVote-bind r (vote_req r false) _ λ req. request_votes-vote c _)

pub send_pre_votes-vote :
    (early : Bool) (c : Cluster) (r : Raft) → KeepsVote r (send_pre_votes early c r)
unfolding send_pre_votes
send_pre_votes-vote early [] r = (refl, refl, refl, refl, inl refl)
send_pre_votes-vote early ((a, n) ∷ c) r =
    KeepsVote-if r (str_eq n.id r.self_id) _ _ (send_pre_votes-vote early c r)
      (KeepsVote-bind r (vote_req r early) _ λ req. send_pre_votes-vote early c _)

-- A server that stands for election is a candidate; if it is alone, it leads.
abbrev pub stood : Raft → Raft
stood r = if is_alone (stand r) then record (stand r) { role = leader } else stand r

-- It has the next term and votes for itself.
pub leader_election-vote : (r : Raft) → KeepsVote (stood r) (leader_election r)
unfolding leader_election
leader_election-vote r = elim (Bool-cases (is_alone (stand r))) [
  | inl e ↦ rw e (step_up-vote (stand r))
  | inr e ↦ rw e (
      KeepsVote-then (stand r) _ _ (request_votes-vote r.cluster (stand r))
        λ r2. (refl, refl, refl, refl, inl refl))
]

add_addresses-vote : (addresses : List Str) (r : Raft) → KeepsVote r (add_addresses addresses r)
unfolding add_addresses
add_addresses-vote [] r = (refl, refl, refl, refl, inl refl)
add_addresses-vote (a ∷ rest) r =
    KeepsVote-bind r (make_node r a _) _ λ n. add_addresses-vote rest _

pub adjust_configuration-vote :
    (config : Str) (r : Raft) → KeepsVote r (adjust_configuration config r)
unfolding adjust_configuration
adjust_configuration-vote [] r = (refl, refl, refl, refl, inl refl)
adjust_configuration-vote (c ∷ config) r =
    KeepsVote-then r _ _ (add_addresses-vote _ r) λ r1. (refl, refl, refl, refl, inl refl)

transferred-vote :
    (cur_leader : Str) (o : Option Str) (r : Raft) → SameVote r (transferred cur_leader o r)
unfolding transferred
transferred-vote cur_leader none r = (refl, refl, refl, refl, inl refl)
transferred-vote cur_leader (some target) r = unfold complete_reconfiguration in ground arith

-- Stepping down sets the term and leaves the vote; the server follows.
pub step_down-vote :
    (term : ℕ) (cur_leader : Str) (r : Raft)
    → ((step_down term cur_leader r).curr_term ≡ term)
      × ((step_down term cur_leader r).voted_for ≡ r.voted_for)
      × ((step_down term cur_leader r).role ≡ follower)
      × ((step_down term cur_leader r).votes ≡ r.votes)
      × Grows r.log (step_down term cur_leader r).log
unfolding step_down
step_down-vote term cur_leader r = transferred-vote cur_leader r.server_transfer_leader_to _

transferred_log :
    (cur_leader : Str) (o : Option Str) (r : Raft)
    → ((transferred cur_leader o r).log ≡ r.log)
      × ((transferred cur_leader o r).commit_index ≡ r.commit_index)
unfolding transferred
transferred_log cur_leader none r = (refl, refl)
transferred_log cur_leader (some target) r = unfold complete_reconfiguration in ground arith

-- Stepping down leaves the log and the commit index.
pub step_down_log :
    (term : ℕ) (cur_leader : Str) (r : Raft)
    → ((step_down term cur_leader r).log ≡ r.log)
      × ((step_down term cur_leader r).commit_index ≡ r.commit_index)
unfolding step_down
step_down_log term cur_leader r = transferred_log cur_leader r.server_transfer_leader_to _
