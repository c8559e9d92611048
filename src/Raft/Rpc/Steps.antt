-- ===== src/Raft/Rpc/Steps.antt =====
-- The handlers of a server as the steps of a relation, and how each changes the term, the vote and the role.
use draft.Base.{
  refl, ℕ, Str, suc, ◌^◌, ◌<◌, ◌≡◌, subst, Bool, true, false, Option, none, some, inl, inr, ◌⊎◌,
}
use draft.Http.Serve.{Outside, Method, serve}
use draft.Http.Quiet.{serve-Calm}
use draft.Log.Room.{Os}
use draft.Raft.Types.{AppendEntriesRes, Raft, VoteReq, VoteRes, AppendEntriesReq, DataReq, DataRes}
use draft.Raft.Election.{pre_vote, on_pre_vote, on_request_vote}
use draft.Raft.Rpc.{timeout_now, request_vote, append_entries, data_transfer, done_transfer, Answer}
use draft.Raft.Rpc.Vote.{request_vote-Calm}
use draft.Raft.Rpc.Changes.{Calm, Calm-refl, CalmIn, CalmIn-keeps, Moves, MovesIn}
use draft.Raft.Rpc.Stand.{
  Counts, CountsIn, on_request_vote-Counts, pre_vote-Moves, on_pre_vote-Moves, MovesWith,
  timeout_now-Moves,
}
use draft.Raft.Rpc.Advance.{
  Leads, after_answer, after_data, append_entries-Leads, data_transfer-Leads, done_transfer-Calm,
}
use draft.Raft.Election.{append_entries as append_all}
use draft.Raft.Election.Roles.{append_entries-vote}
use draft.Raft.Member.{on_append_entries, append, add_server, leadership_transfer, del_server}
use draft.Raft.Member.Votes.{on_append_entries-Calm}
use draft.Raft.Transfer.{
  Walk, transfer_to, on_data_transfer, on_done_transfer, on_timeout_now,
  on_leadership_transfer_timeout, drop_entries,
}
use draft.Raft.Transfer.Votes.{
  transfer_to-Calm, on_data_transfer-Calm, on_done_transfer-Calm, on_timeout_now-Calm,
  on_leadership_transfer_timeout-vote, drop_entries-Compacts, Compacts, CompactsIn,
}
use draft.Raft.Member.Requests.{
  after_request, after_append, append-Leads, add_server-Leads, leadership_transfer-Leads,
  del_server-Leads,
}
use draft.Log.Room.{RcErrno}

-- The handlers of a server: the calls that it answers, the answers to its own calls, its timers, and
-- the requests of clients and operators.
pub data Step (os : Os) : Raft → Raft → Type 0 where
  asked_to_vote :
      {r r' : Raft}
      → (req : VoteReq) (res : VoteRes) → request_vote req r ≡ some (r', res)
      → Step os r r'
  asked_to_append :
      {r : Raft}
      → (req : AppendEntriesReq) (x : Answer) → append_entries os req r ≡ some x
      → Step os r x.0
  sent_data :
      {r r' : Raft}
      → (req : DataReq) (res : DataRes) → data_transfer os req r ≡ some (r', res)
      → Step os r r'
  sent_all : {r : Raft} → (exists : Bool) (req : DataReq) → Step os r (done_transfer exists req r).0
  timed_out :
      {r r' : Raft}
      → (early : Bool) → suc r.curr_term < 2 ^ 64
      → pre_vote early r ≡ some r'
      → Step os r r'
  told_to_stand :
      {r r' : Raft}
      → (res : VoteRes) → suc r.curr_term < 2 ^ 64
      → timeout_now r ≡ some (r', res)
      → Step os r r'
  got_pre_vote :
      {r r' : Raft}
      → (res : Option VoteRes) → suc r.curr_term < 2 ^ 64
      → on_pre_vote res r ≡ some r'
      → Step os r r'
  got_vote : {r r' : Raft} → (res : Option VoteRes) → on_request_vote res r ≡ some r' → Step os r r'
  got_appended :
      {r r' : Raft}
      → (msecs : ℕ) (exists : Bool) (id : Str) (res : Option AppendEntriesRes)
      → on_append_entries os msecs exists id res r ≡ some r'
      → Step os r r'
  beat : {r r' : Raft} → append_all r ≡ some r' → Step os r r'
  commanded :
      {r : Raft} → (text : Str) (x : Raft × Option ℕ) → append os text r ≡ some x → Step os r x.0
  added :
      {r : Raft}
      → (exists : Bool) (is_ipv4 : Str → Bool) (target : Str) (x : Raft × RcErrno × Str)
      → add_server exists is_ipv4 target r ≡ some x
      → Step os r x.0
  transferred :
      {r : Raft}
      → (target : Str) (x : Raft × RcErrno × Str) → leadership_transfer target r ≡ some x
      → Step os r x.0
  removed :
      {r : Raft}
      → (target : Str) (x : Raft × RcErrno × Str) → del_server os target r ≡ some x
      → Step os r x.0
  told_to_transfer :
      {r r' : Raft} → (w : Walk) (address : Str) → transfer_to w address r ≡ some r' → Step os r r'
  got_data :
      {r r' : Raft}
      → (w : Walk) (id : Str) (res : Option DataRes) → on_data_transfer w id res r ≡ some r'
      → Step os r r'
  got_done :
      {r r' : Raft}
      → (id : Str) (res : Option DataRes) → on_done_transfer id res r ≡ some r'
      → Step os r r'
  got_timeout :
      {r r' : Raft}
      → (failed : Bool) (id : Str) → on_timeout_now failed id r ≡ some r'
      → Step os r r'
  transfer_expired : {r : Raft} → (id : Str) → Step os r (on_leadership_transfer_timeout id r)
  compacted :
      {r : Raft}
      → (index : ℕ) (sync : Bool) (x : Raft × RcErrno) → drop_entries os index sync r ≡ some x
      → Step os r x.0
  served :
      {r : Raft}
      → (out : Outside) (method : Method) (target : Str) (x : Raft × Str)
      → serve out method target r ≡ some x
      → Step os r x.0

-- The step takes an answer that grants the vote.
abbrev pub is_grant : {os : Os} → {r r' : Raft} → Step os r r' → Bool
is_grant (got_vote (some v) e) = v.vote_granted
is_grant _ = false

abbrev pub is_compaction : {os : Os} → {r r' : Raft} → Step os r r' → Bool
is_compaction (compacted index sync x e) = true
is_compaction _ = false

leads {ℓ} :
    {A : Type ℓ}
    → (state : A → Raft) (r : Raft) {m : Option A} (x : A) → Leads state r m
    → m ≡ some x
    → Calm r (state x)
leads state r x h e = subst (Leads state r) e h

calm_in : (r r' : Raft) {m : Option Raft} → CalmIn r m → m ≡ some r' → Calm r r'
calm_in r r' h e = subst (CalmIn r) e h

moves : (r r' : Raft) {m : Option Raft} → MovesIn r m → m ≡ some r' → Moves r r'
moves r r' h e = subst (MovesIn r) e h

moves_with :
    (r r' : Raft) (res : VoteRes) {m : Option (Raft × VoteRes)}
    → MovesWith r m
    → m ≡ some (r', res)
    → Moves r r'
moves_with r r' res h e = subst (MovesWith r) e h

pub counted :
    (v : VoteRes) (r r' : Raft) {m : Option Raft}
    → CountsIn v r m
    → m ≡ some r'
    → Calm r r' ⊎ Counts v r r'
counted v r r' h e = subst (CountsIn v r) e h

compacts :
    (r r' : Raft) (rc : RcErrno) {m : Option (Raft × RcErrno)}
    → CompactsIn r m
    → m ≡ some (r', rc)
    → Compacts r r'
compacts r r' rc h e = subst (CompactsIn r) e h

-- A vote was counted by a step that takes a granting answer, or the log was compacted.
pub data Special {os : Os} {r r' : Raft} (x : Step os r r') : Type 0 where
  counts_vote : (v : VoteRes) → Counts v r r' → is_grant x ≡ true → Special x
  compacts_log : Compacts r r' → is_compaction x ≡ true → Special x

-- Each other step is calm, or the server stands for election.
pub Step-Moves : (os : Os) (r r' : Raft) (x : Step os r r') → Moves r r' ⊎ Special x
unfolding on_request_vote
Step-Moves os r r' (asked_to_vote req res e) = inl (inl (request_vote-Calm req r r' res e))
Step-Moves os r _ (asked_to_append req x e) =
    inl (inl (leads after_answer r x (append_entries-Leads os req r) e))
Step-Moves os r r' (sent_data req res e) =
    inl (inl (leads after_data r (r', res) (data_transfer-Leads os req r) e))
Step-Moves os r _ (sent_all exists req) = inl (inl (done_transfer-Calm exists req r))
Step-Moves os r r' (timed_out early h e) = inl (moves r r' (pre_vote-Moves early r h) e)
Step-Moves os r r' (told_to_stand res h e) = inl (moves_with r r' res (timeout_now-Moves r h) e)
Step-Moves os r r' (got_pre_vote res h e) = inl (moves r r' (on_pre_vote-Moves res r h) e)
Step-Moves os r r' (got_vote none e) = inl (inl (calm_in r r' {m = some r} (Calm-refl r) e))
Step-Moves os r r' (got_vote (some v) e) = elim (counted v r r' (on_request_vote-Counts v r) e) [
  | inl c ↦ inl (inl c)
  | inr c ↦ inr (counts_vote v c c.1)
]
Step-Moves os r r' (got_appended msecs exists id res e) =
    inl (inl (calm_in r r' (on_append_entries-Calm os msecs exists id res r) e))
Step-Moves os r r' (beat e) =
    inl (inl (calm_in r r' (CalmIn-keeps r r _ (Calm-refl r) (append_entries-vote r)) e))
Step-Moves os r _ (commanded text x e) =
    inl (inl (leads after_append r x (append-Leads os text r) e))
Step-Moves os r _ (added exists is_ipv4 target x e) =
    inl (inl (leads after_request r x (add_server-Leads exists is_ipv4 target r) e))
Step-Moves os r _ (transferred target x e) =
    inl (inl (leads after_request r x (leadership_transfer-Leads target r) e))
Step-Moves os r _ (removed target x e) =
    inl (inl (leads after_request r x (del_server-Leads os target r) e))
Step-Moves os r r' (told_to_transfer w address e) =
    inl (inl (calm_in r r' (transfer_to-Calm w address r) e))
Step-Moves os r r' (got_data w id res e) =
    inl (inl (calm_in r r' (on_data_transfer-Calm w id res r) e))
Step-Moves os r r' (got_done id res e) = inl (inl (calm_in r r' (on_done_transfer-Calm id res r) e))
Step-Moves os r r' (got_timeout failed id e) =
    inl (inl (calm_in r r' (on_timeout_now-Calm failed id r) e))
Step-Moves os r _ (transfer_expired id) = inl (
    inl (
      CalmIn-keeps r r (some (on_leadership_transfer_timeout id r)) (Calm-refl r)
        (on_leadership_transfer_timeout-vote id r)))
Step-Moves os r _ (compacted index sync x e) =
    inr (compacts_log (compacts r x.0 x.1 (drop_entries-Compacts os index sync r) e) refl)
Step-Moves os r _ (served out method target x e) = inl (inl (serve-Calm out method target r x e))
