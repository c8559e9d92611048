-- ===== src/Raft/Member/Votes.antt =====
-- What the handlers of a leader do to the term and the vote.
use draft.Base.{
  inl, inr, ◌≡◌, ℕ, ◌+◌, ◌==◌, refl, Bool, true, false, not, ◌&&◌, Option, none, some, [], ◌∷◌,
  codes, Str, ltb, if◌then◌else◌, arith,
}
use draft.Log.{EntryLogger, last_entry_index, lookup, append as log_append, ◌>>=◌}
use draft.Log.Entry.{LogEntry, make_entry as log_make_entry}
use draft.Log.Room.{Os, RcErrno, is_good}
use draft.Raft.Growth.{appended}
use draft.Raft.Types.{Node, Raft, Reconfiguration, AppendEntriesRes, emit, init_transfer, is_leader}
use draft.Raft.Cluster.{serialize_configuration, emplace, update_node}
use draft.Raft.Replicate.{append_entries_to, timeout_now, vote_req}
use draft.Raft.Commit.{adjust_commit_index, complete_reconfiguration}
use draft.Raft.Election.Roles.{
  SameVote, KeepsVote, KeepsVote-bind, KeepsVote-if, KeepsVote-then, append_entries_to-vote,
  append_entries-vote, adjust_commit_index-vote, step_down-vote,
}
use draft.Raft.Member.{
  append_entry, newly, node_of, do_data_transfer, deploy, handle_catch_up,
  handle_transfer_leader_to, catch_up, rounds_left, close_to, on_success, on_mismatch,
  on_append_entries,
}
use draft.Raft.Rpc.Advance.{CalmIn-if}
use draft.Raft.Rpc.Changes.{Calm-refl, CalmIn, CalmIn-keeps}

-- A state that a step hands back beside a result has the term and the vote of `r`.
abbrev pub KeepsIn {ℓ} : {A : Type ℓ} → Raft → Option (Raft × A) → Type 0
KeepsIn r none = Unit
KeepsIn r (some x) = SameVote r x.0

KeepsIn-then {ℓ} :
    {A : Type ℓ}
    → (r : Raft) (m : Option (Raft × A)) (f : Raft × A → Option Raft) → KeepsIn r m
    → ((x : Raft × A) → KeepsVote x.0 (f x))
    → KeepsVote r (m >>= f)
KeepsIn-then r none f hm hf = tt
KeepsIn-then r (some (r', a)) f hm hf =
    KeepsVote-then r (some r') (λ s. f (s, a)) hm (λ s. hf (s, a))

pub append_entry-vote :
    (os : Os) (text : Str) (cfg : Bool) (r : Raft) → KeepsIn r (append_entry os text cfg r)
unfolding append_entry
append_entry-vote os text cfg r = by_last (last_entry_index r.log) refl
  where
    stored :
        (last : ℕ) (o : Option (EntryLogger × RcErrno))
        → last_entry_index r.log ≡ some last
        → log_append os
            (log_make_entry r.log.cfg_entry_index text (last + 1) r.curr_term cfg ∷ [])
            true
            r.log
          ≡ o
        → KeepsIn r (o >>= (λ x. some (record r { log = x.0 }, x.1)))
    stored last none e p = tt
    stored last (some x) e p =
        (refl, refl, refl, refl, inr (appended os text last r.curr_term cfg x.1 e p))

    by_last :
        (o : Option ℕ)
        → last_entry_index r.log ≡ o
        → KeepsIn r (
            o >>= (λ last.
              log_append os
                (log_make_entry r.log.cfg_entry_index text (last + 1) r.curr_term cfg ∷ [])
                true
                r.log
              >>= (λ x. some (record r { log = x.0 }, x.1))))
    by_last none e = tt
    by_last (some last) e =
        stored last
          (log_append os (log_make_entry r.log.cfg_entry_index text (last + 1) r.curr_term cfg ∷ [])
            true r.log)
          e refl

pub timeout_now-vote : (n : Node) (r : Raft) → KeepsVote r (timeout_now n r)
unfolding timeout_now
timeout_now-vote n r =
    KeepsVote-bind r (vote_req r false) _ λ req. (refl, refl, refl, refl, inl refl)

pub do_data_transfer-vote :
    (exists : Bool) (n : Node) (r : Raft) → KeepsVote r (do_data_transfer exists n r)
unfolding do_data_transfer update_node
do_data_transfer-vote exists n r =
    KeepsVote-if r (not (is_leader r.role)) _ _ (refl, refl, refl, refl, inl refl)
      (KeepsVote-if r (newly n.id r.recfg && not exists && not n.transfer_data_to) _ _
        (append_entries_to-vote n r)
        (KeepsVote-bind r (last_entry_index r.log) _ λ last. (refl, refl, refl, refl, inl refl)))

complete_reconfiguration-vote :
    (status : Str) (r : Raft) → SameVote r (complete_reconfiguration status r)
unfolding complete_reconfiguration
complete_reconfiguration-vote status r = (refl, refl, refl, refl, inl refl)

deploy-vote : (os : Os) (c : Reconfiguration) (r : Raft) → KeepsVote r (deploy os c r)
unfolding deploy
deploy-vote os c r = KeepsVote-if r c.entry_added _ _ (append_entries-vote r) (
    KeepsIn-then r
      (append_entry os (serialize_configuration (emplace c.node.id c.node r.cluster)) true
        (record r { cluster = emplace c.node.id c.node r.cluster }))
      _ (append_entry-vote os _ true (record r { cluster = emplace c.node.id c.node r.cluster }))
      λ x.
        KeepsVote-if x.0 (is_good x.1) _ _
          (append_entries-vote (record x.0 { recfg = some (record c { entry_added = true }) }))
          (complete_reconfiguration-vote (codes "ERROR") x.0))

handle_catch_up-vote : (os : Os) (msecs : ℕ) (r : Raft) → KeepsVote r (handle_catch_up os msecs r)
unfolding handle_catch_up
handle_catch_up-vote os msecs r = by_recfg r.recfg
  where
    by_recfg :
        (o : Option Reconfiguration)
        → KeepsVote r (elim o [
          | none ↦ none
          | some c ↦ do
            last ← last_entry_index r.log
            if rounds_left c.rounds r.server_catch_up_rounds
                then append_entries_to c.node
                    (record r { recfg = some (record c { rounds = c.rounds + 1 }) })
                else if ltb msecs r.min_election_timeout && close_to last c.node.match_index
                then deploy os c r
                else some (complete_reconfiguration (codes "TIMEOUT") r)
        ])
    by_recfg none = tt
    by_recfg (some c) = KeepsVote-bind r (last_entry_index r.log) _ λ last.
        KeepsVote-if r (rounds_left c.rounds r.server_catch_up_rounds) _ _
          (append_entries_to-vote c.node
            (record r { recfg = some (record c { rounds = c.rounds + 1 }) }))
          (KeepsVote-if r (ltb msecs r.min_election_timeout && close_to last c.node.match_index) _ _
            (deploy-vote os c r) (complete_reconfiguration-vote (codes "TIMEOUT") r))

handle_transfer_leader_to-vote : (n : Node) (r : Raft) → KeepsVote r (handle_transfer_leader_to n r)
unfolding handle_transfer_leader_to
handle_transfer_leader_to-vote n r = KeepsVote-bind r (last_entry_index r.log) _ λ last.
    KeepsVote-if r (n.match_index == last) _ _ (timeout_now-vote n r)
      (refl, refl, refl, refl, inl refl)

catch_up-vote : (os : Os) (msecs : ℕ) (id : Str) (r : Raft) → KeepsVote r (catch_up os msecs id r)
catch_up-vote os msecs id r =
    KeepsVote-if r (newly id r.recfg) _ _ (handle_catch_up-vote os msecs r)
      (refl, refl, refl, refl, inl refl)

on_success-vote :
    (os : Os) (msecs : ℕ) (id : Str) (res : AppendEntriesRes) (r : Raft)
    → KeepsVote r (on_success os msecs id res r)
unfolding on_success update_node
on_success-vote os msecs id res r =
    let r1 =
      update_node id
        (λ n. record n { match_index = res.match_index; next_index = res.match_index + 1 }) r in
    KeepsVote-bind r (node_of id r1) _ λ n.
      KeepsVote-then r (adjust_commit_index r1) _ (adjust_commit_index-vote r1) λ r2.
        KeepsVote-then r2 (if n.transfer_leader_to then handle_transfer_leader_to n r2 else some r2)
          _
          (KeepsVote-if r2 n.transfer_leader_to _ _ (handle_transfer_leader_to-vote n r2)
            (refl, refl, refl, refl, inl refl))
          λ r3. catch_up-vote os msecs id r3

on_mismatch-vote :
    (exists : Bool) (id : Str) (res : AppendEntriesRes) (r : Raft)
    → KeepsVote r (on_mismatch exists id res r)
unfolding on_mismatch
on_mismatch-vote exists id res r = by_entry (lookup r.log (res.match_index + 1))
  where
    gone : Raft
    gone =
        update_node id (λ n. record n { next_index = res.match_index + 1; transfer_data_to = true })
          r

    behind : Raft
    behind = update_node id (λ n. record n { next_index = res.match_index + 1 }) r

    by_entry :
        (o : Option LogEntry)
        → KeepsVote r (elim o [
          | none ↦ node_of id gone >>= (λ n. do_data_transfer exists n (emit init_transfer gone))
          | some e ↦ node_of id behind >>= (λ n. append_entries_to n behind)
        ])
    by_entry none =
        KeepsVote-bind r (node_of id gone) _
          λ n. unfold update_node in do_data_transfer-vote exists n (emit init_transfer gone)
    by_entry (some e) =
        KeepsVote-bind r (node_of id behind) _
          λ n. unfold update_node in append_entries_to-vote n behind

-- A reply of a higher term raises the term; any other leaves the term and the vote.
pub on_append_entries-Calm :
    (os : Os) (msecs : ℕ) (exists : Bool) (id : Str) (o : Option AppendEntriesRes) (r : Raft)
    → CalmIn r (on_append_entries os msecs exists id o r)
unfolding on_append_entries
on_append_entries-Calm os msecs exists id none r =
    CalmIn-keeps r r _ (Calm-refl r) (catch_up-vote os msecs id r)
on_append_entries-Calm os msecs exists id (some res) r =
    CalmIn-if r (not (is_leader r.role)) _ _ (Calm-refl r) (
      CalmIn-if r res.success _ _
        (CalmIn-keeps r r _ (Calm-refl r) (on_success-vote os msecs id res r))
        (ground (
          arith,
          step_down-vote res.term id r,
          CalmIn-keeps r r _ (Calm-refl r) (on_mismatch-vote exists id res r),
        )))
