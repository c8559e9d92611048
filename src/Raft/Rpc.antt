-- ===== src/Raft/Rpc.antt =====
-- raft/raft_rpc.hpp: the calls that a server answers.
pub mod Changes
pub mod Vote
pub mod Advance
pub mod Stand
pub mod Steps
pub mod Once
pub mod Follow
pub mod Skip
pub mod Store
pub mod Total
use draft.Base.{
  ℕ, zero, suc, ◌+◌, Bool, true, false, not, ◌&&◌, ◌||◌, Option, none, some, List, [], ◌∷◌, ◌++◌,
  Str, str_eq, min, ltb, leb, ◌==◌, if◌then◌else◌, take,
}
use draft.Log.{
  EntryLogger, last_entry_index, last_entry_term, has_entry, entry_conflicted, config, append, chop,
  copy_states, ◌>>=◌,
}
use draft.Log.Entry.{LogEntry, make_entry, make_states}
use draft.Log.Room.{Os, RcErrno, is_good}
use draft.Raft.Types.{
  Raft, VoteReq, VoteRes, WireEntry, AppendEntriesReq, AppendEntriesRes, DataReq, DataRes, Effect,
  reset_election_timer, remove_election_timer, push_committed, push_transfer, sync_vote,
  set_last_heartbeat, data_transfer_callback, emit, follower,
}
use draft.Raft.Election.{step_down, pre_vote}
use draft.Raft.Configure.{adjust_configuration}

unfoldable pub timeout_now : Raft → Option (Raft × VoteRes)
timeout_now r = do
  r1 ← pre_vote true (emit remove_election_timer r)
  some (r1, record { term = r1.curr_term; vote_granted = false })

-- `pre_vote`, with the milliseconds since the last heartbeat.
unfoldable pub pre_vote_rpc : ℕ → VoteReq → Raft → Option VoteRes
pre_vote_rpc msecs req r = do
  index ← last_entry_index r.log
  term ← last_entry_term r.log
  some (
      if ltb req.last_log_term term || ltb req.last_log_index index
      then record { term = r.curr_term; vote_granted = false }
      else if ltb msecs r.min_election_timeout && not req.early
      then record { term = r.curr_term; vote_granted = false }
      else record { term = req.term; vote_granted = true })

-- A request of a higher term: the vote of the old term is forgotten, and the server steps down.
unfoldable pub adopt : ℕ → Str → Raft → Raft
adopt term leader_id r =
    if ltb r.curr_term term then step_down term leader_id (record r { voted_for = [] }) else r

abbrev pub empty : Str → Bool
empty [] = true
empty (c ∷ s) = false

-- The last branch of `request_vote`.
abbrev grant : VoteReq → Raft → Raft
grant req r =
    if ltb r.curr_term req.term
    then step_down req.term [] (record r { voted_for = req.candidate_id })
    else if not (str_eq req.candidate_id r.voted_for)
    then emit sync_vote (record r { curr_term = req.term; voted_for = req.candidate_id })
    else r

abbrev decide : VoteReq → ℕ → ℕ → Raft → Raft × VoteRes
decide req index term r =
    if ltb req.term r.curr_term
    then (r, record { term = r.curr_term; vote_granted = false })
    else if not (empty r.voted_for) && not (str_eq req.candidate_id r.voted_for)
    then (r, record { term = r.curr_term; vote_granted = false })
    else if ltb req.last_log_term term || ltb req.last_log_index index
    then (r, record { term = r.curr_term; vote_granted = false })
    else (grant req r, record { term = req.term; vote_granted = true })

unfoldable pub request_vote : VoteReq → Raft → Option (Raft × VoteRes)
unfolding adopt
request_vote req r = do
  let r1 = adopt req.term [] r
  index ← last_entry_index r1.log
  term ← last_entry_term r1.log
  some (decide req index term r1)

-- `set_result` of a reply to `append_entries`; the flag is set where the call fails.
abbrev pub Answer : Type 0
Answer = Raft × AppendEntriesRes × Bool

abbrev pub answer : Bool → Bool → Raft → Option Answer
answer result failed r = do
  last ← last_entry_index r.log
  some (r, record { term = r.curr_term; success = result; match_index = last }, failed)

-- Where the first loop stops: the log, whether the configuration changes, and the entries to append; or
-- the log that a failing `chop` left.
pub data Stop : Type 0 where
  failing : EntryLogger → Stop
  appending : EntryLogger → Bool → List WireEntry → Stop

-- The first loop of `append_entries`: it passes over the entries that the log has.
unfoldable pub skip_existing : Os → EntryLogger → Bool → List WireEntry → Option Stop
skip_existing os l need [] = some (appending l need [])
skip_existing os l need (e ∷ es) =
    let need' = need || e.config in
    let rest = skip_existing os l need' es in
    if entry_conflicted l e.index e.term
    then (do
      (l', rc) ← chop os e.index true l
      some (
          if is_good rc
          then appending l' (need' || not (l'.cfg_entry_index == l.cfg_entry_index)) (e ∷ es)
          else failing l'))
    else if has_entry l e.index e.term
    then rest
    else some (appending l need' (e ∷ es))

-- The second loop: every entry is made before any is appended.
unfoldable pub make_entries : ℕ → List WireEntry → List LogEntry
make_entries cfg [] = []
make_entries cfg (e ∷ es) = make_entry cfg e.text e.index e.term e.config ∷ make_entries cfg es

abbrev any_config : Bool → List WireEntry → Bool
any_config need [] = need
any_config need (e ∷ es) = any_config (need || e.config) es

-- The log behind the two loops, whether the configuration changes, and whether all went well.
unfoldable pub store_entries :
    Os → List WireEntry → EntryLogger → Option (EntryLogger × Bool × Bool)
unfolding skip_existing make_entries
store_entries os entries l = do
  stop ← skip_existing os l false entries
  elim stop [
    | failing l' ↦ some (l', false, false)
    | appending l' need [] ↦ some (l', need, true)
    | appending l' need (e ∷ es) ↦ do
      (l'', rc) ← append os (make_entries l'.cfg_entry_index (e ∷ es)) true l'
      some (l'', any_config need (e ∷ es), is_good rc)
  ]

abbrev pub commit_with : ℕ → ℕ → Raft → Raft
commit_with leader_commit last r =
    if ltb r.commit_index leader_commit
    then emit push_committed (record r { commit_index = min leader_commit last })
    else r

-- The end of `append_entries`, when the entries are stored.
abbrev pub follow : AppendEntriesReq → Bool → Raft → Option Answer
follow req need r = do
  last ← last_entry_index r.log
  let r1 = commit_with req.leader_commit last r
  let r2 = emit set_last_heartbeat (record r1 { leader_id = req.leader_id })
  r3 ← (if need then adjust_configuration (config r2.log) r2 else some r2)
  answer true false r3

abbrev pub enter : AppendEntriesReq → Raft → Raft
enter req r =
    if ltb r.curr_term req.term
    then adopt req.term req.leader_id r
    else record (emit reset_election_timer r) { role = follower }

unfoldable pub append_entries : Os → AppendEntriesReq → Raft → Option Answer
unfolding adopt store_entries
append_entries os req r =
    if ltb req.term r.curr_term
    then answer false false r
    else (let r1 = enter req r in
        if not (has_entry r1.log req.prev_log_index req.prev_log_term)
        then answer false false r1
        else (do
          (l, need, good) ← store_entries os req.entries r1.log
          let r2 = record r1 { log = l }
          if good then follow req need r2 else answer false true r2))

-- `name.substr(0, p + 1)` where `p` is the place of the first slash, or of the last byte.
abbrev root_of : Str → Str
root_of [] = []
root_of (c ∷ s) = if c == b'/' then c ∷ [] else c ∷ root_of s

-- The log is emptied, and the states are those of the sender. The results of `chop` and `copy` are ignored.
unfoldable pub adopt_states : Os → DataReq → Raft → Option Raft
adopt_states os req r = do
  (l, rc) ← chop os (r.log.stat.last_index + 1) true r.log
  r1 ←
      adjust_configuration req.last_config
        (record r { log = l; commit_index = req.last_index; last_applied = req.last_index })
  (l', rc') ← copy_states os (make_states req.last_config) req.last_index req.last_term r1.log
  some (record r1 { log = l' })

abbrev pub first_transfer : Os → DataReq → Raft → Option Raft
first_transfer os req r = do
  let r1 = emit remove_election_timer r
  r2 ← (if r1.log_compaction_enabled then adopt_states os req r1 else some r1)
  some (if empty req.name then r2 else emit (data_transfer_callback (root_of req.name)) r2)

-- `data_transfer`, but for the files that it writes.
unfoldable pub data_transfer : Os → DataReq → Raft → Option (Raft × DataRes)
unfolding adopt adopt_states
data_transfer os req r =
    if ltb req.term r.curr_term
    then some (r, record { term = r.curr_term; success = false })
    else (do
      let r1 = record (adopt req.term req.leader_id r) {
        role = follower;
        leader_id = req.leader_id;
      }
      r2 ← (if req.id == 1 then first_transfer os req r1 else some r1)
      some (r2, record { term = r2.curr_term; success = true }))

-- `done_transfer`, with whether the transferred path is there.
unfoldable pub done_transfer : Bool → DataReq → Raft → Raft × DataRes
unfolding adopt
done_transfer exists req r =
    if ltb req.term r.curr_term
    then (r, record { term = r.curr_term; success = false })
    else (let r1 = record (adopt req.term req.leader_id r) {
      role = follower;
      leader_id = req.leader_id;
    } in
        let r2 = if not (empty req.name) && exists then emit push_transfer r1 else r1 in
        (emit set_last_heartbeat r2, record { term = r1.curr_term; success = true }))
