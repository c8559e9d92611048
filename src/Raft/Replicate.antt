-- ===== src/Raft/Replicate.antt =====
-- `append_entries` of the leader: the entries for one member, and the round to all.
pub mod Requests
use draft.Base.{
  ℕ, zero, suc, ◌+◌, ◌-◌, ◌^◌, Bool, false, not, ◌&&◌, Option, none, some, List, [], ◌∷◌, Str,
  str_eq, if◌then◌else◌,
}
use draft.Log.{lookup, last_entry_index, last_entry_term, ◌>>=◌}
use draft.Log.Entry.{LogEntry, str}
use draft.Raft.Types.{
  Node, Raft, VoteReq, WireEntry, AppendEntriesReq, send_append_entries, send_timeout_now, emit,
}

abbrev pub wire : LogEntry → WireEntry
wire e = record { term = e.term; index = e.index; text = str e; config = e.cfg }

-- The loop of `append_entries(node*)`, on the number of indices left.
unfoldable pub entries_from : Raft → ℕ → ℕ → List WireEntry
entries_from r zero i = []
entries_from r (suc left) i =
    let rest = entries_from r left (i + 1) in
    elim (lookup r.log i) [ none ↦ [] | some e ↦ wire e ∷ rest ]

abbrev pub index_of : Option LogEntry → ℕ → ℕ
index_of none d = d
index_of (some e) d = e.index

abbrev pub term_of : Option LogEntry → ℕ → ℕ
term_of none d = d
term_of (some e) d = e.term

-- `next_index - 1` of a 64-bit index.
abbrev pub before : ℕ → ℕ
before zero = 2 ^ 64 - 1
before (suc i) = i

-- The request that `append_entries(node*)` and `fill` make.
unfoldable pub append_entries_req : Raft → Node → Option AppendEntriesReq
unfolding entries_from
append_entries_req r n = do
  last ← last_entry_index r.log
  let prev = lookup r.log (before n.next_index)
  some (record {
    term = r.curr_term;
    leader_id = r.self_id;
    prev_log_index = index_of prev r.log.stat.last_index;
    prev_log_term = term_of prev r.log.stat.last_term;
    entries = entries_from r (last + 1 - n.next_index) n.next_index;
    leader_commit = r.commit_index;
  })

unfoldable pub append_entries_to : Node → Raft → Option Raft
unfolding append_entries_req
append_entries_to n r = do
  req ← append_entries_req r n
  some (emit (send_append_entries n.id req) r)

unfoldable pub append_entries_each : List (Str × Node) → Raft → Option Raft
unfolding append_entries_to
append_entries_each [] r = some r
append_entries_each ((a, n) ∷ c) r = do
  r' ←
      (if not (str_eq n.id r.self_id) && not n.transfer_data_to
        then append_entries_to n r
        else some r)
  append_entries_each c r'

-- The vote request that `fill` makes.
unfoldable pub vote_req : Raft → Bool → Option VoteReq
vote_req r early = do
  index ← last_entry_index r.log
  term ← last_entry_term r.log
  some (record {
    term = r.curr_term;
    candidate_id = r.self_id;
    last_log_index = index;
    last_log_term = term;
    early = early;
  })

unfoldable pub timeout_now : Node → Raft → Option Raft
unfolding vote_req
timeout_now n r = do req ← vote_req r false; some (emit (send_timeout_now n.id req) r)
