-- ===== src/Raft/Commit.antt =====
-- `adjust_commit_index`: the leader moves its commit index to what a majority holds.
pub mod Majority
pub mod Bounds
pub mod Forward
use draft.Base.{
  ℕ, zero, suc, ◌+◌, ◌-◌, ◌/◌, ◌%◌, ◌^◌, Bool, true, false, not, ◌&&◌, Option, none, some, List, [],
  ◌∷◌, ◌++◌, Str, str_eq, codes, length, min, max, ltb, leb, ◌==◌, if◌then◌else◌,
}
use draft.Log.{lookup, last_entry_index, ◌>>=◌}
use draft.Raft.Types.{
  Node, Raft, Reconfiguration, ReconfigurationType, server_addition, server_removal, push_committed,
  reply, emit,
}
use draft.Raft.Cluster.{Cluster, contains, count_self, is_majority, update}

-- The least and the greatest match index above the commit index whose entry has the current term; the
-- least starts from the last entry. A match index with no entry is a null pointer.
unfoldable pub match_bounds : Raft → Cluster → ℕ → ℕ → Option (ℕ × ℕ)
match_bounds r [] lo hi = some (lo, hi)
match_bounds r ((a, n) ∷ c) lo hi =
    let others = match_bounds r c lo hi in
    if not (str_eq n.id r.self_id) && ltb r.commit_index n.match_index
    then (do
      e ← lookup r.log n.match_index
      let hit = e.term == r.curr_term
      match_bounds r c (if hit then min lo n.match_index else lo)
          (if hit then max hi n.match_index else hi))
    else others

-- The members, this server not counted, that hold the entries up to `i`.
unfoldable pub count_matches : Str → Cluster → ℕ → ℕ
count_matches self [] i = 0
count_matches self ((a, n) ∷ c) i =
    (if not (str_eq n.id self) && leb i n.match_index then 1 else 0) + count_matches self c i

abbrev pub has_majority : Raft → ℕ → Bool
has_majority r i =
    is_majority (count_self r.self_id r.cluster + count_matches r.self_id r.cluster i) r.cluster

-- The loop from the greatest index down, on the number of rounds that it can make.
unfoldable pub scan : Raft → ℕ → ℕ → Option ℕ
scan r zero i = none
scan r (suc rounds) i =
    let rest = scan r rounds (i - 1) in if has_majority r i then some i else rest

abbrev pub commit_to : Option ℕ → Raft → Raft
commit_to none r = r
commit_to (some i) r = emit push_committed (record r { commit_index = i })

-- With a least index of 0 and no majority the counter of the loop wraps below 0 and the loop goes on.
abbrev pub stuck : ℕ → Option ℕ → Bool
stuck lo none = lo == 0
stuck lo (some i) = false

abbrev pub is_alone : Raft → Bool
is_alone r = length r.cluster == 1 && contains r.self_id r.cluster

abbrev pub commit_alone : ℕ → ℕ → Raft → Raft
commit_alone old last r =
    if is_alone r
    then (let r' = record r { commit_index = last } in
        if ltb old last then emit push_committed r' else r')
    else r

unfoldable pub complete_reconfiguration : Str → Raft → Raft
complete_reconfiguration status r = record (emit (reply (status ++ (b' ' ∷ r.leader_id))) r) {
  recfg = none;
}

abbrev pub joined : ReconfigurationType → Bool
joined server_addition = true
joined server_removal = false

abbrev pub finish_reconfiguration : ℕ → Raft → Option Reconfiguration → Raft
finish_reconfiguration old r none = r
finish_reconfiguration old r (some c) =
    if ltb old r.log.cfg_entry_index && leb r.log.cfg_entry_index r.commit_index
    then complete_reconfiguration (codes "OK") (record r {
      cluster = update c.node.id (λ n. record n { alive = joined c.type }) r.cluster;
    })
    else r

-- The first loop and the second: the index to commit, if there is one.
unfoldable pub majority_index : Raft → Option (Option ℕ)
unfolding match_bounds scan
majority_index r = do
  last ← last_entry_index r.log
  (lo, hi) ← match_bounds r r.cluster last 0
  let found = scan r (hi + 1 - lo) hi
  if stuck lo found && leb lo hi then none else some found

unfoldable pub adjust_commit_index : Raft → Option Raft
unfolding majority_index complete_reconfiguration
adjust_commit_index r = do
  let old = r.commit_index % 2 ^ 32
  found ← majority_index r
  last ← last_entry_index r.log
  let r' = commit_alone old last (commit_to found r)
  some (finish_reconfiguration old r' r'.recfg)
