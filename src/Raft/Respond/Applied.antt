-- ===== src/Raft/Respond/Applied.antt =====
-- Each committed entry is handed over once, in order.
use draft.Base.{
  ℕ, zero, suc, ◌+◌, ◌-◌, ◌≤◌, ◌≡◌, refl, ap, ◌∙◌, some, List, [], ◌∷◌, length, take, drop,
  get_elem?, if◌then◌else◌, arith,
}
use native.Mathlib.Nat.{add-zero}
use draft.Log.{lookup}
use draft.Log.Entry.{LogEntry}
use draft.Log.View.{Rep, get_elem?-lt}
use draft.Log.Lookup.{lookup-list}
use draft.Raft.Types.{Raft}
use draft.Raft.Respond.{apply_next, apply_log_committed}

-- The entries that are no configurations.
abbrev pub for_service : List LogEntry → List LogEntry
for_service [] = []
for_service (e ∷ es) = if e.cfg then for_service es else e ∷ for_service es

drop-get_elem? :
    (k : ℕ) (es : List LogEntry) (e : LogEntry)
    → get_elem? es k ≡ some e
    → drop k es ≡ e ∷ drop (suc k) es
drop-get_elem? k [] e h = cc
drop-get_elem? zero (x ∷ es) e h = cc
drop-get_elem? (suc k) (x ∷ es) e h = drop-get_elem? k es e h

apply_next_lem :
    (n : ℕ) (r : Raft) (es : List LogEntry)
    → Rep r.log es
    → r.log.stat.last_index ≤ r.last_applied
    → r.last_applied + n ≤ r.log.stat.last_index + length es
    → apply_next n r
      ≡ some (
        record r { last_applied = r.last_applied + n },
        for_service (take n (drop (r.last_applied - r.log.stat.last_index) es)),
      )
unfolding apply_next
apply_next_lem zero r es rep low high = rw (add-zero) refl
apply_next_lem (suc n) r es rep low high =
    let base = r.log.stat.last_index in
    let k = r.last_applied - base in
    let (e, at) = get_elem?-lt es k (omega (arith, high)) in
    let place : r.last_applied + 1 - base - 1 ≡ k = omega arith in
    let found : lookup r.log (r.last_applied + 1) ≡ some e =
      lookup-list r.log es rep (r.last_applied + 1) (omega arith) ∙ ap (get_elem? es) place ∙ at in
    let next : Raft = record r { last_applied = r.last_applied + 1 } in
    let rest = apply_next_lem n next es rep (omega arith) (omega (arith, high)) in
    let behind : r.last_applied + 1 - base ≡ suc k = omega arith in
    let sum : r.last_applied + 1 + n ≡ r.last_applied + suc n = omega arith in
    rw found (rw rest (rw (behind, sum, drop-get_elem? k es e at) refl))

-- A server whose last applied index lies between the base of its well-formed log and its commit index,
-- and whose commit index lies in the log: the round ends with the commit index as the last applied one,
-- and hands over the entries behind the old one up to it that are no configurations, each once, in order.
pub apply_log_committed_lem :
    (r : Raft) (es : List LogEntry)
    → Rep r.log es
    → r.log.stat.last_index ≤ r.last_applied
    → r.last_applied ≤ r.commit_index
    → r.commit_index ≤ r.log.stat.last_index + length es
    → apply_log_committed r
      ≡ some (
        record r { last_applied = r.commit_index },
        for_service (
            take
              (r.commit_index - r.last_applied)
              (drop (r.last_applied - r.log.stat.last_index) es)),
      )
unfolding apply_log_committed
apply_log_committed_lem r es rep low mid high =
    let sum : r.last_applied + (r.commit_index - r.last_applied) ≡ r.commit_index = omega arith in
    apply_next_lem (r.commit_index - r.last_applied) r es rep low (omega arith)
    ∙ ap
        (λ n. some (
          record r { last_applied = n },
          for_service (
              take (r.commit_index - r.last_applied)
                (drop (r.last_applied - r.log.stat.last_index) es)),
        ))
        sum
