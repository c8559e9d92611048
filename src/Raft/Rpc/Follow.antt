-- ===== src/Raft/Rpc/Follow.antt =====
-- How a server answers `append_entries`, on every branch.
use draft.Base.{
  ℕ, ◌≤◌, ◌<◌, ◌≡◌, refl, ap, sym, subst, ◌∙◌, ◌⊎◌, inl, inr, Bool, true, false, not, Option, none,
  some, List, [], ◌∷◌, Str, min, ltb, if◌then◌else◌, arith, Bool-cases,
}
use draft.Log.{EntryLogger, last_entry_index, has_entry, config, ◌>>=◌}
use draft.Log.Room.{Os}
use draft.Split.{split}
use draft.Raft.Types.{Raft, AppendEntriesReq, emit, set_last_heartbeat}
use draft.Raft.Election.Roles.{step_down-vote, step_down_log}
use draft.Raft.Configure.{make_node, add_addresses, adjust_configuration}
use draft.Raft.Rpc.{
  Answer, append_entries, enter, adopt, follow, answer, commit_with, store_entries,
}

-- What holds of a result, if there is one.
abbrev pub Yields {ℓ ℓ'} : {A : Type ℓ} → (A → Type ℓ') → Option A → Type ℓ'
Yields P none = Unit
Yields P (some x) = P x

Yields-bind {ℓ ℓ' ℓ''} :
    {A : Type ℓ}
    → {B : Type ℓ'} → (P : B → Type ℓ'') (m : Option A) (f : A → Option B)
    → ((a : A) → m ≡ some a → Yields P (f a))
    → Yields P (m >>= f)
Yields-bind P none f h = tt
Yields-bind P (some a) f h = h a refl

Yields-if {ℓ ℓ'} :
    {A : Type ℓ}
    → (P : A → Type ℓ') (b : Bool) (m n : Option A) → (b ≡ true → Yields P m)
    → (b ≡ false → Yields P n)
    → Yields P (if b then m else n)
Yields-if P true m n hm hn = hm refl
Yields-if P false m n hm hn = hn refl

-- The term, the log and the commit index are those of `r`.
abbrev pub SameLog : Raft → Raft → Type 0
SameLog r r' = (r'.curr_term ≡ r.curr_term) × (r'.log ≡ r.log) × (r'.commit_index ≡ r.commit_index)

abbrev pub KeepsLog : Raft → Option Raft → Type 0
KeepsLog r = Yields (SameLog r)

pub add_addresses-log :
    (addresses : List Str) (r s : Raft) → SameLog s r → KeepsLog s (add_addresses addresses r)
unfolding add_addresses
add_addresses-log [] r s h = h
add_addresses-log (a ∷ rest) r s h =
    Yields-bind (SameLog s) (make_node r a _) _ λ n e. add_addresses-log rest _ s h

pub adjust_configuration-log :
    (config : Str) (r : Raft) → KeepsLog r (adjust_configuration config r)
unfolding adjust_configuration
adjust_configuration-log [] r = (refl, refl, refl)
adjust_configuration-log (c ∷ config) r =
    Yields-bind (SameLog r) (add_addresses (split b',' (c ∷ config)) r) _ λ r1 e.
      subst (KeepsLog r) e (add_addresses-log (split b',' (c ∷ config)) r r (refl, refl, refl))

pub enter_log :
    (req : AppendEntriesReq) (r : Raft)
    → ((enter req r).log ≡ r.log) × ((enter req r).commit_index ≡ r.commit_index)
unfolding adopt
enter_log req r = ground (arith, step_down_log req.term req.leader_id (record r { voted_for = [] }))

enter_term :
    (req : AppendEntriesReq) (r : Raft)
    → r.curr_term ≤ req.term
    → (enter req r).curr_term ≡ req.term
unfolding adopt
enter_term req r h =
    ground (arith, step_down-vote req.term req.leader_id (record r { voted_for = [] }))

-- The commit index behind a call: as it was, or moved to that of the leader or to the last entry.
abbrev pub Commits : AppendEntriesReq → Raft → Raft → Type 0
Commits req r r' =
    ((req.leader_commit ≤ r.commit_index) × (r'.commit_index ≡ r.commit_index))
    ⊎ ((r.commit_index < req.leader_commit)
        × ((last : ℕ) × (last_entry_index r'.log ≡ some last)
            × (r'.commit_index ≡ min req.leader_commit last)))

abbrev pub Accepted : Os → AppendEntriesReq → Raft → Raft → Type 0
Accepted os req r r' =
    (has_entry r.log req.prev_log_index req.prev_log_term ≡ true)
    × ((need : Bool) × (store_entries os req.entries r.log ≡ some (r'.log, need, true)))
    × Commits req r r'

-- What an answer to `append_entries` tells: the entries were stored; or the term is stale; or the entry
-- before the new ones is missing; or the files failed. The term is then that of the request, but for a stale one.
abbrev pub Told : Os → AppendEntriesReq → Raft → Answer → Type 0
Told os req r (r', res, failed) =
    (res.term ≡ r'.curr_term)
    × (last_entry_index r'.log ≡ some res.match_index)
    × (((req.term < r.curr_term) × (r' ≡ r) × (res.success ≡ false) × (failed ≡ false))
        ⊎ ((r.curr_term ≤ req.term)
            × (r'.curr_term ≡ req.term)
            × (((res.success ≡ true) × (failed ≡ false) × Accepted os req r r')
                ⊎ ((res.success ≡ false)
                    × (failed ≡ false)
                    × (r'.log ≡ r.log)
                    × (r'.commit_index ≡ r.commit_index)
                    × (has_entry r.log req.prev_log_index req.prev_log_term ≡ false))
                ⊎ ((res.success ≡ false)
                    × (failed ≡ true)
                    × (r'.commit_index ≡ r.commit_index)
                    × (has_entry r.log req.prev_log_index req.prev_log_term ≡ true)
                    × ((need : Bool) × (store_entries os req.entries r.log
                          ≡ some (r'.log, need, false)))))))

answer-Yields {ℓ} :
    (P : Answer → Type ℓ) (result failed : Bool) (r : Raft)
    → ((last : ℕ)
        → last_entry_index r.log ≡ some last
        → P (r, record { term = r.curr_term; success = result; match_index = last }, failed))
    → Yields P (answer result failed r)
answer-Yields P result failed r h = Yields-bind P (last_entry_index r.log) _ h

pub commit_with_log :
    (leader_commit last : ℕ) (r : Raft)
    → ((commit_with leader_commit last r).log ≡ r.log)
      × ((commit_with leader_commit last r).curr_term ≡ r.curr_term)
commit_with_log leader_commit last r = ground arith

commit_with-Commits :
    (req : AppendEntriesReq) (last : ℕ) (r s t : Raft)
    → s.commit_index ≡ r.commit_index
    → last_entry_index t.log ≡ some last
    → t.commit_index ≡ (commit_with req.leader_commit last s).commit_index
    → Commits req r t
commit_with-Commits req last r s t same hl ht =
    elim (Bool-cases (ltb s.commit_index req.leader_commit)) [
      | inl lt ↦ inr ((ground arith), (last, hl, (ground arith)))
      | inr ge ↦ inl ((ground arith), (ground arith))
    ]

pub reconfigured :
    (need : Bool) (r : Raft)
    → KeepsLog r (if need then adjust_configuration (config r.log) r else some r)
reconfigured need r =
    Yields-if (SameLog r) need _ _ (λ _. adjust_configuration-log (config r.log) r)
      (λ _. (refl, refl, refl))

follow-Told :
    (os : Os) (req : AppendEntriesReq) (need : Bool) (r s : Raft)
    → r.curr_term ≤ req.term
    → s.curr_term ≡ req.term
    → s.commit_index ≡ r.commit_index
    → has_entry r.log req.prev_log_index req.prev_log_term ≡ true
    → store_entries os req.entries r.log ≡ some (s.log, need, true)
    → Yields (Told os req r) (follow req need s)
follow-Told os req need r s le term commit has store =
    Yields-bind (Told os req r) (last_entry_index s.log) _ λ last hl.
      (let r1 = commit_with req.leader_commit last s in
        let r2 = emit set_last_heartbeat (record r1 { leader_id = req.leader_id }) in
        let c = commit_with_log req.leader_commit last s in
        Yields-bind (Told os req r)
          (if need then adjust_configuration (config r2.log) r2 else some r2) _
          λ t e.
            (let same = subst (KeepsLog r2) e (reconfigured need r2) in
              let log = same.1 ∙ c.0 in
              answer-Yields (Told os req r) true false t λ last' hl'. (
                refl,
                hl',
                inr (
                  le,
                  same.0 ∙ c.1 ∙ term,
                  inl (
                    refl,
                    refl,
                    (
                      has,
                      (need, store ∙ ap (λ l. some (l, need, true)) (sym log)),
                      commit_with-Commits req last r s t commit (ap last_entry_index log ∙ hl)
                          same.2,
                    ),
                  ),
                ),
              )))

not-true : (b : Bool) → not b ≡ true → b ≡ false
not-true b h = ground arith

not-false : (b : Bool) → not b ≡ false → b ≡ true
not-false b h = ground arith

missing :
    (req : AppendEntriesReq) (r : Raft)
    → not (has_entry (enter req r).log req.prev_log_index req.prev_log_term) ≡ true
    → has_entry r.log req.prev_log_index req.prev_log_term ≡ false
missing req r h =
    ap (λ l. has_entry l req.prev_log_index req.prev_log_term) (sym (enter_log req r).0)
    ∙ not-true _ h

pub present :
    (req : AppendEntriesReq) (r : Raft)
    → not (has_entry (enter req r).log req.prev_log_index req.prev_log_term) ≡ false
    → has_entry r.log req.prev_log_index req.prev_log_term ≡ true
present req r h =
    ap (λ l. has_entry l req.prev_log_index req.prev_log_term) (sym (enter_log req r).0)
    ∙ not-false _ h

stored-Yields :
    (os : Os) (req : AppendEntriesReq) (r r1 : Raft) (l : EntryLogger) (need good : Bool)
    → r.curr_term ≤ req.term
    → r1.curr_term ≡ req.term
    → r1.commit_index ≡ r.commit_index
    → has_entry r.log req.prev_log_index req.prev_log_term ≡ true
    → store_entries os req.entries r.log ≡ some (l, need, good)
    → Yields (Told os req r) (
        if good
        then follow req need (record r1 { log = l })
        else answer false true (record r1 { log = l }))
stored-Yields os req r r1 l need true le term commit has e =
    follow-Told os req need r _ le term commit has e
stored-Yields os req r r1 l need false le term commit has e =
    answer-Yields (Told os req r) false true (record r1 { log = l })
      λ last hl. (refl, hl, inr (le, term, inr (inr (refl, refl, commit, has, (need, e)))))

append_entries-Yields :
    (os : Os) (req : AppendEntriesReq) (r : Raft) → Yields (Told os req r) (append_entries os req r)
unfolding append_entries
append_entries-Yields os req r =
    let r1 = enter req r in
    let same = enter_log req r in
    Yields-if (Told os req r) (ltb req.term r.curr_term) _ _
      (λ lt.
        answer-Yields (Told os req r) false false r
          λ last hl. (refl, hl, inl ((ground arith), refl, refl, refl)))
      λ ge.
        (let le : r.curr_term ≤ req.term = ground arith in
          Yields-if (Told os req r) (not (has_entry r1.log req.prev_log_index req.prev_log_term)) _
            _
            (λ miss. answer-Yields (Told os req r) false false r1 λ last hl. (
              refl,
              hl,
              inr (
                le,
                enter_term req r le,
                inr (inl (refl, refl, same.0, same.1, missing req r miss)),
              ),
            ))
            λ hit. Yields-bind (Told os req r) (store_entries os req.entries r1.log) _ λ x e.
              stored-Yields os req r r1 x.0 x.1 x.2 le (enter_term req r le) same.1
                (present req r hit) (ap (store_entries os req.entries) (sym same.0) ∙ e))

-- Whatever a server answers to `append_entries`, the reply holds its term and the index of its last
-- entry; a request of an older term is refused and changes nothing; otherwise the server takes the term
-- of the request, and where its log has no entry of the index and the term that go before the new
-- entries it refuses and keeps its log and its commit index; where it has, the log is what
-- `store_entries` makes of it, and the commit index moves, if that of the leader is higher, to the lower
-- of that and the last entry of the new log; and where the files fail it refuses and keeps its commit
-- index.
pub append_entries-Told :
    (os : Os) (req : AppendEntriesReq) (r : Raft) (x : Answer)
    → append_entries os req r ≡ some x
    → Told os req r x
unfolding append_entries
append_entries-Told os req r x e = subst (Yields (Told os req r)) e (append_entries-Yields os req r)
