-- ===== src/Raft/Rpc/Total.antt =====
-- `append_entries` on a well-formed log.
use draft.Base.{
  ℕ, suc, ◌+◌, ◌-◌, ◌^◌, ◌≤◌, ◌<◌, ◌≡◌, refl, ap, sym, subst, ◌∙◌, inl, inr, Bool, true, false, not,
  Option, some, List, [], ◌∷◌, Str, length, take, leb, ltb, if◌then◌else◌, arith, Bool-cases,
}
use mathlib.Core.Option.{some-injective}
use draft.Split.{split}
use draft.Log.{EntryLogger, last_entry_index, has_entry, config, ◌>>=◌}
use draft.Log.Entry.{LogEntry}
use draft.Log.Room.{Os}
use draft.Log.View.{Rep}
use draft.Log.Lookup.{last_entry_index_lem}
use draft.Raft.Types.{Raft, AppendEntriesReq, emit, set_last_heartbeat}
use draft.Raft.Configure.{make_node, add_addresses, adjust_configuration, retain}
use draft.Raft.Rpc.{Answer, append_entries, enter, follow, answer, commit_with, store_entries}
use draft.Raft.Rpc.Follow.{
  Told, append_entries-Told, enter_log, present, reconfigured, KeepsLog, commit_with_log,
}
use draft.Raft.Rpc.Skip.{InOrder, Held, has_behind}
use draft.Raft.Rpc.Store.{Stored, store_entries-Stored}

-- A result is there.
abbrev Returns {ℓ} : {A : Type ℓ} → Option A → Type ℓ
Returns {A = A} o = (a : A) × (o ≡ some a)

Returns-bind {ℓ ℓ'} :
    {A : Type ℓ}
    → {B : Type ℓ'} → (m : Option A) (f : A → Option B) → Returns m
    → ((a : A) → m ≡ some a → Returns (f a))
    → Returns (m >>= f)
Returns-bind m f (a, e) h = let (b, q) = h a e in (b, rw e q)

Returns-if {ℓ} :
    {A : Type ℓ}
    → (b : Bool) (m n : Option A) → (b ≡ true → Returns m)
    → (b ≡ false → Returns n)
    → Returns (if b then m else n)
Returns-if true m n hm hn = hm refl
Returns-if false m n hm hn = hn refl

answer-Returns :
    (result failed : Bool) (r : Raft)
    → Returns (last_entry_index r.log)
    → Returns (answer result failed r)
answer-Returns result failed r h = Returns-bind (last_entry_index r.log) _ h λ last e.
    ((r, record { term = r.curr_term; success = result; match_index = last }, failed), refl)

add_addresses-Returns :
    (addresses : List Str) (r : Raft)
    → Returns (last_entry_index r.log)
    → Returns (add_addresses addresses r)
unfolding add_addresses make_node
add_addresses-Returns [] r h = (r, refl)
add_addresses-Returns (a ∷ rest) r h = rw h.1 (add_addresses-Returns rest _ h)

adjust_configuration-Returns :
    (text : Str) (r : Raft)
    → Returns (last_entry_index r.log)
    → Returns (adjust_configuration text r)
unfolding adjust_configuration
adjust_configuration-Returns [] r h = (r, refl)
adjust_configuration-Returns (c ∷ text) r h =
    Returns-bind (add_addresses (split b',' (c ∷ text)) r) _
      (add_addresses-Returns (split b',' (c ∷ text)) r h)
      λ r1 e. (record r1 { cluster = retain (split b',' (c ∷ text)) r1.cluster }, refl)

follow-Returns :
    (req : AppendEntriesReq) (need : Bool) (r : Raft)
    → Returns (last_entry_index r.log)
    → Returns (follow req need r)
follow-Returns req need r h = Returns-bind (last_entry_index r.log) _ h λ last e.
    (let r1 = commit_with req.leader_commit last r in
      let r2 = emit set_last_heartbeat (record r1 { leader_id = req.leader_id }) in
      let log = (commit_with_log req.leader_commit last r).0 in
      let h2 = subst (λ l. Returns (last_entry_index l)) (sym log) h in
      Returns-bind (if need then adjust_configuration (config r2.log) r2 else some r2) _
        (Returns-if need _ _ (λ _. adjust_configuration-Returns (config r2.log) r2 h2)
          (λ _. (r2, refl)))
        λ r3 e3.
          (let same = subst (KeepsLog r2) e3 (reconfigured need r2) in
            answer-Returns true false r3
              (subst (λ l. Returns (last_entry_index l)) (sym same.1) h2)))

-- The previous entry of a request, at or above the base, is in the list, if the log has it.
prev_inside :
    (l : EntryLogger) (es : List LogEntry) (index term : ℕ)
    → Rep l es
    → has_entry l index term ≡ true
    → l.stat.last_index ≤ index
    → index ≤ l.stat.last_index + length es
prev_inside l es index term r has above =
    elim (Bool-cases (leb index (l.stat.last_index + length es))) [
      | inl le ↦ ground arith
      | inr gt ↦ absurd (
          let no' =
            has_behind l es r (record { term = term; index = index; text = []; config = false })
              (index - l.stat.last_index - 1) (ground arith) (ground arith) in
          cc)
    ]

-- The request goes on where the log has its previous entry.
abbrev pub GoesOn : AppendEntriesReq → EntryLogger → Type 0
GoesOn req l =
    (l.stat.last_index ≤ req.prev_log_index) × InOrder (suc req.prev_log_index) req.entries

module _ (os : Os) (req : AppendEntriesReq) (r : Raft) (es : List LogEntry) (rep : Rep r.log es)
    (bound : r.log.stat.last_index + length es < 2 ^ 64) (on : GoesOn req r.log) where
  stored :
      has_entry r.log req.prev_log_index req.prev_log_term ≡ true
      → Stored r.log es
          (req.prev_log_index - r.log.stat.last_index)
          req.entries
          (store_entries os req.entries r.log)
  stored has =
      let le = prev_inside r.log es req.prev_log_index req.prev_log_term rep has on.0 in
      store_entries-Stored os r.log es (req.prev_log_index - r.log.stat.last_index) req.entries rep
        (omega arith) bound (subst (λ n. InOrder n req.entries) (omega (arith, on.0)) on.1)

  append_entries-Returns : Returns (append_entries os req r)
  unfolding append_entries
  append_entries-Returns =
      let r1 = enter req r in
      let log : r1.log ≡ r.log = (enter_log req r).0 in
      let last : Returns (last_entry_index r.log) = (_, last_entry_index_lem r.log es rep) in
      Returns-if (ltb req.term r.curr_term) _ _ (λ _. answer-Returns false false r last)
        λ _.
          Returns-if (not (has_entry r1.log req.prev_log_index req.prev_log_term)) _ _
            (λ _.
              answer-Returns false false r1
                (subst (λ l. Returns (last_entry_index l)) (sym log) last))
            λ hit.
              (let (l2, need, good, es2, q, st, rep2, _, _) = stored (present req r hit) in
                Returns-bind (store_entries os req.entries r1.log) _
                  ((l2, need, good), ap (store_entries os req.entries) log ∙ q)
                  λ x e.
                    (let same =
                        some-injective _ _ (sym (ap (store_entries os req.entries) log ∙ q) ∙ e) in
                      let last2 : Returns (last_entry_index x.0) =
                        subst (λ y. Returns (last_entry_index y.0)) same
                          (_, last_entry_index_lem l2 es2 rep2) in
                      Returns-if x.2 _ _ (λ _. follow-Returns req x.1 _ last2)
                        (λ _. answer-Returns false true _ last2)))

  -- The log `l` behind the call: well-formed, the same up to the previous entry, and on success with
  -- the entries of the request behind it.
  abbrev pub Follows : EntryLogger → Bool → Type 0
  Follows l success =
      (es' : List LogEntry) × Rep l es'
      × (l.stat ≡ r.log.stat)
      × (take (req.prev_log_index - r.log.stat.last_index) es'
          ≡ take (req.prev_log_index - r.log.stat.last_index) es)
      × (success ≡ true → Held (req.prev_log_index - r.log.stat.last_index) req.entries es')

  kept-Follows :
      (l : EntryLogger) (success : Bool) → l ≡ r.log → success ≡ false → Follows l success
  kept-Follows l success same no' =
      subst (λ m. Follows m success) (sym same) (es, rep, refl, refl, λ yes'. absurd (cc))

  stored-Follows :
      (l : EntryLogger) (need good : Bool)
      → has_entry r.log req.prev_log_index req.prev_log_term ≡ true
      → store_entries os req.entries r.log ≡ some (l, need, good)
      → Follows l good
  stored-Follows l need good has e =
      let (l2, need2, good2, es2, q, st, rep2, same, held) = stored has in
      let p = some-injective _ _ (sym q ∙ e) in
      subst (λ (y : EntryLogger × Bool × Bool). Follows y.0 y.2) p (es2, rep2, st, same, held)

  Told-Follows : (x : Answer) → Told os req r x → Follows x.0.log x.1.success
  Told-Follows x (_, _, inl (_, same, no', _)) =
      kept-Follows _ _ (ap (λ (y : Raft). y.log) same) no'
  Told-Follows x (_, _, inr (_, _, inl (yes', _, (has, (need, e), _)))) =
      subst (Follows x.0.log) (sym yes') (stored-Follows x.0.log need true has e)
  Told-Follows x (_, _, inr (_, _, inr (inl (no', _, same, _, _)))) = kept-Follows _ _ same no'
  Told-Follows x (_, _, inr (_, _, inr (inr (no', _, _, has, (need, e))))) =
      subst (Follows x.0.log) (sym no') (stored-Follows x.0.log need false has e)

  -- On a well-formed log, of indices below 2^64, and for a request whose previous index is not below the
  -- base of the log and whose entries' indices count on from it, the call returns, with an answer that
  -- `Told` describes, and leaves a well-formed log with the same entries up to the previous one; on
  -- success it has behind that, for each entry of the request, one of the same term at its index.
  pub append_entries_lem :
      (x : Answer) × (append_entries os req r ≡ some x)
      × Told os req r x
      × Follows x.0.log x.1.success
  append_entries_lem =
      let (x, e) = append_entries-Returns in
      let told = append_entries-Told os req r x e in (x, e, told, Told-Follows x told)
