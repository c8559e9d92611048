-- ===== src/Raft/Safety/AppendOnly.antt =====
-- A leader changes nothing that its log holds.
use draft.Base.{
  ℕ, suc, ◌+◌, ◌^◌, ◌≤◌, ◌<◌, ◌≡◌, refl, sym, ap, ◌∙◌, subst, ◌⊎◌, inl, inr, Bool, true, false,
  some, List, [], ◌∷◌, ◌++◌, append-nil, append_assoc, Str, length, arith,
}
use mathlib.Core.Option.{some-injective}
use draft.Log.{EntryLogger, append as log_append}
use draft.Log.Entry.{LogEntry, States, make_entry as log_make_entry}
use draft.Log.Room.{Os, RcErrno}
use draft.Log.View.{Rep}
use draft.Log.Chains.{IsBatch, PointsBack}
use draft.Log.Lookup.{last_entry_index_lem}
use draft.Log.Append.{Appends, append-Appends}
use draft.Raft.Rpc.Skip.{InOrder}
use draft.Raft.Rpc.Store.{make_entries-IsBatch, make_entries-PointsBack}
use draft.Raft.Rpc.{make_entries}
use draft.Raft.Types.{WireEntry, Raft, leader, follower}
use draft.Raft.Growth.{Written, appended, in_turn, Grows, Grows-trans}
use draft.Raft.Rpc.Changes.{Moves}
use draft.Raft.Rpc.Steps.{Step, Step-Moves, is_compaction, counts_vote, compacts_log}
use draft.Raft.Rpc.Once.{Run, stay, go_on}

-- The server does not lead in the term, and will not again.
Lapsed : ℕ → Raft → Type 0
Lapsed term r = (term < r.curr_term) ⊎ ((r.curr_term ≡ term) × (r.role ≡ follower))

Moves-Lapsed : (term : ℕ) (r r' : Raft) → Moves r r' → Lapsed term r → Lapsed term r'
unfolding Lapsed
Moves-Lapsed term r r' m h = ground arith

Step-Lapsed : (os : Os) (term : ℕ) (r r' : Raft) → Step os r r' → Lapsed term r → Lapsed term r'
unfolding Lapsed
Step-Lapsed os term r r' x h = elim (Step-Moves os r r' x) [
  | inl m ↦ Moves-Lapsed term r r' m h
  | inr (counts_vote v c _) ↦ ground arith
  | inr (compacts_log c _) ↦ ground arith
]

Run-Lapsed : (os : Os) (term : ℕ) (r t : Raft) → Run os r t → Lapsed term r → Lapsed term t
Run-Lapsed os term r _ stay h = h
Run-Lapsed os term r t (go_on {s = s} x run) h =
    Run-Lapsed os term s t run (Step-Lapsed os term r s x h)

-- The server still leads in its term, and its log only grew.
Leads : Raft → Raft → Type 0
Leads r r' = (r'.role ≡ leader) × (r'.curr_term ≡ r.curr_term) × Grows r.log r'.log

Moves-Leads : (r r' : Raft) → r.role ≡ leader → Moves r r' → Leads r r' ⊎ Lapsed r.curr_term r'
unfolding Leads Lapsed
Moves-Leads r r' l m = ground arith

Step-Leads :
    (os : Os) (r r' : Raft) (x : Step os r r')
    → is_compaction x ≡ false
    → r.role ≡ leader
    → Leads r r' ⊎ Lapsed r.curr_term r'
Step-Leads os r r' x g l = elim (Step-Moves os r r' x) [
  | inl m ↦ Moves-Leads r r' l m
  | inr (counts_vote v c _) ↦ absurd (cc (c.0))
  | inr (compacts_log c e) ↦ absurd (cc)
]

-- No step of the run compacts the log.
abbrev pub IsUncompacted : {os : Os} → {r t : Raft} → Run os r t → Type 0
IsUncompacted stay = Unit
IsUncompacted (go_on x run) = (is_compaction x ≡ false) × IsUncompacted run

Run-Leads :
    (os : Os) (r t : Raft) (run : Run os r t)
    → IsUncompacted run
    → r.role ≡ leader
    → Leads r t ⊎ Lapsed r.curr_term t
unfolding Leads
Run-Leads os r _ stay g l = inl (l, refl, inl refl)
Run-Leads os r t (go_on {s = s} x run) g l = elim (Step-Leads os r s x g.0 l) [
  | inr lapsed ↦ inr (Run-Lapsed os r.curr_term s t run lapsed)
  | inl (l', e, w) ↦ elim (Run-Leads os s t run g.1 l') [
    | inr lapsed ↦ inr (subst (λ k. Lapsed k t) e lapsed)
    | inl (l'', e', w') ↦ inl (l'', e' ∙ e, Grows-trans r.log s.log t.log w w')
  ]
]

-- The log is well-formed and holds the old entries, others behind them, and the states that it had.
abbrev pub Holds : EntryLogger → List LogEntry → EntryLogger → List LogEntry → Type 0
Holds l es l' added = Rep l' (es ++ added) × (l'.stat ≡ l.stat)

-- The log `l` has grown to `m`, which holds the old entries and whose last entry has the index 2^64 - 1 or
-- more, and `m` was written to.
abbrev pub Full : EntryLogger → List LogEntry → EntryLogger → Type 0
Full l es l' =
    (m : EntryLogger) × (added : List LogEntry) × Grows l m
    × Holds l es m added
    × (2 ^ 64 ≤ suc (l.stat.last_index + length (es ++ added)))
    × Written m l'

-- The log holds the old entries and others behind them, or it was full on the way.
abbrev pub Extends : EntryLogger → List LogEntry → EntryLogger → Type 0
Extends l es l' = ((added : List LogEntry) × Holds l es l' added) ⊎ Full l es l'

Extends-refl : (l : EntryLogger) (es : List LogEntry) → Rep l es → Extends l es l
Extends-refl l es rep = inl ([], (subst (Rep l) (sym (append-nil es)) rep, refl))

appended-Extends :
    (os : Os) (l l' : EntryLogger) (es entries : List LogEntry) (rc : RcErrno)
    → Rep l es
    → Appends os l es entries (log_append os entries true l)
    → log_append os entries true l ≡ some (l', rc)
    → Extends l es l'
appended-Extends os l l' es entries rc rep (m, _, e, same, out) p =
    let is_m : m ≡ l' = ap (λ (x : EntryLogger × RcErrno). x.0) (some-injective _ _ (sym e ∙ p)) in
    subst (Extends l es) is_m (elim out [
      | inl (r, _) ↦ inl (entries, (r, same))
      | inr (_, _, _, r, _) ↦ inl ([], (subst (Rep m) (sym (append-nil es)) r, same))
    ])

-- The entry that `append` makes, where its index is the next and below 2^64.
module _ (l : EntryLogger) (es : List LogEntry) (text : Str) (term : ℕ) (cfg : Bool)
    (rep : Rep l es) (small : suc (l.stat.last_index + length es) < 2 ^ 64) where
  as_wire : WireEntry
  as_wire = record {
    term = term;
    index = l.stat.last_index + length es + 1;
    text = text;
    config = cfg;
  }

  made : List LogEntry
  made = log_make_entry l.cfg_entry_index text (l.stat.last_index + length es + 1) term cfg ∷ []

  wire-InOrder : InOrder (suc l.stat.last_index + length es) (as_wire ∷ [])
  unfolding as_wire
  wire-InOrder = (omega arith, tt)

  made-IsBatch : IsBatch (suc l.stat.last_index + length es) made
  unfolding made make_entries as_wire
  made-IsBatch = make_entries-IsBatch l.cfg_entry_index _ (as_wire ∷ []) wire-InOrder

  made-PointsBack : PointsBack l.stat.last_index es made
  unfolding made make_entries as_wire
  made-PointsBack =
      make_entries-PointsBack l.stat.last_index es l.cfg_entry_index
        (suc l.stat.last_index + length es) (as_wire ∷ []) (omega (arith, rep.cfg_le))
        (omega (arith, rep.cfg_le)) wire-InOrder rep.chain

  made-Extends :
      (os : Os) (l' : EntryLogger) (rc : RcErrno)
      → log_append os
          (log_make_entry l.cfg_entry_index text (l.stat.last_index + length es + 1) term cfg ∷ [])
          true
          l
        ≡ some (l', rc)
      → Extends l es l'
  unfolding made
  made-Extends os l' rc p =
      appended-Extends os l l' es made rc rep
        (append-Appends os l es made true rep made-IsBatch made-PointsBack) p

small_or_not : (n : ℕ) → (suc n < 2 ^ 64) ⊎ (2 ^ 64 ≤ suc n)
small_or_not n = ground arith

one_appended :
    (os : Os) (l l' : EntryLogger) (es : List LogEntry) (text : Str) (term : ℕ) (cfg : Bool)
    (rc : RcErrno)
    → Rep l es
    → Written l l'
    → log_append os
        (log_make_entry l.cfg_entry_index text (l.stat.last_index + length es + 1) term cfg ∷ [])
        true
        l
      ≡ some (l', rc)
    → Extends l es l'
one_appended os l l' es text term cfg rc rep w p =
    elim (small_or_not (l.stat.last_index + length es)) [
      | inl small ↦ made-Extends l es text term cfg rep small os l' rc p
      | inr big ↦ inr (
        l,
        [],
        inl refl,
        (subst (Rep l) (sym (append-nil es)) rep, refl),
        subst (λ (k : List LogEntry). 2 ^ 64 ≤ suc (l.stat.last_index + length k))
            (sym (append-nil es)) big,
        w,
      )
    ]

Extends-trans :
    (l m n : EntryLogger) (es : List LogEntry)
    → Written l m
    → Written m n
    → Extends l es m
    → ((added : List LogEntry) → Rep m (es ++ added) → Extends m (es ++ added) n)
    → Extends l es n
Extends-trans l m n es v w (inr (k, xs, grows, held, big, to_m)) rest =
    inr (k, xs, grows, held, big, in_turn to_m w)
Extends-trans l m n es v w (inl (xs, (r, same))) rest = elim (rest xs r) [
  | inl (ys, (r', same')) ↦ inl (xs ++ ys, (subst (Rep n) (append_assoc es xs ys) r', same' ∙ same))
  | inr (k, ys, grows, (r', same'), big, to_n) ↦ inr (
    k,
    xs ++ ys,
    Grows-trans l m k (inr v) grows,
    (subst (Rep k) (append_assoc es xs ys) r', same' ∙ same),
    (let base = ap (λ (s : States). s.last_index) same in
        let len = ap (length {A = LogEntry}) (append_assoc es xs ys) in omega arith),
    to_n,
  )
]

Written-Extends :
    (l l' : EntryLogger) (es : List LogEntry) → Written l l' → Rep l es → Extends l es l'
Written-Extends l l' es (appended os text last term cfg rc e p) rep =
    let is_last : last ≡ l.stat.last_index + length es =
      some-injective _ _ (sym e ∙ last_entry_index_lem l es rep) in
    one_appended os l l' es text term cfg rc rep (appended os text last term cfg rc e p) (
      subst
        (λ k.
          log_append os (log_make_entry l.cfg_entry_index text (k + 1) term cfg ∷ []) true l
          ≡ some (l', rc))
        is_last p)
Written-Extends l l' es (in_turn {m = m} v w) rep =
    Extends-trans l m l' es v w (Written-Extends l m es v rep)
      λ added r. Written-Extends m l' (es ++ added) w r

-- A server that leads at both ends of a run, in one term and with no compaction of the log between, only
-- appends: the log at the end is well-formed and holds the entries of the well-formed log at the start,
-- unchanged and in their places, and others behind them, with the states that it had; or appends alone
-- have grown it to a well-formed log that holds these entries and others up to the index 2^64 - 1, and
-- it was written to after that.
pub leader_append_only :
    (os : Os) (r t : Raft) (run : Run os r t) (es : List LogEntry)
    → IsUncompacted run
    → r.role ≡ leader
    → t.role ≡ leader
    → t.curr_term ≡ r.curr_term
    → Rep r.log es
    → Extends r.log es t.log
unfolding Lapsed Leads
leader_append_only os r t run es g l l' same rep = elim (Run-Leads os r t run g l) [
  | inr lapsed ↦ absurd (ground arith)
  | inl leads ↦ elim leads.2 [
    | inl e ↦ subst (Extends r.log es) (sym e) (Extends-refl r.log es rep)
    | inr w ↦ Written-Extends r.log t.log es w rep
  ]
]
