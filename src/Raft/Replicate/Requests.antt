-- ===== src/Raft/Replicate/Requests.antt =====
-- The requests that a leader with a well-formed log fills.
use draft.Base.{
  ℕ, List, false, zero, suc, ◌+◌, ◌-◌, ◌≤◌, ◌<◌, ◌≡◌, refl, ap, sym, subst, ◌∙◌, inl, inr, Option,
  none, some, [], ◌∷◌, length, drop, get_elem?, ◌==◌, leb, arith, Bool-cases,
}
use draft.Log.{lookup}
use mathlib.Core.Option.{some-injective}
use draft.Log.Entry.{LogEntry, str}
use draft.Log.View.{Rep, entry_at, get_elem?-lt, Counts-get_elem?}
use draft.Log.Lookup.{lookup-entry_at, lookup-list, last_entry_index_lem}
use draft.Raft.Types.{Raft, Node, AppendEntriesReq, WireEntry}
use draft.Raft.Replicate.{entries_from, append_entries_req, index_of, term_of, wire, before}
use draft.Raft.Rpc.Skip.{InOrder}

-- The entries as the request carries them.
abbrev pub wires : List LogEntry → List WireEntry
wires [] = []
wires (e ∷ es) = record { term = e.term; index = e.index; text = str e; config = e.cfg } ∷ wires es

before_lem : (i : ℕ) → 0 < i → before i ≡ i - 1
before_lem zero h = absurd (omega arith)
before_lem (suc i) h = omega arith

drop-length : (k : ℕ) (es : List LogEntry) → k ≡ length es → drop k es ≡ []
drop-length zero [] h = refl
drop-length zero (e ∷ es) h = absurd (omega arith)
drop-length (suc k) [] h = absurd (omega arith)
drop-length (suc k) (e ∷ es) h = drop-length k es (omega arith)

drop-get_elem? :
    (k : ℕ) (es : List LogEntry) (e : LogEntry)
    → get_elem? es k ≡ some e
    → drop k es ≡ e ∷ drop (suc k) es
drop-get_elem? k [] e h = absurd (cc)
drop-get_elem? zero (x ∷ es) e h = ap (λ y. y ∷ es) (some-injective _ _ h)
drop-get_elem? (suc k) (x ∷ es) e h = drop-get_elem? k es e h

module _ (r : Raft) (es : List LogEntry) (rep : Rep r.log es) where
  found-index :
      (i : ℕ) (e : LogEntry) → r.log.stat.last_index < i → lookup r.log i ≡ some e → e.index ≡ i
  unfolding entry_at
  found-index i e above h =
      let off_zero : (i == 0) ≡ false = ground arith in
      let over : leb i r.log.stat.last_index ≡ false = ground arith in
      let at : get_elem? es (i - r.log.stat.last_index - 1) ≡ some e =
        sym (rw (off_zero, over)) ∙ sym (lookup-entry_at r.log es rep i) ∙ h in
      omega (
        arith,
        Counts-get_elem? (suc r.log.stat.last_index) (i - r.log.stat.last_index - 1) es e rep.counts
            at,
      )

  entries_from-InOrder :
      (left i : ℕ) → r.log.stat.last_index < i → InOrder i (entries_from r left i)
  unfolding entries_from
  entries_from-InOrder zero i above = tt
  entries_from-InOrder (suc left) i above = by_entry (lookup r.log i) refl (
      subst (λ n. InOrder n (entries_from r left (i + 1))) (omega arith)
        (entries_from-InOrder left (i + 1) (omega arith)))
    where
      by_entry :
          (o : Option LogEntry)
          → lookup r.log i ≡ o
          → InOrder (suc i) (entries_from r left (i + 1))
          → InOrder i (elim o [ none ↦ [] | some e ↦ wire e ∷ entries_from r left (i + 1) ])
      by_entry none e rest = tt
      by_entry (some e) q rest = (found-index i e above q, rest)

  -- The entries behind the first `k` of the list, when their number is known.
  entries_from-drop :
      (left k : ℕ)
      → k + left ≡ length es
      → entries_from r left (r.log.stat.last_index + 1 + k) ≡ wires (drop k es)
  unfolding entries_from
  entries_from-drop zero k all = ap wires (sym (drop-length k es (omega arith)))
  entries_from-drop (suc left) k all =
      let i : ℕ = r.log.stat.last_index + 1 + k in
      let (e, at) = get_elem?-lt es k (omega arith) in
      let place : i - r.log.stat.last_index - 1 ≡ k = omega arith in
      let found : lookup r.log i ≡ some e =
        lookup-list r.log es rep i (omega arith) ∙ ap (get_elem? es) place ∙ at in
      let after : i + 1 ≡ r.log.stat.last_index + 1 + suc k = omega arith in
      ap
        (λ (o : Option LogEntry). elim o [
          | none ↦ []
          | some x ↦ wire x ∷ entries_from r left (i + 1)
        ])
        found
      ∙ ap (λ j. wire e ∷ entries_from r left j) after
      ∙ ap (λ ws. wire e ∷ ws) (entries_from-drop left (suc k) (omega arith))
      ∙ ap wires (sym (drop-get_elem? k es e at))

  previous :
      (i : ℕ)
      → r.log.stat.last_index ≤ i
      → i ≤ r.log.stat.last_index + length es
      → index_of (lookup r.log i) r.log.stat.last_index ≡ i
  unfolding entry_at
  previous i above upto =
      ap (λ o. index_of o r.log.stat.last_index) (lookup-entry_at r.log es rep i) ∙ by_place
    where
      by_place : index_of (entry_at r.log.stat.last_index es i) r.log.stat.last_index ≡ i
      by_place = elim (Bool-cases (i == 0)) [
        | inl z ↦ rw z (ground arith)
        | inr z ↦ elim (Bool-cases (leb i r.log.stat.last_index)) [
          | inl le ↦ rw (z, le) (ground arith)
          | inr gt ↦
              let (e, h) = get_elem?-lt es (i - r.log.stat.last_index - 1) (ground arith) in
              let c =
                Counts-get_elem? (suc r.log.stat.last_index) (i - r.log.stat.last_index - 1) es e
                  rep.counts h in
              rw (z, gt, h) (ground (arith, c))
        ]
      ]

  all_from :
      (i : ℕ)
      → r.log.stat.last_index < i
      → i ≤ r.log.stat.last_index + length es + 1
      → entries_from r (r.log.stat.last_index + length es + 1 - i) i
        ≡ wires (drop (i - r.log.stat.last_index - 1) es)
  all_from i above upto =
      let at : r.log.stat.last_index + 1 + (i - r.log.stat.last_index - 1) ≡ i = omega arith in
      ap (entries_from r (r.log.stat.last_index + length es + 1 - i)) (sym at)
      ∙ entries_from-drop _ (i - r.log.stat.last_index - 1) (omega arith)

  -- A leader with a well-formed log fills a request for a member whose next index is above the base of the
  -- log and at most one past its last entry. The request has the term, the id and the commit index of the
  -- leader; its previous index is the one before the next index, and its previous term is the term of the
  -- entry there, or the one in the states of the log where no entry is left there; and it carries all
  -- entries of the log from the next index on, in order, whose indices count on from the previous index.
  pub append_entries_req-InOrder :
      (n : Node)
      → r.log.stat.last_index < n.next_index
      → n.next_index ≤ r.log.stat.last_index + length es + 1
      → (req : AppendEntriesReq) × (append_entries_req r n ≡ some req)
        × (req.prev_log_index + 1 ≡ n.next_index)
        × (req.prev_log_term
            ≡ term_of (entry_at r.log.stat.last_index es (n.next_index - 1)) r.log.stat.last_term)
        × (req.entries ≡ wires (drop (n.next_index - r.log.stat.last_index - 1) es))
        × (req.term ≡ r.curr_term)
        × (req.leader_id ≡ r.self_id)
        × (req.leader_commit ≡ r.commit_index)
        × InOrder (suc req.prev_log_index) req.entries
  unfolding append_entries_req
  append_entries_req-InOrder n above upto =
      let back : before n.next_index ≡ n.next_index - 1 =
        before_lem n.next_index (omega (arith, above)) in
      let p = previous (n.next_index - 1) (omega arith) (omega arith) in
      let next : n.next_index
          ≡ suc (index_of (lookup r.log (n.next_index - 1)) r.log.stat.last_index) =
        omega (arith, p) in
      (
        record {
          term = r.curr_term;
          leader_id = r.self_id;
          prev_log_index = index_of (lookup r.log (n.next_index - 1)) r.log.stat.last_index;
          prev_log_term = term_of (lookup r.log (n.next_index - 1)) r.log.stat.last_term;
          entries =
              entries_from r (r.log.stat.last_index + length es + 1 - n.next_index) n.next_index;
          leader_commit = r.commit_index;
        },
        rw back (rw (last_entry_index_lem r.log es rep) refl),
        omega (arith, p),
        ap (λ o. term_of o r.log.stat.last_term) (lookup-entry_at r.log es rep (n.next_index - 1)),
        all_from n.next_index above upto,
        refl,
        refl,
        refl,
        subst
            (λ m.
              InOrder m (
                entries_from r (r.log.stat.last_index + length es + 1 - n.next_index) n.next_index))
            next (entries_from-InOrder _ n.next_index above),
      )
