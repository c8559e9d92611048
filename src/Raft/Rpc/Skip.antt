-- ===== src/Raft/Rpc/Skip.antt =====
-- Where the first loop of `append_entries` stops on a well-formed log.
use draft.Base.{
  ℕ, zero, suc, ◌+◌, ◌-◌, ◌≤◌, ◌<◌, ◌≡◌, refl, ap, sym, subst, ◌∙◌, ◌⊎◌, inl, inr, Bool, true,
  false, not, ◌||◌, some, List, [], ◌∷◌, length, length-take, get_elem?, take, ◌==◌, if◌then◌else◌,
  arith, Bool-cases, ltb, leb,
}
use draft.Log.{EntryLogger, chop, lookup, has_entry, entry_conflicted, ◌>>=◌}
use draft.Log.Entry.{LogEntry}
use draft.Log.Room.{Os, is_good}
use draft.Log.View.{Rep, entry_at, get_elem?-lt, get_elem?-ge, Counts-get_elem?}
use draft.Log.Lookup.{lookup-entry_at}
use draft.Log.Rewind.{get_elem?-take}
use draft.Log.Chop.{chop-Chopped}
use draft.Raft.Types.{WireEntry}
use draft.Raft.Rpc.{Stop, failing, appending, skip_existing}

-- The indices of the entries of a request count up from `n`.
abbrev pub InOrder : ℕ → List WireEntry → Type 0
InOrder n [] = Unit
InOrder n (w ∷ ws) = (w.index ≡ n) × InOrder (suc n) ws

-- From its place `k` on, the list has entries of the same terms.
abbrev pub Held : ℕ → List WireEntry → List LogEntry → Type 0
Held k [] es = Unit
Held k (w ∷ ws) es =
    ((e : LogEntry) × (get_elem? es k ≡ some e) × (e.term ≡ w.term)) × Held (suc k) ws es

module _ (l : EntryLogger) (es : List LogEntry) (r : Rep l es) (w : WireEntry) (k : ℕ)
    (at : w.index ≡ l.stat.last_index + suc k) where
  place_at : lookup l w.index ≡ get_elem? es k
  unfolding entry_at
  place_at =
      let off_zero : (w.index == 0) ≡ false = ground arith in
      let above : leb w.index l.stat.last_index ≡ false = ground arith in
      let place : w.index - l.stat.last_index - 1 ≡ k = omega arith in
      lookup-entry_at l es r w.index ∙ rw (off_zero, above, place)

  conflicted_inside :
      (e : LogEntry)
      → get_elem? es k ≡ some e
      → entry_conflicted l w.index w.term ≡ not (e.term == w.term)
  unfolding entry_conflicted
  conflicted_inside e h = rw (place_at ∙ h, entry_conflicted)

  has_inside :
      (e : LogEntry) → get_elem? es k ≡ some e → has_entry l w.index w.term ≡ (e.term == w.term)
  unfolding has_entry
  has_inside e h =
      let i : e.index ≡ w.index =
        omega (arith, Counts-get_elem? (suc l.stat.last_index) k es e r.counts h) in
      rw (place_at ∙ h, has_entry) (ground arith)

  conflicted_behind : length es ≤ k → entry_conflicted l w.index w.term ≡ false
  unfolding entry_conflicted
  conflicted_behind h = rw (place_at ∙ get_elem?-ge es k h, entry_conflicted)

  pub has_behind : length es ≤ k → has_entry l w.index w.term ≡ false
  unfolding has_entry
  has_behind h = rw (place_at ∙ get_elem?-ge es k h, has_entry) (ground arith)

-- Where the first loop stops: the log is kept, or cut, before the place of the first entry that it lacks.
abbrev pub Skips : EntryLogger → List LogEntry → ℕ → List WireEntry → Stop → Type 0
Skips l es k ws (failing l1) = (n : ℕ) × (k ≤ n) × Rep l1 (take n es) × (l1.stat ≡ l.stat)
Skips l es k ws (appending l1 need rest) =
    (n : ℕ) × (es1 : List LogEntry) × (k ≤ n)
    × Rep l1 es1
    × (l1.stat ≡ l.stat)
    × (take n es1 ≡ take n es)
    × ((rest ≡ []) ⊎ (length es1 ≡ n))
    × InOrder (l.stat.last_index + suc n) rest
    × ((es' : List LogEntry) → take n es' ≡ take n es → Held n rest es' → Held k ws es')

Skips-next :
    (l : EntryLogger) (es : List LogEntry) (k : ℕ) (w : WireEntry) (ws : List WireEntry)
    (e : LogEntry) (s : Stop)
    → get_elem? es k ≡ some e
    → e.term ≡ w.term
    → Skips l es (suc k) ws s
    → Skips l es k (w ∷ ws) s
Skips-next l es k w ws e (failing l1) h t (n, le, rep, st) = (n, omega arith, rep, st)
Skips-next l es k w ws e (appending l1 need rest) h t (n, es1, le, rep, st, same, end, order, on) =
    (
      n,
      es1,
      omega arith,
      rep,
      st,
      same,
      end,
      order,
      λ es' same' held. (
        (
          e,
          sym (get_elem?-take n k es' (omega arith))
              ∙ ap (λ xs. get_elem? xs k) same'
              ∙ get_elem?-take n k es (omega arith)
              ∙ h,
          t,
        ),
        on es' same' held,
      ),
    )

pub take-all : (n : ℕ) (xs : List LogEntry) → length xs ≤ n → take n xs ≡ xs
take-all zero [] h = refl
take-all zero (x ∷ xs) h = absurd (omega arith)
take-all (suc n) [] h = refl
take-all (suc n) (x ∷ xs) h = ap (λ ys. x ∷ ys) (take-all n xs (omega arith))

cut_at :
    (os : Os) (l : EntryLogger) (es : List LogEntry) (need : Bool) (w : WireEntry)
    (ws : List WireEntry) (k : ℕ)
    → Rep l es
    → k < length es
    → InOrder (l.stat.last_index + suc k) (w ∷ ws)
    → (s : Stop) × ((do
      (l', rc) ← chop os w.index true l
      some (
          if is_good rc
          then appending l' (need || not (l'.cfg_entry_index == l.cfg_entry_index)) (w ∷ ws)
          else failing l'))
        ≡ some s)
      × Skips l es k (w ∷ ws) s
cut_at os l es need w ws k r lt order =
    let (l1, q, rep, st, _, _) =
      chop-Chopped os l es w.index true r (omega (arith, order.0)) (omega (arith, order.0)) in
    let place : w.index - l.stat.last_index - 1 ≡ k = omega (arith, order.0) in
    let rep' : Rep l1 (take k es) = subst (λ n. Rep l1 (take n es)) place rep in
    elim (Bool-cases (is_good (os.sync 8))) [
      | inl g ↦ (
        appending l1 (need || not (l1.cfg_entry_index == l.cfg_entry_index)) (w ∷ ws),
        rw q (rw g),
        (
          k,
          take k es,
          omega arith,
          rep',
          st,
          take-all k (take k es) (omega (arith, length-take k es)),
          inr (omega (arith, length-take k es)),
          order,
          λ es' same held. held,
        ),
      )
      | inr b ↦ (failing l1, rw q (rw b), (k, omega arith, rep', st))
    ]

-- The first loop on a well-formed log ends at a stop of that kind.
pub skip_existing-Skips :
    (os : Os) (l : EntryLogger) (es : List LogEntry) (need : Bool) (ws : List WireEntry) (k : ℕ)
    → Rep l es
    → k ≤ length es
    → InOrder (l.stat.last_index + suc k) ws
    → (s : Stop) × (skip_existing os l need ws ≡ some s) × Skips l es k ws s
unfolding skip_existing
skip_existing-Skips os l es need [] k r le order = (
  appending l need [],
  refl,
  (k, es, omega arith, r, refl, refl, inl refl, tt, λ es' same held. held),
)
skip_existing-Skips os l es need (w ∷ ws) k r le order =
    let need' = need || w.config in
    elim (Bool-cases (ltb k (length es))) [
      | inl lt ↦
          let (e, h) = get_elem?-lt es k (ground arith) in
          let clash = conflicted_inside l es r w k order.0 e h in
          let held = has_inside l es r w k order.0 e h in
          elim (Bool-cases (e.term == w.term)) [
            | inl t ↦
                let (s, q, skips) =
                  skip_existing-Skips os l es need' ws (suc k) r (ground arith)
                    (subst (λ n. InOrder n ws) (omega arith) order.1) in
                (s, rw clash (rw held (rw t q)), Skips-next l es k w ws e s h (ground arith) skips)
            | inr d ↦ rw clash (rw d (cut_at os l es need' w ws k r (ground arith) order))
          ]
      | inr ge ↦ (
        appending l need' (w ∷ ws),
        rw (conflicted_behind l es r w k order.0 (ground arith))
            (rw (has_behind l es r w k order.0 (ground arith))),
        (k, es, omega arith, r, refl, refl, inr (ground arith), order, λ es' same held. held),
      )
    ]
