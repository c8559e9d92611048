-- ===== src/Raft/Rpc/Store.antt =====
-- What the loops of `append_entries` leave of the log of a follower.
use draft.Base.{
  ℕ, zero, suc, ◌+◌, ◌^◌, ◌≤◌, ◌<◌, ◌≡◌, refl, ap, sym, subst, ◌∙◌, inl, inr, Bool, true, false,
  Option, some, List, [], ◌∷◌, ◌++◌, append_assoc, length, length-take, length-append, get_elem?,
  take, arith,
}
use draft.Log.{EntryLogger, append, ◌>>=◌}
use draft.Log.Entry.{LogEntry, States, make_entry, prev_cfg}
use draft.Log.Room.{Os, is_good}
use draft.Log.View.{Rep, Chain}
use draft.Log.Chains.{IsBatch, PointsBack, get_elem?-append_ge}
use draft.Log.Append.{append-Appends}
use draft.Log.Made.{prev_cfg-make_entry}
use draft.Raft.Types.{WireEntry}
use draft.Raft.Rpc.{Stop, failing, appending, make_entries, any_config, store_entries}
use draft.Raft.Rpc.Skip.{InOrder, Held, Skips, skip_existing-Skips, take-all}

pub make_entries-IsBatch :
    (c n : ℕ) (ws : List WireEntry) → InOrder n ws → IsBatch n (make_entries c ws)
unfolding make_entries make_entry
make_entries-IsBatch c n [] order = tt
make_entries-IsBatch c n (w ∷ ws) order =
    (omega arith, order.0, make_entries-IsBatch c (suc n) ws order.1)

pub make_entries-PointsBack :
    (base : ℕ) (es : List LogEntry) (c n : ℕ) (ws : List WireEntry)
    → c < 2 ^ 64
    → c < n
    → InOrder n ws
    → Chain base es c
    → PointsBack base es (make_entries c ws)
unfolding make_entries
make_entries-PointsBack base es c n [] small lt order ch = tt
make_entries-PointsBack base es c n (w ∷ ws) small lt order ch = (
  points w.config refl,
  make_entries-PointsBack base es c (suc n) ws small (omega arith) order.1 ch,
)
  where
    points :
        (b : Bool)
        → w.config ≡ b
        → (make_entry c w.text w.index w.term b).cfg ≡ true
        → (prev_cfg (make_entry c w.text w.index w.term b)
            < (make_entry c w.text w.index w.term b).index)
          × Chain base es (prev_cfg (make_entry c w.text w.index w.term b))
    points false e cfg = absurd (unfold make_entry in cc)
    points true e cfg =
        let p = prev_cfg-make_entry c w.text w.index w.term small in
        (
          unfold make_entry in subst (λ i. i < w.index) (sym p) (omega (arith, order.0)),
          subst (Chain base es) (sym p) ch,
        )

make_entries-Held :
    (c n : ℕ) (xs : List LogEntry) (ws : List WireEntry)
    → length xs ≡ n
    → Held n ws (xs ++ make_entries c ws)
unfolding make_entries
make_entries-Held c n xs [] h = tt
make_entries-Held c n xs (w ∷ ws) h =
    let m = make_entry c w.text w.index w.term w.config in
    (
      (
        m,
        ap (get_elem? (xs ++ m ∷ make_entries c ws)) (omega arith)
            ∙ get_elem?-append_ge xs (m ∷ make_entries c ws) 0,
        unfold make_entry in refl,
      ),
      subst (Held (suc n) ws) (append_assoc xs (m ∷ []) (make_entries c ws)) (
          make_entries-Held c (suc n) (xs ++ m ∷ []) ws (omega (arith, length-append xs (m ∷ [])))),
    )

take-take : (k n : ℕ) (xs : List LogEntry) → k ≤ n → take k (take n xs) ≡ take k xs
take-take zero n xs h = refl
take-take (suc k) zero xs h = absurd (omega arith)
take-take (suc k) (suc n) [] h = refl
take-take (suc k) (suc n) (x ∷ xs) h = ap (λ ys. x ∷ ys) (take-take k n xs (omega arith))

take-append : (xs ys : List LogEntry) → take (length xs) (xs ++ ys) ≡ xs
take-append [] ys = refl
take-append (x ∷ xs) ys = ap (λ zs. x ∷ zs) (take-append xs ys)

-- What `store_entries` leaves of a well-formed log that has the entries up to the place `k`.
abbrev pub Stored :
    EntryLogger → List LogEntry → ℕ → List WireEntry → Option (EntryLogger × Bool × Bool) → Type 0
Stored l es k ws result =
    (l' : EntryLogger) × (need : Bool) × (good : Bool) × (es' : List LogEntry) × (result
      ≡ some (l', need, good))
    × (l'.stat ≡ l.stat)
    × Rep l' es'
    × (take k es' ≡ take k es)
    × (good ≡ true → Held k ws es')

-- The part behind the first loop.
after_skip : Os → Stop → Option (EntryLogger × Bool × Bool)
after_skip os (failing l') = some (l', false, false)
after_skip os (appending l' need []) = some (l', need, true)
after_skip os (appending l' need (e ∷ es)) = do
  (l'', rc) ← append os (make_entries l'.cfg_entry_index (e ∷ es)) true l'
  some (l'', any_config need (e ∷ es), is_good rc)

-- The entries of the request behind those of the log.
appended-Stored :
    (os : Os) (l l1 : EntryLogger) (es es1 : List LogEntry) (k : ℕ) (need : Bool)
    (ws rest : List WireEntry)
    → l.stat.last_index + length es < 2 ^ 64
    → k ≤ length es1
    → Rep l1 es1
    → l1.stat ≡ l.stat
    → es1 ≡ take (length es1) es
    → InOrder (l.stat.last_index + suc (length es1)) rest
    → ((es' : List LogEntry)
        → take (length es1) es' ≡ es1
        → Held (length es1) rest es'
        → Held k ws es')
    → Stored l es k ws (do
      (l2, rc) ← append os (make_entries l1.cfg_entry_index rest) true l1
      some (l2, any_config need rest, is_good rc))
appended-Stored os l l1 es es1 k need ws rest bound le rep st cut order on =
    let made = make_entries l1.cfg_entry_index rest in
    let base : l1.stat.last_index ≡ l.stat.last_index = ap (λ (x : States). x.last_index) st in
    let order1 : InOrder (suc l1.stat.last_index + length es1) rest =
      subst (λ n. InOrder n rest) (omega arith) order in
    let short : length es1 ≤ length es =
      omega (arith, ap length cut, length-take (length es1) es) in
    let (l2, rc, q, st2, out) =
      append-Appends os l1 es1 made true rep (make_entries-IsBatch l1.cfg_entry_index _ rest order1)
        (make_entries-PointsBack l1.stat.last_index es1 l1.cfg_entry_index _ rest
          (omega (arith, rep.cfg_le)) (omega (arith, rep.cfg_le)) order1 rep.chain) in
    let kept : take k es1 ≡ take k es = ap (take k) cut ∙ take-take k (length es1) es le in
    elim out [
      | inl (rep2, _) ↦ (
        l2,
        any_config need rest,
        is_good rc,
        es1 ++ made,
        rw q,
        st2 ∙ st,
        rep2,
        sym (take-take k (length es1) (es1 ++ made) le) ∙ ap (take k) (take-append es1 made) ∙ kept,
        λ _.
            on (es1 ++ made) (take-append es1 made)
              (make_entries-Held l1.cfg_entry_index (length es1) es1 rest refl),
      )
      | inr (n, failed, bad, rep2, _) ↦ (
        l2,
        any_config need rest,
        is_good rc,
        es1,
        rw q,
        st2 ∙ st,
        rep2,
        kept,
        λ g. absurd (let no' : is_good rc ≡ false = ap is_good failed ∙ bad in cc),
      )
    ]

after_skip-Stored :
    (os : Os) (l : EntryLogger) (es : List LogEntry) (k : ℕ) (ws : List WireEntry) (s : Stop)
    → l.stat.last_index + length es < 2 ^ 64
    → Skips l es k ws s
    → Stored l es k ws (after_skip os s)
unfolding after_skip
after_skip-Stored os l es k ws (failing l1) bound (n, le, rep, st) =
    (l1, false, false, take n es, refl, st, rep, take-take k n es le, λ e. absurd (cc))
after_skip-Stored os l es k ws (appending l1 need []) bound
      (n, es1, le, rep, st, same, end, order, on) =
    (
      l1,
      need,
      true,
      es1,
      refl,
      st,
      rep,
      sym (take-take k n es1 le) ∙ ap (take k) same ∙ take-take k n es le,
      λ _. on es1 same tt,
    )
after_skip-Stored os l es k ws (appending l1 need (w ∷ rest)) bound
      (n, es1, le, rep, st, same, inl empty, order, on) =
    absurd (cc)
after_skip-Stored os l es k ws (appending l1 need (w ∷ rest)) bound
      (n, es1, le, rep, st, same, inr end, order, on) =
    let whole : take n es1 ≡ es1 = take-all n es1 (omega arith) in
    appended-Stored os l l1 es es1 k need ws (w ∷ rest) bound (omega arith) rep st
      (sym whole ∙ same ∙ ap (λ m. take m es) (sym end))
      (subst (λ m. InOrder (l.stat.last_index + suc m) (w ∷ rest)) (sym end) order)
      λ es' at held.
        on es' (ap (λ m. take m es') (sym end) ∙ at ∙ sym whole ∙ same)
          (subst (λ m. Held m (w ∷ rest) es') end held)

-- On a well-formed log, of indices below 2^64, that has the entries up to the place `k`, entries whose
-- indices count on from there are stored: the call ends, it reads nothing outside the log, and it leaves a
-- well-formed log with the same first `k` entries; where all went well, the log has from there on, for each
-- of the new entries, an entry of its term at its index.
pub store_entries-Stored :
    (os : Os) (l : EntryLogger) (es : List LogEntry) (k : ℕ) (ws : List WireEntry)
    → Rep l es
    → k ≤ length es
    → l.stat.last_index + length es < 2 ^ 64
    → InOrder (l.stat.last_index + suc k) ws
    → Stored l es k ws (store_entries os ws l)
unfolding store_entries after_skip
store_entries-Stored os l es k ws r le bound order =
    let (s, q, skips) = skip_existing-Skips os l es false ws k r le order in
    rw q (after_skip-Stored os l es k ws s bound skips)
