-- ===== src/Log/Lookup.antt =====
-- `operator[]` and the functions that read the log, on a well-formed file.
use draft.Base.{
  ℕ, suc, ◌+◌, ◌-◌, ◌≤◌, ◌<◌, ◌≡◌, refl, ap, sym, ◌∙◌, inl, inr, Bool, false, not, ◌&&◌, some, List,
  [], ◌∷◌, length, get_elem?, take, ltb, leb, ◌==◌, if◌then◌else◌, arith, Bool-cases,
}
use draft.Log.Entry.{LogEntry, sentry}
use draft.Log.{
  EntryLogger, back, sizes, out_of_range, info_at, ◌>>=◌, first_entry, last_entry, lookup,
  last_entry_index, last_entry_term,
}
use draft.Log.View.{
  Rep, Open, Counts, infos_of, entry_at, infos_of-file, length-infos_of, Laid-file, get_elem?-lt,
  get_elem?-ge,
}

-- The last record of a list, the sentry if there is none.
abbrev pub last_of : LogEntry → List LogEntry → LogEntry
last_of d [] = d
last_of d (e ∷ es) = last_of e es

get_elem?-last_of :
    (d : LogEntry) (es : List LogEntry) → get_elem? (d ∷ es) (length es) ≡ some (last_of d es)
get_elem?-last_of d [] = refl
get_elem?-last_of d (e ∷ es) = get_elem?-last_of e es

last_of-index :
    (d : LogEntry) (n : ℕ) (es : List LogEntry)
    → d.index + 1 ≡ n
    → Counts n es
    → (last_of d es).index + 1 ≡ n + length es
last_of-index d n [] h c = omega arith
last_of-index d n (e ∷ es) h c = omega (arith, last_of-index e (suc n) es (omega arith) c.1)

back-infos_of :
    (es : List LogEntry)
    → back (infos_of 0 (sentry ∷ es))
      ≡ some (record {
        index = (last_of sentry es).index;
        amount = sizes (take (length es) (sentry ∷ es));
      })
back-infos_of es =
    let n : length (infos_of 0 (sentry ∷ es)) - 1 ≡ length es =
      omega (arith, length-infos_of 40 es) in
    rw n (infos_of-file (length es) (sentry ∷ es) (last_of sentry es) (get_elem?-last_of sentry es))

abbrev pub in_list : ℕ → List LogEntry → ℕ → Bool
in_list base es i = ltb base i && leb i (base + length es)

out_of_range-infos_of :
    (base i : ℕ) (es : List LogEntry)
    → Counts (suc base) es
    → out_of_range (infos_of 0 (sentry ∷ es)) i ≡ (not (i == 0) && not (in_list base es i))
unfolding out_of_range
out_of_range-infos_of base i [] c = ground arith
out_of_range-infos_of base i (e ∷ es) c =
    let last : (last_of e es).index ≡ base + suc (length es) =
      omega (arith, last_of-index e (suc (suc base)) es (omega arith) c.1) in
    rw (back-infos_of (e ∷ es)) (rw last (ground arith))

pub last_of-index_pos :
    (base : ℕ) (es : List LogEntry)
    → Counts (suc base) es
    → 0 < length es
    → (last_of sentry es).index ≡ base + length es
last_of-index_pos base [] c h = absurd (omega arith)
last_of-index_pos base (e ∷ es) c h =
    omega (arith, last_of-index e (suc (suc base)) es (omega arith) c.1)

pub slot :
    (es : List LogEntry) (n k : ℕ) (e : LogEntry)
    → n ≡ suc k
    → get_elem? es k ≡ some e
    → get_elem? (sentry ∷ es) n ≡ some e
slot es n k e p g = rw p g

module _ (l : EntryLogger) (es : List LogEntry) (r : Open l es) where
  -- `infos.back()` describes the last record.
  pub back-Open :
      back l.infos
      ≡ some (record {
        index = (last_of sentry es).index;
        amount = sizes (take (length es) (sentry ∷ es));
      })
  back-Open = rw r.infos (back-infos_of es)

  pub last_entry-Open : last_entry l ≡ some (last_of sentry es)
  unfolding last_entry
  last_entry-Open = rw back-Open (
      Laid-file l.cells (length es) (sentry ∷ es) (last_of sentry es) r.laid
        (get_elem?-last_of sentry es))

module _ (l : EntryLogger) (es : List LogEntry) (r : Rep l es) where
  pub Rep-Open : Open l es
  Rep-Open = record { infos = r.infos; laid = r.laid }

  last_entry_lem : last_entry l ≡ some (last_of sentry es)
  last_entry_lem = last_entry-Open l es Rep-Open

  -- Out of range are the indices that are neither 0 nor in the list.
  pub out_of_range_lem :
      (i : ℕ) → out_of_range l.infos i ≡ (not (i == 0) && not (in_list l.stat.last_index es i))
  out_of_range_lem i = rw r.infos (out_of_range-infos_of l.stat.last_index i es r.counts)

  -- The index table leads to the record of each index in the list.
  pub info_at_lem :
      (i : ℕ) (e : LogEntry)
      → l.stat.last_index < i
      → get_elem? es (i - l.stat.last_index - 1) ≡ some e
      → info_at l i
        ≡ some (record {
          index = e.index;
          amount = sizes (take (i - l.stat.last_index) (sentry ∷ es));
        })
  unfolding info_at
  info_at_lem i e h g =
      let k : i - l.stat.last_index - 0 ≡ i - l.stat.last_index = omega arith in
      rw (r.infos, info_at)
        (rw k (
          infos_of-file (i - l.stat.last_index) (sentry ∷ es) e
            (slot es (i - l.stat.last_index) (i - l.stat.last_index - 1) e (omega arith) g)))

  -- The record that the table leads to is the entry.
  pub cell_lem :
      (i : ℕ) (e : LogEntry)
      → l.stat.last_index < i
      → get_elem? es (i - l.stat.last_index - 1) ≡ some e
      → l.cells (sizes (take (i - l.stat.last_index) (sentry ∷ es))) ≡ some e
  cell_lem i e h g =
      Laid-file l.cells (i - l.stat.last_index) (sentry ∷ es) e r.laid
        (slot es (i - l.stat.last_index) (i - l.stat.last_index - 1) e (omega arith) g)

  lookup_inside :
      (i : ℕ)
      → l.stat.last_index < i
      → i ≤ l.stat.last_index + length es
      → (do m ← info_at l i; l.cells m.amount) ≡ get_elem? es (i - l.stat.last_index - 1)
  lookup_inside i h k =
      let (e, g) = get_elem?-lt es (i - l.stat.last_index - 1) (omega arith) in
      rw (info_at_lem i e h g) (cell_lem i e h g ∙ sym g)

  first_entry_lem : first_entry l ≡ some sentry
  unfolding first_entry
  first_entry_lem = rw (r.infos, first_entry) (r.laid.0)

  -- On a well-formed log the lookup of an index finds the sentry at 0, nothing at or below the base,
  -- else the entry of the list at that place, and nothing past its end.
  pub lookup-entry_at : (i : ℕ) → lookup l i ≡ entry_at l.stat.last_index es i
  unfolding lookup entry_at
  lookup-entry_at i = elim (Bool-cases (i == 0)) [
    | inl z ↦ rw (out_of_range_lem i) (rw z first_entry_lem)
    | inr p ↦ elim (Bool-cases (in_list l.stat.last_index es i)) [
      | inl inside ↦ rw (out_of_range_lem i) (
          rw (p, inside)
            (let above : leb i l.stat.last_index ≡ false = ground arith in
              rw above (lookup_inside i (ground arith) (ground arith))))
      | inr outside ↦ rw (out_of_range_lem i) (
          rw (p, outside)
            (elim (Bool-cases (leb i l.stat.last_index)) [
              | inl below ↦ rw below
              | inr above ↦
                  rw above (sym (get_elem?-ge es (i - l.stat.last_index - 1) (ground arith)))
            ]))
    ]
  ]

  pub lookup-list :
      (i : ℕ) → l.stat.last_index < i → lookup l i ≡ get_elem? es (i - l.stat.last_index - 1)
  unfolding entry_at
  lookup-list i above =
      let off_zero : (i == 0) ≡ false = ground arith in
      let over : leb i l.stat.last_index ≡ false = ground arith in
      lookup-entry_at i ∙ rw (off_zero, over) refl

  length_lem : length l.infos ≡ suc (length es)
  length_lem = rw r.infos (ap suc (length-infos_of 40 es))

  -- On a well-formed log the index of the last entry is found, and is the base plus the number of
  -- entries, also if there is none.
  pub last_entry_index_lem : last_entry_index l ≡ some (l.stat.last_index + length es)
  unfolding last_entry_index
  last_entry_index_lem =
      rw length_lem
        (ground (arith, last_entry_lem, last_of-index_pos l.stat.last_index es r.counts))

  -- The term of the last entry, that of the base if there is none.
  pub last_entry_term_lem :
      last_entry_term l
      ≡ some (if length es == 0 then l.stat.last_term else (last_of sentry es).term)
  unfolding last_entry_term
  last_entry_term_lem = rw length_lem (ground (arith, last_entry_lem))
