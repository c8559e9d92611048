-- ===== src/Log/Shift.antt =====
-- `drop` where entries stay: they move to the front of the file.
use native.Mathlib.Nat.{add_assoc, add-zero}
use draft.Base.{
  ℕ, zero, suc, ◌+◌, ◌-◌, ◌≤◌, ◌<◌, ◌≡◌, refl, ap, sym, subst, ◌∙◌, some, List, [], ◌∷◌, length,
  length-drop, get_elem?, take, drop, arith,
}
use draft.Log.Entry.{LogEntry, States, sentry}
use draft.Log.Memory.{Cells, put_end, memmove}
use draft.Log.{EntryLogger, sizes, lower, shift_down}
use draft.Log.View.{
  Rep, Laid, Counts, Chain, infos_of, get_elem?-infos_of, get_elem?-lt, Laid-put_end, Ends-put_end,
  Laid-memmove, Laid-memmove_before,
}
use draft.Log.Lookup.{back-Open, last_entry-Open, Rep-Open, last_of}
use draft.Log.Append.{sizes-last_of}

drop-infos_of :
    (k off : ℕ) (es : List LogEntry)
    → drop k (infos_of off es) ≡ infos_of (off + sizes (take k es)) (drop k es)
unfolding sizes
drop-infos_of zero off es = rw add-zero refl
drop-infos_of (suc k) off [] = refl
drop-infos_of (suc k) off (e ∷ es) =
    drop-infos_of k (off + e.size) es ∙ rw (add_assoc off e.size (sizes (take k es))) refl

lower-infos_of :
    (d off off' : ℕ) (es : List LogEntry)
    → off ≡ off' + d
    → lower d (infos_of off es) ≡ infos_of off' es
unfolding lower
lower-infos_of d off off' [] h = refl
lower-infos_of d off off' (e ∷ es) h =
    let q : off - d ≡ off' = omega arith in
    rw q (
      ap (λ is. record { index = e.index; amount = off' } ∷ is)
        (lower-infos_of d (off + e.size) (off' + e.size) es (omega arith)))

sizes-take-drop : (k : ℕ) (es : List LogEntry) → sizes (take k es) + sizes (drop k es) ≡ sizes es
unfolding sizes
sizes-take-drop zero es = omega arith
sizes-take-drop (suc k) [] = omega arith
sizes-take-drop (suc k) (e ∷ es) = omega (arith, sizes-take-drop k es)

Laid-drop :
    (m : Cells) (k off : ℕ) (es : List LogEntry)
    → Laid m off es
    → Laid m (off + sizes (take k es)) (drop k es)
unfolding sizes
Laid-drop m zero off es l = rw add-zero l
Laid-drop m (suc k) off [] l = tt
Laid-drop m (suc k) off (e ∷ es) l =
    rw (← add_assoc off e.size (sizes (take k es))) (Laid-drop m k (off + e.size) es l.2)

pub Counts-drop : (k n : ℕ) (es : List LogEntry) → Counts n es → Counts (n + k) (drop k es)
Counts-drop zero n es c = rw add-zero c
Counts-drop (suc k) n [] c = tt
Counts-drop (suc k) n (e ∷ es) c =
    subst (λ i. Counts i (drop k es)) (omega arith) (Counts-drop k (suc n) es c.1)

-- The log with the first `k` entries gone and the others at the front of the file; the states are old.
abbrev pub shifted : EntryLogger → List LogEntry → ℕ → EntryLogger
shifted l es k = record l {
  cells =
      put_end (memmove l.cells 40 (40 + sizes (take k es)) (sizes (drop k es)))
        (40 + sizes (drop k es));
  infos = infos_of 0 (sentry ∷ drop k es);
  payload_size = 40 + sizes (drop k es);
}

module _ (l : EntryLogger) (es : List LogEntry) (k : ℕ) (r : Rep l es)
    (inside : k < length es) where
  shifted-Laid : Laid (shifted l es k).cells 0 (sentry ∷ drop k es)
  unfolding sizes
  shifted-Laid = Laid-put_end _ _ 0 (sentry ∷ drop k es) (omega arith) (
    (Laid-memmove_before l.cells 40 (40 + sizes (take k es)) (sizes (drop k es)) 0 (sentry ∷ [])
        (omega arith) (r.laid.0, r.laid.1, tt)).0,
    omega arith,
    Laid-memmove l.cells 40 (40 + sizes (take k es)) (sizes (drop k es)) 0 (drop k es) (omega arith)
        (rw add-zero (Laid-drop l.cells k 40 es r.laid.2)),
  )

  pub shift_down-shifted :
      (index : ℕ) → index ≡ l.stat.last_index + k → shift_down index l ≡ some (shifted l es k)
  unfolding shift_down sizes
  shift_down-shifted index at =
      let o = Rep-Open l es r in
      let (e, h) = get_elem?-lt es k inside in
      let (e0, h0) = get_elem?-lt es 0 (omega arith) in
      let place : index + 1 - l.stat.last_index - 0 ≡ suc k = omega arith in
      let gone : index - l.stat.last_index ≡ k = omega arith in
      let first : get_elem? l.infos 0 ≡ some (record { index = 0; amount = 0 }) =
        ap (λ is. get_elem? is 0) r.infos in
      let head : get_elem? l.infos 1 ≡ some (record { index = e0.index; amount = 40 }) =
        ap (λ is. get_elem? is 1) r.infos ∙ get_elem?-infos_of 40 0 es e0 h0 in
      let next : get_elem? l.infos (suc k)
          ≡ some (record { index = e.index; amount = 40 + sizes (take k es) }) =
        ap (λ is. get_elem? is (suc k)) r.infos ∙ get_elem?-infos_of 40 k es e h in
      let end : sizes (take (length es) (sentry ∷ es)) + (last_of sentry es).size
          ≡ 40 + (sizes (take k es) + sizes (drop k es)) =
        sizes-last_of sentry es ∙ ap (λ n. 40 + n) (sym (sizes-take-drop k es)) in
      let dropped : 40 + sizes (take k es) - 40 ≡ sizes (take k es) = omega arith in
      let moved : 40 + (sizes (take k es) + sizes (drop k es)) - (40 + sizes (take k es))
          ≡ sizes (drop k es) =
        omega arith in
      let end' : 40 + (sizes (take k es) + sizes (drop k es)) - sizes (take k es)
          ≡ 40 + sizes (drop k es) =
        omega arith in
      let payload : l.payload_size - sizes (take k es) ≡ 40 + sizes (drop k es) =
        omega (arith, r.payload, sizes-take-drop k es) in
      let kept : lower (sizes (take k es)) (drop (suc k) l.infos) ≡ infos_of 40 (drop k es) =
        ap (λ is. lower (sizes (take k es)) (drop (suc k) is)) r.infos
        ∙ ap (lower (sizes (take k es))) (drop-infos_of k 40 es)
        ∙ lower-infos_of (sizes (take k es)) (40 + sizes (take k es)) 40 (drop k es) refl in
      rw first (
        rw place (
          rw head (
            rw next (
              rw (back-Open l es o, last_entry-Open l es o)
                (rw gone (rw end (rw (dropped, moved, end', payload, kept) refl)))))))

  -- With the states of the last entry that goes, the log stands for the entries that stay.
  pub shifted-Rep :
      (base c stat_size : ℕ) (stat : States)
      → base ≡ l.stat.last_index + k
      → stat.last_index ≡ base
      → Chain base (drop k es) c
      → c ≤ l.stat.last_index + length es
      → Rep
          (record (shifted l es k) { cfg_entry_index = c; stat = stat; stat_size = stat_size })
          (drop k es)
  shifted-Rep base c stat_size stat at is ch le = record {
    infos = refl;
    laid = shifted-Laid;
    payload = unfold sizes in refl;
    ends = Ends-put_end _ (40 + sizes (drop k es));
    counts =
        subst (λ n. Counts n (drop k es)) (omega arith)
          (Counts-drop k (suc l.stat.last_index) es r.counts);
    chain = subst (λ n. Chain n (drop k es) c) (sym is) ch;
    cfg_le = omega (arith, length-drop k es);
    paged = r.paged;
    room = unfold sizes in omega (arith, r.room, r.payload, sizes-take-drop k es);
  }
