-- ===== src/Log/Reopen/Print.antt =====
-- What `to_string` makes of a log.
use draft.Base.{
  ℕ, zero, suc, ◌+◌, ◌<◌, ◌≡◌, refl, ap, subst, ◌∙◌, true, false, some, List, [], ◌∷◌, ◌++◌, Str,
  append-nil, length, ◌==◌, arith, codes,
}
use native.Mathlib.Nat.{add-zero}
use draft.Log.Entry.{LogEntry, sentry, str}
use draft.Log.Memory.{Cells}
use draft.Log.{EntryLogger, sizes}
use draft.Log.View.{Rep, Laid, Ends}
use draft.Log.Reopen.{print_entries, to_string}
use draft.Log.Reopen.Recover.{sized_on, sizes-cons, Laid-length}

-- The texts with a comma between them.
abbrev pub joined_texts : List LogEntry → Str
joined_texts [] = []
joined_texts (e ∷ []) = str e
joined_texts (e ∷ d ∷ es) = str e ++ codes "," ++ joined_texts (d ∷ es)

-- No entry has the size of the sentry.
abbrev pub Larger : List LogEntry → Type 0
Larger [] = Unit
Larger (e ∷ es) = ((e.size == sentry.size) ≡ false) × Larger es

print_entries-joined :
    (fuel : ℕ) (m : Cells) (off : ℕ) (es : List LogEntry)
    → length es < fuel
    → Laid m off es
    → Ends m (off + sizes es)
    → Larger es
    → print_entries fuel m sentry.size off ≡ some (joined_texts es)
unfolding print_entries
print_entries-joined zero m off es h laid ends large = absurd (omega arith)
print_entries-joined (suc fuel) m off [] h laid (e, at, z) large =
    let here : m off ≡ some e = unfold sizes in (rw add-zero at at) in
    let zeroed : (e.size == 0) ≡ true = ground (arith, z) in rw here (rw zeroed refl)
print_entries-joined (suc fuel) m off (e ∷ []) h (at, size, laid) (d, end_at, z) (large, more) =
    let place : off + sizes (e ∷ []) ≡ off + e.size =
      sizes-cons off e [] ∙ unfold sizes in add-zero (off + e.size) in
    let there : m (off + e.size) ≡ some d = subst (λ n. m n ≡ some d) place end_at in
    let rest =
      print_entries-joined fuel m (off + e.size) [] (omega arith) tt
        (d, unfold sizes in rw add-zero there, z) tt in
    let zeroed : (d.size == 0) ≡ true = ground (arith, z) in
    rw at (
      rw (sized_on e.size size) (
        rw there
          (rw rest (rw (large, zeroed) (ap some (append-nil (str e ++ []) ∙ append-nil (str e)))))))
print_entries-joined (suc fuel) m off (e ∷ d ∷ es) h (at, size, laid) ends (large, more) =
    let rest =
      print_entries-joined fuel m (off + e.size) (d ∷ es) (omega arith) laid
        (subst (Ends m) (sizes-cons off e (d ∷ es)) ends) more in
    rw at
      (rw (sized_on e.size size) (rw (laid.0) (rw rest (rw (large, sized_on d.size laid.1) refl))))

-- On a well-formed log, none of whose entries has the size of the sentry, `to_string` ends with the texts
-- of the entries in order, and one comma between two of them.
pub to_string-joined :
    (l : EntryLogger) (es : List LogEntry)
    → Rep l es
    → Larger es
    → to_string l ≡ some (joined_texts es)
unfolding to_string print_entries
to_string-joined l es r large =
    let at : Laid l.cells 40 es = r.laid.2 in
    let ends : Ends l.cells (40 + sizes es) =
      subst (Ends l.cells) (r.payload ∙ unfold sizes in refl) r.ends in
    let short : length es < l.ldbs_size =
      omega (arith, Laid-length l.cells 0 (sentry ∷ es) r.laid, r.payload, r.room) in
    let rest = print_entries-joined l.ldbs_size l.cells 40 es short at ends large in
    let (d, there) = first_record l.cells es at ends in
    rw r.laid.0 (rw there (rw rest (unfold str in refl)))
  where
    first_record :
        (m : Cells) (xs : List LogEntry)
        → Laid m 40 xs
        → Ends m (40 + sizes xs)
        → (d : LogEntry) × (m 40 ≡ some d)
    first_record m [] laid (d, there, z) = (d, unfold sizes in there)
    first_record m (x ∷ xs) laid ends = (x, laid.0)
