-- ===== src/Log/View.antt =====
-- What a log file stands for: a list of entries behind the sentry record, laid out without gaps.
use draft.Base.{
  ℕ, zero, suc, ◌+◌, ◌-◌, ◌≤◌, ◌<◌, ◌≡◌, refl, ap, ◌∙◌, Option, none, some, List, [], ◌∷◌, ◌++◌,
  length, get_elem?, take, leb, ◌==◌, if◌then◌else◌, arith,
}
use native.Mathlib.Nat.{add_assoc, add-zero, zero-add}
use draft.Log.Entry.{LogEntry, sentry, prev_cfg}
use draft.Log.Memory.{Cells, put_entry, put_end, memmove, ended}
use draft.Log.Room.{page_size}
use draft.Log.{EntryLogger, LogEntryInfo, sizes}

-- The records of `es` stand one behind the other from byte `off`.
abbrev pub Laid : Cells → ℕ → List LogEntry → Type 0
Laid m off [] = Unit
Laid m off (e ∷ es) = (m off ≡ some e) × (8 ≤ e.size) × Laid m (off + e.size) es

-- An end marker stands at byte `off`.
abbrev pub Ends : Cells → ℕ → Type 0
Ends m off = (e : LogEntry) × (m off ≡ some e) × (e.size ≡ 0)

abbrev pub infos_of : ℕ → List LogEntry → List LogEntryInfo
infos_of off [] = []
infos_of off (e ∷ es) = record { index = e.index; amount = off } ∷ infos_of (off + e.size) es

-- The indices count up from `n`.
abbrev pub Counts : ℕ → List LogEntry → Type 0
Counts n [] = Unit
Counts n (e ∷ es) = (e.index ≡ n) × Counts (suc n) es

-- The entry at an index: the sentry at 0, nothing at or below the base, then the list.
unfoldable pub entry_at : ℕ → List LogEntry → ℕ → Option LogEntry
entry_at base es i =
    if i == 0 then some sentry else if leb i base then none else get_elem? es (i - base - 1)

-- Following the configuration entries back from `i` ends at or below the base.
pub data Chain (base : ℕ) (es : List LogEntry) : ℕ → Type 0 where
  stop : {i : ℕ} → i ≤ base → Chain base es i
  link :
      {i : ℕ} (e : LogEntry)
      → base < i
      → entry_at base es i ≡ some e
      → prev_cfg e < i
      → Chain base es (prev_cfg e)
      → Chain base es i

-- The part that the loop of `append` keeps: the index table and the records.
pub record Open (l : EntryLogger) (es : List LogEntry) : Type 0 where
  pub infos : l.infos ≡ infos_of 0 (sentry ∷ es)
  pub laid : Laid l.cells 0 (sentry ∷ es)

pub record Rep (l : EntryLogger) (es : List LogEntry) : Type 0 where
  pub infos : l.infos ≡ infos_of 0 (sentry ∷ es)
  pub laid : Laid l.cells 0 (sentry ∷ es)
  pub payload : l.payload_size ≡ sizes (sentry ∷ es)
  pub ends : Ends l.cells l.payload_size
  pub counts : Counts (suc l.stat.last_index) es
  pub chain : Chain l.stat.last_index es l.cfg_entry_index
  pub cfg_le : l.cfg_entry_index ≤ l.stat.last_index + length es
  pub paged : page_size ≤ l.ldbs_size
  pub room : l.payload_size + 8 ≤ l.ldbs_size

-- Writes behind the records leave them.
pub Laid-put_entry :
    (m : Cells) (p : ℕ) (x : LogEntry) (off : ℕ) (es : List LogEntry)
    → off + sizes es ≤ p
    → Laid m off es
    → Laid (put_entry m p x) off es
unfolding put_entry sizes
Laid-put_entry m p x off [] h l = tt
Laid-put_entry m p x off (e ∷ es) h l =
    (ground arith, l.1, Laid-put_entry m p x (off + e.size) es (omega arith) l.2)

pub Laid-put_end :
    (m : Cells) (p : ℕ) (off : ℕ) (es : List LogEntry)
    → off + sizes es ≤ p
    → Laid m off es
    → Laid (put_end m p) off es
unfolding put_end sizes
Laid-put_end m p off [] h l = tt
Laid-put_end m p off (e ∷ es) h l =
    (ground arith, l.1, Laid-put_end m p (off + e.size) es (omega arith) l.2)

size-ended : (o : Option LogEntry) → (ended o).size ≡ 0
size-ended none = refl
size-ended (some e) = refl

pub Ends-put_end : (m : Cells) (p : ℕ) → Ends (put_end m p) p
unfolding put_end
Ends-put_end m p = (ended (m p), ground arith, size-ended (m p))

-- Records that lie in the bytes that move stand at the new place.
pub Laid-memmove :
    (m : Cells) (dst src n k : ℕ) (es : List LogEntry)
    → k + sizes es ≤ n
    → Laid m (src + k) es
    → Laid (memmove m dst src n) (dst + k) es
unfolding memmove sizes
Laid-memmove m dst src n k [] h l = tt
Laid-memmove m dst src n k (e ∷ es) h l = (
  let back : src + (dst + k - dst) ≡ src + k = omega arith in
      let here : m (src + (dst + k - dst)) ≡ some e = rw back l.0 in ground arith,
  l.1,
  rw (add_assoc dst k e.size)
      (Laid-memmove m dst src n (k + e.size) es (omega arith) (rw (← add_assoc src k e.size) l.2)),
)

-- Records before the place that bytes move to stay.
pub Laid-memmove_before :
    (m : Cells) (dst src n off : ℕ) (es : List LogEntry)
    → off + sizes es ≤ dst
    → Laid m off es
    → Laid (memmove m dst src n) off es
unfolding memmove sizes
Laid-memmove_before m dst src n off [] h l = tt
Laid-memmove_before m dst src n off (e ∷ es) h l =
    (ground arith, l.1, Laid-memmove_before m dst src n (off + e.size) es (omega arith) l.2)

pub sizes-append : (xs ys : List LogEntry) → sizes (xs ++ ys) ≡ sizes xs + sizes ys
unfolding sizes
sizes-append [] ys = omega arith
sizes-append (e ∷ xs) ys = omega (arith, sizes-append xs ys)

pub infos_of-append :
    (off : ℕ) (xs ys : List LogEntry)
    → infos_of off (xs ++ ys) ≡ infos_of off xs ++ infos_of (off + sizes xs) ys
unfolding sizes
infos_of-append off [] ys = ground arith
infos_of-append off (e ∷ xs) ys =
    rw (infos_of-append (off + e.size) xs ys, add_assoc off e.size (sizes xs))

pub length-infos_of : (off : ℕ) (es : List LogEntry) → length (infos_of off es) ≡ length es
length-infos_of off [] = refl
length-infos_of off (e ∷ es) = ap suc (length-infos_of (off + e.size) es)

pub get_elem?-infos_of :
    (off k : ℕ) (es : List LogEntry) (e : LogEntry)
    → get_elem? es k ≡ some e
    → get_elem? (infos_of off es) k
      ≡ some (record { index = e.index; amount = off + sizes (take k es) })
unfolding sizes
get_elem?-infos_of off zero (x ∷ es) e h = ground arith
get_elem?-infos_of off (suc k) (x ∷ es) e h =
    rw (← add_assoc off x.size (sizes (take k es))) (get_elem?-infos_of (off + x.size) k es e h)
get_elem?-infos_of off k [] e h = cc

pub Laid-get_elem? :
    (m : Cells) (off k : ℕ) (es : List LogEntry) (e : LogEntry)
    → Laid m off es
    → get_elem? es k ≡ some e
    → m (off + sizes (take k es)) ≡ some e
unfolding sizes
Laid-get_elem? m off k [] e l h = cc
Laid-get_elem? m off zero (x ∷ es) e l h = rw add-zero (l.0 ∙ h)
Laid-get_elem? m off (suc k) (x ∷ es) e l h =
    rw (← add_assoc off x.size (sizes (take k es))) (Laid-get_elem? m (off + x.size) k es e l.2 h)

pub infos_of-file :
    (k : ℕ) (es : List LogEntry) (e : LogEntry)
    → get_elem? es k ≡ some e
    → get_elem? (infos_of 0 es) k ≡ some (record { index = e.index; amount = sizes (take k es) })
infos_of-file k es e h = get_elem?-infos_of 0 k es e h ∙ rw zero-add

pub Laid-file :
    (m : Cells) (k : ℕ) (es : List LogEntry) (e : LogEntry)
    → Laid m 0 es
    → get_elem? es k ≡ some e
    → m (sizes (take k es)) ≡ some e
Laid-file m k es e l h = rw zero-add at (Laid-get_elem? m 0 k es e l h)

pub Counts-get_elem? :
    (n k : ℕ) (es : List LogEntry) (e : LogEntry)
    → Counts n es
    → get_elem? es k ≡ some e
    → e.index ≡ n + k
Counts-get_elem? n k [] e c h = cc
Counts-get_elem? n zero (x ∷ es) e c h = ground arith
Counts-get_elem? n (suc k) (x ∷ es) e c h = omega (arith, Counts-get_elem? (suc n) k es e c.1 h)

pub get_elem?-lt {ℓ} :
    {A : Type ℓ} (xs : List A) (k : ℕ) → k < length xs → (x : A) × (get_elem? xs k ≡ some x)
get_elem?-lt [] k h = absurd (omega arith)
get_elem?-lt (x ∷ xs) zero h = (x, refl)
get_elem?-lt (x ∷ xs) (suc k) h = get_elem?-lt xs k (omega arith)

pub get_elem?-ge {ℓ} : {A : Type ℓ} (xs : List A) (k : ℕ) → length xs ≤ k → get_elem? xs k ≡ none
get_elem?-ge [] k h = refl
get_elem?-ge (x ∷ xs) zero h = absurd (omega arith)
get_elem?-ge (x ∷ xs) (suc k) h = get_elem?-ge xs k (omega arith)
