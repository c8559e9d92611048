-- ===== src/Log/Chains.antt =====
-- The chain of configuration entries, as entries are added.
use native.Mathlib.Nat.{add-zero, zero-add}
use draft.Base.{
  ℕ, zero, suc, ◌+◌, ◌-◌, ◌≤◌, ◌<◌, ◌≡◌, refl, ap, ◌∙◌, inl, inr, true, false, some, List, [], ◌∷◌,
  ◌++◌, length, get_elem?, leb, ◌==◌, if◌then◌else◌, arith, Bool-cases, All,
}
use draft.Log.Entry.{LogEntry, prev_cfg}
use draft.Log.View.{Counts, Chain, stop, link, entry_at}

-- Entries that can be appended behind `es`: sizes of records, and indices that count on.
abbrev pub IsBatch : ℕ → List LogEntry → Type 0
IsBatch n [] = Unit
IsBatch n (e ∷ es) = (8 ≤ e.size) × (e.index ≡ n) × IsBatch (suc n) es

-- The index of the last configuration entry of the list, the old one if there is none.
unfoldable pub last_cfg : ℕ → List LogEntry → ℕ
last_cfg c [] = c
last_cfg c (e ∷ es) = last_cfg (if e.cfg then e.index else c) es

IsBatch-Counts : (n : ℕ) (es : List LogEntry) → IsBatch n es → Counts n es
IsBatch-Counts n [] b = tt
IsBatch-Counts n (e ∷ es) b = (b.1, IsBatch-Counts (suc n) es b.2)

pub Counts-append :
    (n : ℕ) (es entries : List LogEntry)
    → Counts n es
    → IsBatch (n + length es) entries
    → Counts n (es ++ entries)
Counts-append n [] [] c b = tt
Counts-append n [] (e ∷ entries) c b = IsBatch-Counts n (e ∷ entries) (rw add-zero at b)
Counts-append n (x ∷ es) entries c b =
    let k : n + suc (length es) ≡ suc n + length es = omega arith in
    (c.0, Counts-append (suc n) es entries c.1 (rw k at b))

-- The configuration entries of a batch point back into the log that it is made for.
abbrev pub PointsBack : ℕ → List LogEntry → List LogEntry → Type 0
PointsBack base es = All (λ e. e.cfg ≡ true → (prev_cfg e < e.index) × Chain base es (prev_cfg e))

get_elem?-append_lt :
    (xs ys : List LogEntry) (k : ℕ) (e : LogEntry)
    → get_elem? xs k ≡ some e
    → get_elem? (xs ++ ys) k ≡ some e
get_elem?-append_lt [] ys k e h = cc
get_elem?-append_lt (x ∷ xs) ys zero e h = h
get_elem?-append_lt (x ∷ xs) ys (suc k) e h = get_elem?-append_lt xs ys k e h

entry_at-append :
    (base i : ℕ) (es xs : List LogEntry) (e : LogEntry)
    → entry_at base es i ≡ some e
    → base < i
    → entry_at base (es ++ xs) i ≡ some e
unfolding entry_at
entry_at-append base i es xs e h lt = ground (arith, get_elem?-append_lt es xs (i - base - 1) e)

pub Chain-append :
    {base : ℕ} {es : List LogEntry} {i : ℕ} (xs : List LogEntry)
    → Chain base es i
    → Chain base (es ++ xs) i
Chain-append xs (stop h) = stop h
Chain-append {base} {es} {i} xs (link e lt h p c) =
    link e lt (entry_at-append base i es xs e h lt) p (Chain-append xs c)

pub get_elem?-append_ge :
    (xs ys : List LogEntry) (k : ℕ) → get_elem? (xs ++ ys) (length xs + k) ≡ get_elem? ys k
get_elem?-append_ge [] ys k = rw zero-add
get_elem?-append_ge (x ∷ xs) ys k =
    let j : suc (length xs) + k ≡ suc (length xs + k) = omega arith in
    rw j (get_elem?-append_ge xs ys k)

pub entry_at-middle :
    (base n : ℕ) (es entries : List LogEntry) (k : ℕ) (e : LogEntry)
    → n ≡ suc base + length es
    → get_elem? entries k ≡ some e
    → entry_at base (es ++ entries) (n + k) ≡ some e
unfolding entry_at
entry_at-middle base n es entries k e q h =
    let z : (n + k == 0) ≡ false = ground arith in
    let b : leb (n + k) base ≡ false = ground arith in
    let j : n + k - base - 1 ≡ length es + k = omega arith in
    rw (z, b) (rw j (get_elem?-append_ge es entries k ∙ h))

module _ (base : ℕ) (es full : List LogEntry)
    (mono : (i : ℕ) → Chain base es i → Chain base full i) where
  -- After a batch the last configuration entry heads a chain again.
  pub Chain-last_cfg :
      (n : ℕ) (entries : List LogEntry) (c : ℕ)
      → base < n
      → ((k : ℕ) (e : LogEntry)
          → get_elem? entries k ≡ some e
          → entry_at base full (n + k) ≡ some e)
      → IsBatch n entries
      → PointsBack base es entries
      → c < n
      → Chain base full c
      → Chain base full (last_cfg c entries) × (last_cfg c entries < n + length entries)
  unfolding last_cfg
  Chain-last_cfg n [] c bn at b p le ch = (ch, omega arith)
  Chain-last_cfg n (e ∷ entries) c bn at b p le ch =
      let at' : (k : ℕ) (x : LogEntry)
          → get_elem? entries k ≡ some x
          → entry_at base full (suc n + k) ≡ some x =
        λ k x h. (let j : suc n + k ≡ n + suc k = omega arith in rw j (at (suc k) x h)) in
      let here : entry_at base full e.index ≡ some e =
        (let j : e.index ≡ n + 0 = omega (arith, b.1) in ap (entry_at base full) j ∙ at 0 e refl) in
      elim (Bool-cases e.cfg) [
        | inl t ↦
            let (le', ch') = p.0 t in
            let (r, s) =
              Chain-last_cfg (suc n) entries e.index (omega arith) at' b.2 p.1 (omega (arith, b.1))
                (link e (omega (arith, b.1)) here le' (mono (prev_cfg e) ch')) in
            rw t (r, omega (arith, s))
        | inr f ↦
            let (r, s) =
              Chain-last_cfg (suc n) entries c (omega arith) at' b.2 p.1 (omega arith) ch in
            rw f (r, omega (arith, s))
      ]
