-- ===== src/Raft/Commit/Bounds.antt =====
-- The bounds of the search for the index to commit, and what the search finds.
use draft.Base.{
  ℕ, zero, suc, ◌+◌, ◌-◌, ◌≤◌, ◌<◌, ◌≡◌, refl, sym, ap, subst, ◌∙◌, ◌⊎◌, inl, inr, Bool, true,
  false, not, ◌&&◌, Option, none, some, [], ◌∷◌, Str, str_eq, min, max, ltb, leb, ◌==◌,
  if◌then◌else◌, arith, Bool-cases,
}
use mathlib.Core.Option.{some-injective}
use draft.Log.{lookup, ◌>>=◌}
use draft.Log.Entry.{LogEntry}
use draft.Raft.Types.{Node, Raft}
use draft.Raft.Cluster.{Cluster}
use draft.Raft.Commit.{match_bounds, has_majority, scan}

-- The greatest index up to `top`, within `rounds` of it, that a majority holds.
abbrev pub IsBest : Raft → ℕ → ℕ → Option ℕ → Type 0
IsBest r rounds top none = (k : ℕ) → k ≤ top → top < k + rounds → has_majority r k ≡ false
IsBest r rounds top (some j) =
    (has_majority r j ≡ true)
    × (j ≤ top)
    × (top < j + rounds)
    × ((k : ℕ) → j < k → k ≤ top → has_majority r k ≡ false)

IsBest-below :
    (r : Raft) (rounds top : ℕ) (o : Option ℕ)
    → has_majority r top ≡ false
    → IsBest r rounds (top - 1) o
    → suc rounds ≤ suc top
    → IsBest r (suc rounds) top o
IsBest-below r rounds top none h best bound = λ k le lt. elim (Bool-cases (k == top)) [
  | inl e ↦ ap (has_majority r) (ground arith) ∙ h
  | inr e ↦ best k (ground arith) (ground arith)
]
IsBest-below r rounds top (some j) h best bound = (
  best.0,
  omega arith,
  omega arith,
  λ k lt le. elim (Bool-cases (k == top)) [
    | inl e ↦ ap (has_majority r) (ground arith) ∙ h
    | inr e ↦ best.3 k lt (ground arith)
  ],
)

pub scan-IsBest :
    (r : Raft) (rounds top : ℕ) → rounds ≤ suc top → IsBest r rounds top (scan r rounds top)
unfolding scan
scan-IsBest r zero top h = λ k le lt. absurd (omega arith)
scan-IsBest r (suc rounds) top h =
    pick (has_majority r top) refl (scan-IsBest r rounds (top - 1) (omega arith))
  where
    pick :
        (b : Bool)
        → has_majority r top ≡ b
        → IsBest r rounds (top - 1) (scan r rounds (top - 1))
        → IsBest r (suc rounds) top (if b then some top else scan r rounds (top - 1))
    pick true e _ = (e, omega arith, omega arith, λ k lt le. absurd (omega arith))
    pick false e below = IsBest-below r rounds top (scan r rounds (top - 1)) e below h

-- The match index above the commit index of another member, whose entry has the current term.
abbrev pub Matches : Raft → Cluster → ℕ → Type 0
Matches r [] m = ⊥
Matches r ((a, n) ∷ c) m =
    ((str_eq n.id r.self_id ≡ false)
      × (n.match_index ≡ m)
      × (r.commit_index < m)
      × ((e : LogEntry) × (lookup r.log m ≡ some e) × (e.term ≡ r.curr_term)))
    ⊎ Matches r c m

-- The bounds of the search, which starts from `lo` and `hi`: the least and the greatest of those and the
-- match indexes.
abbrev pub AreBounds : Raft → Cluster → ℕ → ℕ → Option (ℕ × ℕ) → Type 0
AreBounds r c lo hi none = Unit
AreBounds r c lo hi (some (lo', hi')) =
    ((lo' ≡ lo) ⊎ ((lo' ≤ lo) × Matches r c lo'))
    × ((hi' ≡ hi) ⊎ Matches r c hi')
    × ((lo' ≤ lo) × (hi ≤ hi') × ((m : ℕ) → Matches r c m → (lo' ≤ m) × (m ≤ hi')))

-- A member that matches nowhere leaves the bounds.
AreBounds-skip :
    (r : Raft) (a : Str) (n : Node) (c : Cluster) (lo hi : ℕ) (o : Option (ℕ × ℕ))
    → ((m : ℕ) → Matches r ((a, n) ∷ c) m → Matches r c m)
    → AreBounds r c lo hi o
    → AreBounds r ((a, n) ∷ c) lo hi o
AreBounds-skip r a n c lo hi none away h = tt
AreBounds-skip r a n c lo hi (some (lo', hi')) away (p, q, (le, ge, all)) =
    (low p, high q, (le, ge, λ m is. all m (away m is)))
  where
    low :
        (lo' ≡ lo) ⊎ ((lo' ≤ lo) × Matches r c lo')
        → (lo' ≡ lo) ⊎ ((lo' ≤ lo) × Matches r ((a, n) ∷ c) lo')
    low (inl e) = inl e
    low (inr (e, x)) = inr (e, inr x)

    high : (hi' ≡ hi) ⊎ Matches r c hi' → (hi' ≡ hi) ⊎ Matches r ((a, n) ∷ c) hi'
    high (inl e) = inl e
    high (inr x) = inr (inr x)

Matches-here :
    (r : Raft) (a : Str) (n : Node) (c : Cluster) (e : LogEntry) (m : ℕ)
    → str_eq n.id r.self_id ≡ false
    → ltb r.commit_index n.match_index ≡ true
    → lookup r.log n.match_index ≡ some e
    → e.term == r.curr_term ≡ true
    → n.match_index ≡ m
    → Matches r ((a, n) ∷ c) m
Matches-here r a n c e m other lt found hit is =
    subst (Matches r ((a, n) ∷ c)) is
      (inl (other, refl, (ground arith), (e, found, (ground arith))))

AreBounds-hit :
    (r : Raft) (a : Str) (n : Node) (c : Cluster) (lo hi : ℕ) (o : Option (ℕ × ℕ))
    → ((m : ℕ) → n.match_index ≡ m → Matches r ((a, n) ∷ c) m)
    → AreBounds r c (min lo n.match_index) (max hi n.match_index) o
    → AreBounds r ((a, n) ∷ c) lo hi o
AreBounds-hit r a n c lo hi none here h = tt
AreBounds-hit r a n c lo hi (some (lo', hi')) here (p, q, (le, ge, all)) =
    (low p, high q, (ground arith, ground arith, within))
  where
    low :
        (lo' ≡ min lo n.match_index) ⊎ ((lo' ≤ min lo n.match_index) × Matches r c lo')
        → (lo' ≡ lo) ⊎ ((lo' ≤ lo) × Matches r ((a, n) ∷ c) lo')
    low (inr p) = inr ((ground arith), inr p.1)
    low (inl p) = elim (Bool-cases (leb lo n.match_index)) [
      | inl le ↦ inl (ground arith)
      | inr gt ↦ inr ((ground arith), here lo' (ground arith))
    ]

    high : (hi' ≡ max hi n.match_index) ⊎ Matches r c hi' → (hi' ≡ hi) ⊎ Matches r ((a, n) ∷ c) hi'
    high (inr p) = inr (inr p)
    high (inl p) = elim (Bool-cases (leb n.match_index hi)) [
      | inl le ↦ inl (ground arith)
      | inr gt ↦ inr (here hi' (ground arith))
    ]

    within : (m : ℕ) → Matches r ((a, n) ∷ c) m → (lo' ≤ m) × (m ≤ hi')
    within m (inl is) = (ground (arith, is.1), ground (arith, is.1))
    within m (inr is) = all m is

AreBounds-found :
    (r : Raft) (a : Str) (n : Node) (c : Cluster) (lo hi : ℕ) (e : LogEntry) (hit : Bool)
    (o : Option (ℕ × ℕ))
    → (hit ≡ true → (m : ℕ) → n.match_index ≡ m → Matches r ((a, n) ∷ c) m)
    → (hit ≡ false → (m : ℕ) → Matches r ((a, n) ∷ c) m → Matches r c m)
    → AreBounds r c
        (if hit then min lo n.match_index else lo)
        (if hit then max hi n.match_index else hi)
        o
    → AreBounds r ((a, n) ∷ c) lo hi o
AreBounds-found r a n c lo hi e true o here away h = AreBounds-hit r a n c lo hi o (here refl) h
AreBounds-found r a n c lo hi e false o here away h = AreBounds-skip r a n c lo hi o (away refl) h

pub match_bounds-AreBounds :
    (r : Raft) (c : Cluster) (lo hi : ℕ) → AreBounds r c lo hi (match_bounds r c lo hi)
unfolding match_bounds
match_bounds-AreBounds r [] lo hi =
    (inl refl, inl refl, (omega arith, omega arith, λ m is. absurd is))
match_bounds-AreBounds r ((a, n) ∷ c) lo hi =
    go (str_eq n.id r.self_id) (ltb r.commit_index n.match_index) (lookup r.log n.match_index) refl
      refl refl (match_bounds-AreBounds r c)
  where
    own-no : str_eq n.id r.self_id ≡ true → (m : ℕ) → Matches r ((a, n) ∷ c) m → Matches r c m
    own-no own m (inl is) = absurd (cc (is.0))
    own-no own m (inr is) = is

    old-no :
        ltb r.commit_index n.match_index ≡ false
        → (m : ℕ) → Matches r ((a, n) ∷ c) m
        → Matches r c m
    old-no old m (inl is) = absurd (ground (arith, is.1, is.2))
    old-no old m (inr is) = is

    term-no :
        (e : LogEntry)
        → lookup r.log n.match_index ≡ some e
        → (e.term == r.curr_term) ≡ false
        → (m : ℕ) → Matches r ((a, n) ∷ c) m
        → Matches r c m
    term-no e found ne m (inl (_, at, _, (e', found', same))) =
        let is : e ≡ e' = some-injective _ _ (sym found ∙ ap (lookup r.log) at ∙ found') in
        let terms = ap (λ (x : LogEntry). x.term) is in absurd (ground arith)
    term-no e found ne m (inr is) = is

    go :
        (own above : Bool) (o : Option LogEntry)
        → str_eq n.id r.self_id ≡ own
        → ltb r.commit_index n.match_index ≡ above
        → lookup r.log n.match_index ≡ o
        → ((lo hi : ℕ) → AreBounds r c lo hi (match_bounds r c lo hi))
        → AreBounds r ((a, n) ∷ c) lo hi (
            if not own && above
            then o >>= (λ e.
              match_bounds r c
                (if e.term == r.curr_term then min lo n.match_index else lo)
                (if e.term == r.curr_term then max hi n.match_index else hi))
            else match_bounds r c lo hi)
    go true above o own _ _ rest = AreBounds-skip r a n c lo hi _ (own-no own) (rest lo hi)
    go false false o _ old _ rest = AreBounds-skip r a n c lo hi _ (old-no old) (rest lo hi)
    go false true none _ _ _ rest = tt
    go false true (some e) other lt found rest =
        AreBounds-found r a n c lo hi e (e.term == r.curr_term) _
          (λ hit m is. Matches-here r a n c e m other lt found hit is) (term-no e found) (rest _ _)
