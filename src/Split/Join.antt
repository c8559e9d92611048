-- ===== src/Split/Join.antt =====
-- Joining texts with a separator, and `split` of what was joined.
use draft.Base.{ℕ, ◌≡◌, refl, ap, ◌∙◌, false, List, [], ◌∷◌, ◌++◌, Str, ◌==◌, ==_refl, All, arith}
use draft.Split.{split}

abbrev pub join : ℕ → List Str → Str
join sep [] = []
join sep (s ∷ []) = s
join sep (s ∷ t ∷ parts) = s ++ (sep ∷ join sep (t ∷ parts))

-- A text without the separator.
abbrev pub IsPart : ℕ → Str → Type 0
IsPart sep = All (λ c. (c == sep) ≡ false)

split_first :
    (sep : ℕ) (s rest : Str) → IsPart sep s → split sep (s ++ (sep ∷ rest)) ≡ s ∷ split sep rest
unfolding split
split_first sep [] rest h = ground (arith, ==_refl sep)
split_first sep (c ∷ s) rest h = ground (arith, split_first sep s rest h.1)

split_last : (sep : ℕ) (s : Str) → IsPart sep s → split sep s ≡ s ∷ []
unfolding split
split_last sep [] h = refl
split_last sep (c ∷ s) h = ground (arith, split_last sep s h.1)

-- Splitting what was joined gives the parts back, if there is one at least and none holds the separator.
pub split-join :
    (sep : ℕ) (s : Str) (parts : List Str)
    → IsPart sep s
    → All (IsPart sep) parts
    → split sep (join sep (s ∷ parts)) ≡ s ∷ parts
split-join sep s [] h hs = split_last sep s h
split-join sep s (t ∷ parts) h hs =
    split_first sep s (join sep (t ∷ parts)) h
    ∙ ap (λ (ps : List Str). s ∷ ps) (split-join sep t parts hs.0 hs.1)
