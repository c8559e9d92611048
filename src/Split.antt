-- ===== src/Split.antt =====
-- raft/utils.hpp: `split`, and the joining of parts that it undoes.
pub mod Join
use draft.Base.{ℕ, List, [], ◌∷◌, Str, ◌==◌, if◌then◌else◌}

-- A byte at the front of the first part.
abbrev pub onto_first : ℕ → List Str → List Str
onto_first c [] = (c ∷ []) ∷ []
onto_first c (s ∷ parts) = (c ∷ s) ∷ parts

-- `split` at each byte `sep`: the texts between them, the whole text where there is none.
unfoldable pub split : ℕ → Str → List Str
split sep [] = [] ∷ []
split sep (c ∷ s) = if c == sep then [] ∷ split sep s else onto_first c (split sep s)
