-- ===== src/Raft/Commit/Majority.antt =====
-- What the search for the index to commit finds.
use draft.Base.{ℕ, ◌≤◌, ◌<◌, ◌≡◌, ◌⊎◌, true, false, Option}
use draft.Log.{◌>>=◌}
use draft.Raft.Types.{Raft}
use draft.Raft.Commit.{has_majority}
use draft.Raft.Commit.Bounds.{Matches}

-- Where the commit index moves, with `lo` the least of the last index and the match indexes of the other
-- members whose entry there has the current term, and `hi` the greatest of these match indexes: to the
-- greatest index from `lo` to `hi` that a majority holds.
abbrev pub IsCommit : Raft → ℕ → ℕ → Type 0
IsCommit r last j =
    (lo : ℕ) × (hi : ℕ) × ((lo ≡ last) ⊎ ((lo ≤ last) × Matches r r.cluster lo))
    × ((hi ≡ 0) ⊎ Matches r r.cluster hi)
    × ((m : ℕ) → Matches r r.cluster m → (lo ≤ m) × (m ≤ hi))
    × (lo ≤ j)
    × (j ≤ hi)
    × (has_majority r j ≡ true)
    × ((k : ℕ) → j < k → k ≤ hi → has_majority r k ≡ false)
