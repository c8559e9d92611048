-- ===== src/Raft/Respond.antt =====
-- `apply_log_committed`: the entries that the service is handed, in the order of their indices.
pub mod Applied
mod Tests
use draft.Base.{ℕ, zero, suc, ◌+◌, ◌-◌, Option, some, List, [], ◌∷◌, if◌then◌else◌}
use draft.Log.{lookup, ◌>>=◌}
use draft.Log.Entry.{LogEntry}
use draft.Raft.Types.{Raft}

-- The inner loop, on the number of indices between `last_applied` and the commit index.
unfoldable pub apply_next : ℕ → Raft → Option (Raft × List LogEntry)
apply_next zero r = some (r, [])
apply_next (suc left) r = do
  e ← lookup r.log (r.last_applied + 1)
  (r', es) ← apply_next left (record r { last_applied = r.last_applied + 1 })
  some (r', if e.cfg then es else e ∷ es)

unfoldable pub apply_log_committed : Raft → Option (Raft × List LogEntry)
unfolding apply_next
apply_log_committed r = apply_next (r.commit_index - r.last_applied) r
