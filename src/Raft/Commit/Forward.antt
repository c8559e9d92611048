-- ===== src/Raft/Commit/Forward.antt =====
-- How the leader's commit index moves.
use draft.Base.{Option}
use draft.Log.{◌>>=◌}
use draft.Raft.Types.{Raft}
use draft.Raft.Cluster.{Cluster}
