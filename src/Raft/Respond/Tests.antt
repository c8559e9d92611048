-- ===== src/Raft/Respond/Tests.antt =====
-- A follower that has its one entry, a configuration, to apply.
use draft.Base.{◌≡◌, some, [], ◌∷◌, arith}
use draft.Log.Tests.{config_a, one_entry-Rep}
use draft.Raft.Types.{Raft, follower}
use draft.Raft.Tests.{server}
use draft.Raft.Respond.{apply_log_committed}
use draft.Raft.Respond.Applied.{for_service, apply_log_committed_lem}

abbrev committed : Raft
committed = record (server follower) { commit_index = 1; last_applied = 0 }

apply_log_committed_lem_example :
    apply_log_committed committed
    ≡ some (record committed { last_applied = 1 }, for_service (config_a ∷ []))
apply_log_committed_lem_example =
    apply_log_committed_lem committed (config_a ∷ []) one_entry-Rep (omega arith) (omega arith)
      (omega arith)
