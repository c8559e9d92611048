-- ===== src/Raft/Startup/Members.antt =====
-- The members that a server starts with.
use draft.Base.{◌≡◌, ◌||◌, Option, some, List, Str}
use draft.Raft.Types.{Raft}
use draft.Raft.Cluster.{Cluster, contains}
use draft.Raft.Configure.{mem}

-- The server `t` is `s` with the members of `bs` beside its own.
pub record Joins (bs : List Str) (s t : Raft) : Type 0 where
  pub log : t.log ≡ s.log
  pub commit_index : t.commit_index ≡ s.commit_index
  pub last_applied : t.last_applied ≡ s.last_applied
  pub cluster : (a : Str) → contains a t.cluster ≡ (contains a s.cluster || mem a bs)

abbrev pub Joined : List Str → Raft → Option Raft → Type 0
Joined bs s o = (t : Raft) × (o ≡ some t) × Joins bs s t
