-- ===== src/Raft/Startup/Tests.antt =====
-- A server that starts on the log with one configuration entry.
use draft.Raft.Types.{Raft}
