-- ===== src/Http/Sent.antt =====
-- What becomes of the text that an operator gives the client.
use draft.Base.{Option, some, ◌++◌, Str, codes, if◌then◌else◌}
use draft.Log.Room.{RcErrno, is_good}
use draft.Http.{host_of}
use draft.Http.Serve.{Outside}
use draft.Raft.Types.{Raft}

-- How the server answers that has appended the entry.
abbrev pub answered : Outside → Raft → Raft × RcErrno → Option (Raft × Str)
answered out r (r', rc) = some (
  r',
  (if is_good rc then codes "OK " else codes "ERROR ")
      ++ host_of r.leader_id
      ++ codes ":"
      ++ out.http_port,
)
