-- ===== src/Http/Tests.antt =====
-- A text with a blank, and a request of an operator.
use draft.Base.{codes, true, []}
use draft.Http.Serve.{Outside, get, serve}
use draft.Http.Quiet.{Guarded, serve-Guarded}
use draft.Log.Tests.{small_disk}
use draft.Raft.Types.{leader}
use draft.Raft.Tests.{server}

abbrev of_system : Outside
of_system = record {
  os = small_disk;
  exists = true;
  checks_ip = λ address. true;
  http_port = codes "8080";
  states_page = λ r. [];
}

serve-Guarded_example :
    Guarded get
      (codes "/append?content=x")
      (server leader)
      (serve of_system get (codes "/append?content=x") (server leader))
serve-Guarded_example = serve-Guarded of_system get (codes "/append?content=x") (server leader)
