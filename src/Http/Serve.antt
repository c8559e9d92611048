-- ===== src/Http/Serve.antt =====
-- The handlers of the HTTP server: `confirm`, `handle_request` and the pages (raft/raft_impl.hpp).
use draft.Base.{
  Bool, true, false, not, ◌&&◌, ◌||◌, Option, none, some, List, [], ◌∷◌, ◌++◌, Str, codes, ◌==◌,
  if◌then◌else◌,
}
use draft.Log.{◌>>=◌}
use draft.Log.Room.{Os, is_good}
use draft.Http.{
  Handler, handle_show_states, handle_show_servers, handle_append_entry, handle_add_server,
  handle_del_server, handle_leadership_transfer, dispatch, parameter, appended_text, str_toupper,
  host_of, append_target,
}
use draft.Split.{split}
use draft.Raft.Types.{Raft, is_leader}
use draft.Raft.Cluster.{serialize_configuration}
use draft.Raft.Member.{append_entry, add_server, del_server, leadership_transfer, Request}

-- `req.method()`.
pub data Method : Type 0 where
  get head other_method : Method

-- `target.find("..") != npos`
unfoldable pub has_dots : Str → Bool
has_dots [] = false
has_dots (c ∷ []) = false
has_dots (c ∷ d ∷ s) = c == b'.' && d == b'.' || has_dots (d ∷ s)

abbrev pub starts_with_slash : Str → Bool
starts_with_slash [] = false
starts_with_slash (c ∷ s) = c == b'/'

abbrev pub is_reading : Method → Bool
is_reading get = true
is_reading head = true
is_reading other_method = false

-- `confirm`: the body of the reply that refuses the request, or nothing.
unfoldable pub confirm : Method → Str → Option Str
unfolding has_dots
confirm method target =
    if not (is_reading method)
    then some (codes "Unknown HTTP method")
    else if not (starts_with_slash target) || has_dots target
    then some (codes "illegal request target")
    else none

pub data Op : Type 0 where
  add del transfer append : Op

-- The name of the parameter.
abbrev pub expr_of : Op → Str
expr_of append = codes "content"
expr_of _ = codes "server"

-- What the server asks of the system: whether the path of the data is there, and `is_ipv4`.
pub record Outside : Type 0 where
  pub os : Os
  pub exists : Bool
  pub checks_ip : Str → Bool
  pub http_port : Str
  -- The page that `handle_show_states` makes.
  pub states_page : Raft → Str

abbrev pub replied : Request → Option (Raft × Str)
replied none = none
replied (some (r, rc, text)) = some (r, text)

-- The entry that `handle_append` appends, and the body.
unfoldable pub append_content : Outside → Str → Raft → Option (Raft × Str)
append_content out target r = do
  (r', rc) ← append_entry out.os (appended_text target) false r
  some (
    r',
    (if is_good rc then codes "OK " else codes "ERROR ")
        ++ host_of r.leader_id
        ++ codes ":"
        ++ out.http_port,
  )

unfoldable pub perform : Outside → Op → Str → Str → Raft → Option (Raft × Str)
unfolding append_content
perform out add target server r = replied (add_server out.exists out.checks_ip server r)
perform out del target server r = replied (del_server out.os server r)
perform out transfer target server r = replied (leadership_transfer server r)
perform out append target content r = append_content out target r

abbrev pub with_parameter : Outside → Op → Str → Str → Raft → Option (Raft × Str)
with_parameter out op target [] r =
    some (r, str_toupper (codes "empty_" ++ (expr_of op ++ r.leader_id)))
with_parameter out op target (c ∷ s) r = perform out op target (c ∷ s) r

abbrev pub confirmed : Outside → Op → Option Str → Str → Raft → Option (Raft × Str)
confirmed out op (some why) target r = some (r, why)
confirmed out op none target r =
    if not (is_leader r.role)
    then some (r, codes "NOT_LEADER " ++ r.leader_id)
    else with_parameter out op target (parameter target (expr_of op)) r

unfoldable pub handle_request : Outside → Op → Method → Str → Raft → Option (Raft × Str)
unfolding perform
handle_request out op method target r = confirmed out op (confirm method target) target r

-- A page, which is a text of the state.
abbrev pub show : Option Str → Str → Str
show (some why) page = why
show none page = page

abbrev pub run_handler : Outside → Option Handler → Method → Str → Raft → Option (Raft × Str)
run_handler out none method target r = some (r, target ++ codes "' was not found.")
run_handler out (some handle_show_states) method target r =
    some (r, show (confirm method target) (out.states_page r))
run_handler out (some handle_show_servers) method target r =
    some (r, show (confirm method target) (serialize_configuration r.cluster))
run_handler out (some handle_append_entry) method target r =
    handle_request out append method target r
run_handler out (some handle_add_server) method target r = handle_request out add method target r
run_handler out (some handle_del_server) method target r = handle_request out del method target r
run_handler out (some handle_leadership_transfer) method target r =
    handle_request out transfer method target r

-- `dispatch` with the handler that it calls.
unfoldable pub serve : Outside → Method → Str → Raft → Option (Raft × Str)
unfolding handle_request
serve out method target r = run_handler out (dispatch target) method target r

-- The choices of the configuration client, with the texts that the command line gives.
pub data Choice : Type 0 where
  show_states show_servers : Choice
  append_text target_server add_servers del_servers : Str → Choice

abbrev pub each_server : Str → List Str → List Str
each_server target [] = []
each_server target (s ∷ servers) = (target ++ s) ∷ each_server target servers

-- `main` of the client: the targets that it requests, in this order.
unfoldable pub targets : Choice → List Str
targets show_states = codes "/show_states" ∷ []
targets show_servers = codes "/show_servers" ∷ []
targets (append_text content) = append_target content ∷ []
targets (target_server s) = (codes "/leadership_transfer?server=" ++ s) ∷ []
targets (add_servers servers) = each_server (codes "/add_server?server=") (split b',' servers)
targets (del_servers servers) = each_server (codes "/del_server?server=") (split b',' servers)
