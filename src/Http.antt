-- ===== src/Http.antt =====
-- raft/config_server.hpp, raft/config_client.cpp, and the handlers of raft/raft_impl.hpp for requests of
-- operators. The HTTP messages are those of Boost.Beast; here a request is its method and its target,
-- and a reply is its body.
pub mod Append
pub mod Serve
pub mod Quiet
pub mod Dots
pub mod Sent
mod Tests
use draft.Base.{
  ℕ, zero, suc, ◌-◌, Bool, true, false, not, ◌&&◌, Option, none, some, List, [], ◌∷◌, ◌++◌, Str,
  str_eq, codes, length, ltb, leb, ◌==◌, if◌then◌else◌,
}
use draft.Log.{◌>>=◌}
use draft.Log.Room.{Os, is_good}
use draft.Split.{split}
use draft.Raft.Types.{Raft, is_leader}
use draft.Raft.Member.{append_entry}

unfoldable pub starts_with : Str → Str → Bool
starts_with [] s = true
starts_with (a ∷ w) [] = false
starts_with (a ∷ w) (c ∷ s) = a == c && starts_with w s

-- The loop of `replace_all`, with the number of bytes that a match still covers.
unfoldable pub replace_from : Str → Str → ℕ → Str → Str
replace_from what with_text skip [] = []
replace_from what with_text (suc skip) (c ∷ s) = replace_from what with_text skip s
replace_from what with_text zero (c ∷ s) =
    let behind = replace_from what with_text (length what - 1) s in
    let next = replace_from what with_text zero s in
    if starts_with what (c ∷ s) then with_text ++ behind else c ∷ next

-- `replace_all`, of a text that is not empty.
unfoldable pub replace_all : Str → Str → Str → Str
replace_all what with_text s = replace_from what with_text zero s

-- The target that the client makes for `append`.
unfoldable pub append_target : Str → Str
append_target content =
    codes "/append"
    ++ b'?' ∷ (codes "content" ++ b'=' ∷ replace_all (codes " ") (codes "%20") content)

-- What stands before and behind the last `sep`: `find_last_of` and `substr`.
unfoldable pub cut_last : ℕ → Str → Option (Str × Str)
cut_last sep [] = none
cut_last sep (c ∷ s) = elim (cut_last sep s) [
  | some (before, behind) ↦ some (c ∷ before, behind)
  | none ↦ if c == sep then some ([], s) else none
]

pub data Handler : Type 0 where
  handle_show_states handle_show_servers handle_append_entry handle_add_server handle_del_server :
      Handler
  handle_leadership_transfer : Handler

-- `register_http_service`: the handlers by path.
unfoldable pub handler_of : Str → Option Handler
handler_of uri =
    if str_eq uri (codes "/")
    then some handle_show_states
    else if str_eq uri (codes "/show_states")
    then some handle_show_states
    else if str_eq uri (codes "/show_servers")
    then some handle_show_servers
    else if str_eq uri (codes "/append")
    then some handle_append_entry
    else if str_eq uri (codes "/add_server")
    then some handle_add_server
    else if str_eq uri (codes "/del_server")
    then some handle_del_server
    else if str_eq uri (codes "/leadership_transfer")
    then some handle_leadership_transfer
    else none

abbrev pub path_of : Str → Option (Str × Str) → Str
path_of target none = target
path_of target (some (uri, params)) = uri

-- `dispatch`; `none` is the reply that the path was not found.
unfoldable pub dispatch : Str → Option Handler
dispatch target = handler_of (path_of target (cut_last b'?' target))

abbrev pub value_of : Str → List Str → Option Str
value_of key (k ∷ v ∷ []) = if str_eq k key then some v else none
value_of key _ = none

abbrev pub value_or_else : Str → Option Str → Str
value_or_else s none = s
value_or_else s (some v) = v

-- `find_request_params`, on the parts between `&`.
unfoldable pub find_param : List Str → Str → Str
find_param [] key = []
find_param (p ∷ ps) key = value_or_else (find_param ps key) (value_of key (split b'=' p))

unfoldable pub find_request_params : Str → Str → Str
find_request_params params key = find_param (split b'&' params) key

abbrev pub param_of : Str → Option (Str × Str) → Str
param_of expr none = []
param_of expr (some (uri, params)) = find_request_params params expr

-- The parameter of `handle_request`, empty where there is none.
unfoldable pub parameter : Str → Str → Str
parameter target expr = param_of expr (cut_last b'?' target)

-- The text that `handle_append` appends.
unfoldable pub appended_text : Str → Str
appended_text target = replace_all (codes "%20") (codes " ") (parameter target (codes "content"))

abbrev upper : ℕ → ℕ
upper c = if leb b'a' c && leb c b'z' then c - 32 else c

unfoldable pub str_toupper : Str → Str
str_toupper [] = []
str_toupper (c ∷ s) = upper c ∷ str_toupper s

-- `leader_.substr(0, leader_.find(":"))`
unfoldable pub host_of : Str → Str
host_of [] = []
host_of (c ∷ s) = let rest = host_of s in if c == b':' then [] else c ∷ rest
