-- ===== src/Storage.antt =====
-- server/storage_server.hpp: the key-value server on top of raft, and its sessions with clients.
--
-- A session is an object that `sessions`, `commands` and the pending calls of its socket share: the
-- server keeps the objects by number. `reading` and `writing` say that a call of `async_read_some` or
-- `async_write` of the session waits. Raft is what the server asks of it, as the record RaftView.
pub mod Input
pub mod Execute
pub mod Steps
pub mod Calls
pub mod Waiting
pub mod Agree
pub mod Runs
pub mod Replies
pub mod Snapshot
pub mod Restore
mod Tests
use draft.Base.{
  ℕ, suc, Bool, true, false, not, ◌&&◌, ◌||◌, Option, none, some, List, [], ◌∷◌, ◌++◌, Str, codes,
  str_eq, ◌==◌, if◌then◌else◌,
}
use draft.Command.{
  Command, CommandType, get, set, del, unknown, Parser, ResultType, good, bad, need_more, parse,
  fresh,
}
use draft.Table.{Table, get_value, assign, erase_key}
use Input.{read_word, skip_one, read_line}

pub record RaftView : Type 0 where
  pub is_leader : Bool
  pub leader : Str
  pub append : Str → ℕ
  pub log_compaction_enabled : Bool
  pub commit_index : ℕ

pub record Session : Type 0 where
  pub parser : Parser
  pub reply : Str
  pub reading : Bool
  pub writing : Bool

pub record Server : Type 0 where
  pub db : Table
  pub commands : List (ℕ × ℕ)
  pub sessions : List ℕ
  pub session : ℕ → Session
  pub made : ℕ
  pub path : Str

abbrev pub with_session : ℕ → (Session → Session) → Server → Server
with_session s f server = record server {
  session = λ n. if n == s then f (server.session n) else server.session n;
}

abbrev pub find_command : ℕ → List (ℕ × ℕ) → Option ℕ
find_command i [] = none
find_command i ((j, s) ∷ cs) = let rest = find_command i cs in if i == j then some s else rest

-- `commands.insert`: a session that is there already stays.
abbrev pub insert_command : ℕ → ℕ → List (ℕ × ℕ) → List (ℕ × ℕ)
insert_command i s cs = elim (find_command i cs) [ none ↦ (i, s) ∷ cs | some t ↦ cs ]

abbrev pub erase_command : ℕ → List (ℕ × ℕ) → List (ℕ × ℕ)
erase_command i [] = []
erase_command i ((j, s) ∷ cs) =
    let rest = erase_command i cs in if i == j then rest else (j, s) ∷ rest

abbrev pub erase_session : ℕ → List ℕ → List ℕ
erase_session s [] = []
erase_session s (t ∷ ts) = let rest = erase_session s ts in if s == t then rest else t ∷ rest

-- The session waits for bytes.
unfoldable pub do_read : ℕ → Server → Server
do_read s = with_session s (λ x. record x { reading = true })

abbrev pub reply_text : Str → Str → Str
reply_text status text = status ++ codes " " ++ text ++ 13 ∷ 10 ∷ []

unfoldable pub do_write : ℕ → Str → Str → Server → Server
do_write s status text =
    with_session s (λ x. record x { reply = reply_text status text; writing = true })

unfoldable pub remove : ℕ → Server → Server
remove s server = record server { sessions = erase_session s server.sessions }

-- The text of the log entry for a command.
abbrev pub log_text : Command → Str
log_text cmd = elim cmd.type [
  | set ↦ codes "set " ++ cmd.key ++ (codes " " ++ cmd.value)
  | _ ↦ codes "del " ++ cmd.key
]

abbrev pub value_or : Str → Option Str → Str
value_or s none = s
value_or s (some v) = v

-- The entry is appended, and the session waits for its commit.
abbrev pub propose : ℕ → ℕ → Server → Server
propose s index server =
    if index == 0
    then do_write s (codes "INTERNAL_ERROR") [] server
    else record server { commands = insert_command index s server.commands }

unfoldable pub handle_command : RaftView → ℕ → Command → Server → Server
handle_command raft s cmd server = elim cmd.type [
  | get ↦ do_write s (codes "OK") (value_or (codes "null") (get_value cmd.key server.db)) server
  | unknown ↦ server
  | _ ↦
      if not raft.is_leader
      then do_write s (codes "NOT_LEADER") raft.leader server
      else propose s (raft.append (log_text cmd)) server
]

-- The bytes of one read, from the state that the parser of the session is in.
unfoldable pub parse_command : RaftView → ℕ → Str → Server → Server
parse_command raft s bytes server =
    let (p, result, rest) = parse (server.session s).parser bytes in
    let parsed = with_session s (λ x. record x { parser = p }) server in
    elim result [
      | good ↦ handle_command raft s p.cmd parsed
      | bad ↦ do_write s (codes "INVALID_COMMAND") [] parsed
      | need_more ↦ do_read s parsed
    ]

-- `on_read`; `none` is an error of the socket.
unfoldable pub on_read : RaftView → ℕ → Option Str → Server → Server
on_read raft s bytes server =
    let called = with_session s (λ x. record x { reading = false }) server in
    elim bytes [ none ↦ remove s called | some bs ↦ parse_command raft s bs called ]

unfoldable pub on_write : ℕ → Bool → Server → Server
on_write s is_ok server =
    let called = with_session s (λ x. record x { writing = false }) server in
    if is_ok
    then do_read s (with_session s (λ x. record x { parser = fresh }) called)
    else remove s called

-- `on_accept` without an error. The parser of the new session is what its memory holds.
unfoldable pub on_accept : Parser → Server → Server
on_accept p server = do_read server.made (record server {
  sessions = server.made ∷ server.sessions;
  session = λ n.
      if n == server.made
      then record { parser = p; reply = []; reading = false; writing = false }
      else server.session n;
  made = suc server.made;
})

-- `apply`: the entry is read as text.
unfoldable pub apply_text : Str → Table → Table
apply_text text db =
    let (type, rest) = read_word text in
    let (key, rest2) = read_word rest in
    if str_eq type (codes "set")
    then assign key (read_line (skip_one rest2)) db
    else if str_eq type (codes "del")
    then erase_key key db
    else db

-- What `insert` does to the database.
unfoldable pub execute : Command → Table → Table
execute cmd db = elim cmd.type [
  | set ↦ assign cmd.key cmd.value db
  | del ↦ erase_key cmd.key db
  | _ ↦ db
]

-- The old value for `set`, nothing for `del`.
abbrev pub reply_data : Command → Table → Str
reply_data cmd db = elim cmd.type [ set ↦ value_or [] (get_value cmd.key db) | _ ↦ [] ]

unfoldable pub insert_for : ℕ → Command → Server → Server
insert_for s cmd server = elim cmd.type [
  | get ↦ server
  | unknown ↦ server
  | _ ↦
      do_write s (codes "OK") (reply_data cmd server.db)
        (record server { db = execute cmd server.db })
]

-- `insert`: the command of the session that waits is executed, and the session gets its reply.
unfoldable pub insert : ℕ → Server → Server
insert s server = insert_for s (server.session s).parser.cmd server

-- The entry is executed for the session that waits for it, or applied as text.
unfoldable pub commit_entry : Option ℕ → ℕ → Str → Server → Server
commit_entry none index text server = record server { db = apply_text text server.db }
commit_entry (some s) index text server =
    let executed = insert s server in
    record executed { commands = erase_command index executed.commands }

-- `on_log_entry_committed`, and the index up to which raft is asked to drop its log.
unfoldable pub on_log_entry_committed : RaftView → ℕ → Str → Server → Server × Option ℕ
on_log_entry_committed raft index text server = (
  commit_entry (find_command index server.commands) index text server,
  if raft.log_compaction_enabled && index == raft.commit_index then some index else none,
)
