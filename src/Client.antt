-- ===== src/Client.antt =====
-- client/raft_client.hpp: a client of the key-value server, with its queue of commands and the redirect
-- to the leader. What the event loop waits for is part of the state: `sending` is the command that
-- `async_write` sends.
pub mod Order
pub mod Ready
pub mod Redirect
mod Tests
use draft.Base.{
  ℕ, ◌-◌, Bool, true, false, not, ◌&&◌, Option, none, some, List, [], ◌∷◌, ◌++◌, Str, str_eq, codes,
  take, length, ltb, ◌==◌, if◌then◌else◌,
}

pub record Client : Type 0 where
  pub host : Str
  pub port : Str
  pub prev_command : Str
  pub commands : List Str
  pub sending : Option Str
  pub reading : Bool
  pub resolving : Bool
  pub closed : Bool

abbrev pub is_nil : List Str → Bool
is_nil [] = true
is_nil (c ∷ cs) = false

-- `do_write` sends the front of the queue; on an empty queue it is undefined.
unfoldable pub do_write : Client → Option Client
do_write c = elim c.commands [
  | [] ↦ none
  | ◌∷◌ command cs ↦ some (record c { sending = some command })
]

-- `write`, when the event loop runs what it posts.
unfoldable pub write : Str → Client → Option Client
write command c =
    let queued = record c { commands = c.commands ++ command ∷ [] } in
    if is_nil c.commands then do_write queued else some queued

unfoldable pub close : Client → Client
close c = record c { closed = true }

-- `on_write`: the command that was sent leaves the queue, and the next one is sent.
unfoldable pub on_write : Bool → Client → Option Client
on_write is_ok c =
    let called = record c { sending = none } in
    if not is_ok then some (close called) else elim c.commands [
      | [] ↦ none
      | ◌∷◌ command cs ↦
          let sent = record called { prev_command = command; commands = cs } in
          if is_nil cs then some sent else do_write sent
    ]

unfoldable pub do_read_message : Client → Client
do_read_message c = record c { reading = true }

-- `on_connect`: the command that was sent last is sent again.
unfoldable pub on_connect : Bool → Client → Option Client
on_connect is_ok c = if not is_ok then some (close c) else elim c.prev_command [
  | [] ↦ some (do_read_message c)
  | ◌∷◌ b bs ↦ elim (write c.prev_command c) [ none ↦ none | some c' ↦ some (do_read_message c') ]
]

-- What stands before and behind the first `sep`, if there is one.
unfoldable pub cut_at : ℕ → Str → Option (Str × Str)
cut_at sep [] = none
cut_at sep (c ∷ s) =
    if c == sep
    then some ([], s)
    else elim (cut_at sep s) [ none ↦ none | some (before, behind) ↦ some (c ∷ before, behind) ]

-- `std::replace` of `8` by `9`.
unfoldable pub storage_port : Str → Str
storage_port [] = []
storage_port (c ∷ s) = (if c == b'8' then b'9' else c) ∷ storage_port s

-- The bytes of a reply without the end of the line.
unfoldable pub reply_of : Str → Str
reply_of bytes = if ltb 2 (length bytes) then take (length bytes - 2) bytes else []

-- What a reply makes the client do: read on, go to another server, or end as the server it was told to go
-- to is the one that it came from.
pub data ReplyAction : Type 0 where
  read_on : ReplyAction
  redirect : Str → Str → ReplyAction
  removed : ReplyAction

abbrev address : Str → Str → Str
address host port = host ++ codes ":" ++ port

unfoldable pub redirect_to : Client → Option (Str × Str) → ReplyAction
redirect_to c none = read_on
redirect_to c (some (host, port)) =
    if str_eq (address c.host c.port) (address host (storage_port port))
    then removed
    else redirect host (storage_port port)

unfoldable pub answer_to : Client → Option (Str × Str) → ReplyAction
answer_to c none = read_on
answer_to c (some (status, leader)) =
    if str_eq status (codes "NOT_LEADER") then redirect_to c (cut_at b':' leader) else read_on

-- The end of `on_read_message`; `none` is the end of the program.
unfoldable pub act_on : ReplyAction → Client → Option Client
act_on read_on c = some (do_read_message c)
act_on (redirect host port) c =
    some (record (close c) { host = host; port = port; resolving = true })
act_on removed c = none

-- `on_read_message`; without bytes there is an error of the socket.
unfoldable pub on_read_message : Option Str → Client → Option Client
on_read_message none c = some (close (record c { reading = false }))
on_read_message (some bytes) c =
    act_on (answer_to c (cut_at 32 (reply_of bytes))) (record c { reading = false })
