-- ===== src/Command.antt =====
-- server/command_parser.hpp: the byte-at-a-time parser of client commands, with its states as the
-- source names them. The proofs are in the modules below.
pub mod Roundtrip
pub mod Shape
mod Tests
use draft.Base.{ℕ, ◌≡◌, Bool, true, false, ◌||◌, List, [], ◌∷◌, ◌++◌, Str, ◌==◌, if◌then◌else◌}

pub data CommandType : Type 0 where
  get set del unknown : CommandType

pub data ResultType : Type 0 where
  good bad need_more : ResultType

pub record Command : Type 0 where
  pub key : Str
  pub value : Str
  pub type : CommandType

-- `command::reset`
abbrev pub empty_command : Command
empty_command = record { key = []; value = []; type = unknown }

pub data State : Type 0 where
  start type_g type_ge type_s type_se type_set type_d type_de type_done : State
  read_key read_set_key read_set_blank read_set_value carriage : State

pub record Parser : Type 0 where
  pub state : State
  pub cmd : Command

-- `command_parser::reset` and `command::reset`, as `session::on_write` makes them.
abbrev pub fresh : Parser
fresh = record { state = start; cmd = empty_command }

-- `isblank` in the classic locale.
unfoldable pub is_blank : ℕ → Bool
is_blank c = c == b' ' || c == 9

unfoldable pub is_eol : ℕ → Bool
is_eol c = c == 13 || c == 10

abbrev go : State → Command → Parser × ResultType
go s cmd = (record { state = s; cmd = cmd }, need_more)

abbrev push_key : Command → ℕ → Command
push_key cmd c = record cmd { key = cmd.key ++ c ∷ [] }

abbrev push_value : Command → ℕ → Command
push_value cmd c = record cmd { value = cmd.value ++ c ∷ [] }

-- The `switch` of `do_parse`.
pub step : State → Command → ℕ → Parser × ResultType
unfolding is_blank is_eol
step start cmd c =
    if is_blank c
    then go start cmd
    else if c == b'g'
    then go type_g cmd
    else if c == b's'
    then go type_s cmd
    else if c == b'd'
    then go type_d cmd
    else (record { state = start; cmd = cmd }, bad)
step type_g cmd c =
    if c == b'e' then go type_ge cmd else (record { state = type_g; cmd = cmd }, bad)
step type_ge cmd c =
    if c == b't'
    then go type_done (record cmd { type = get })
    else (record { state = type_ge; cmd = cmd }, bad)
step type_s cmd c =
    if c == b'e' then go type_se cmd else (record { state = type_s; cmd = cmd }, bad)
step type_se cmd c =
    if c == b't'
    then go type_set (record cmd { type = set })
    else (record { state = type_se; cmd = cmd }, bad)
step type_set cmd c = if is_blank c then go type_set cmd else go read_set_key (push_key cmd c)
step type_d cmd c =
    if c == b'e' then go type_de cmd else (record { state = type_d; cmd = cmd }, bad)
step type_de cmd c =
    if c == b'l'
    then go type_done (record cmd { type = del })
    else (record { state = type_de; cmd = cmd }, bad)
step type_done cmd c =
    if is_eol c
    then (record { state = type_done; cmd = cmd }, bad)
    else if is_blank c
    then go type_done cmd
    else go read_key (push_key cmd c)
step read_set_key cmd c =
    if is_eol c
    then (record { state = read_set_key; cmd = cmd }, bad)
    else if is_blank c
    then go read_set_blank cmd
    else go read_set_key (push_key cmd c)
step read_set_blank cmd c =
    if is_eol c
    then (record { state = read_set_blank; cmd = cmd }, bad)
    else if is_blank c
    then go read_set_blank cmd
    else go read_set_value (push_value cmd c)
step read_set_value cmd c =
    if c == 13 then go carriage cmd else go read_set_value (push_value cmd c)
step read_key cmd c = if c == 13 then go carriage cmd else go read_key (push_key cmd c)
step carriage cmd c = (record { state = carriage; cmd = cmd }, if c == 10 then good else bad)

unfoldable pub do_parse : Parser → ℕ → Parser × ResultType
unfolding step
do_parse p c = step p.state p.cmd c

-- The result of the loop: the parser, the result and the bytes that are left.
abbrev pub Parsed : Type 0
Parsed = Parser × ResultType × Str

-- The loop of `parse` over the bytes from `begin` to `end`.
unfoldable pub parse : Parser → Str → Parsed
parse p [] = (p, need_more, [])
parse p (c ∷ rest) =
    let (p', r) = do_parse p c in
    elim r [ need_more ↦ parse p' rest | good ↦ (p', good, rest) | bad ↦ (p', bad, rest) ]
