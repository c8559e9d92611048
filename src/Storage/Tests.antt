-- ===== src/Storage/Tests.antt =====
-- A leader with a client that waits, and a follower.
use draft.Base.{
  ℕ, ◌≡◌, sym, ap, ◌∙◌, All, List, append-nil, append_assoc, refl, inl, true, false, none, some, [],
  ◌∷◌, ◌++◌, Str, codes, ◌==◌, if◌then◌else◌, arith,
}
use draft.Command.{Command, set, get, fresh, carriage, is_blank, is_eol}
use draft.Command.Roundtrip.{IsSendable, line}
use draft.Table.{Table, get_value}
use draft.Base.{is_space}
use draft.Storage.{
  RaftView, Session, Server, log_text, apply_text, execute, handle_command, on_log_entry_committed,
  find_command, on_read, value_or,
}
use draft.Storage.Execute.{IsPlain, apply_text-log_text}
use draft.Storage.Steps.{commits}
use draft.Storage.Waiting.{Waiting}
use draft.Storage.Runs.{stays, then_commits, applied, Run-Waiting, replicas_agree}
use draft.Storage.Replies.{Replies, on_log_entry_committed-Replies, get_committed-Replies}
use draft.Storage.Snapshot.{Reader, load_database, snapshot_text}
use draft.Storage.Restore.{ReadsLines, IsName, IsValue, load_database-snapshot_text}

abbrev set_k : Command
set_k = record { key = codes "k"; value = codes "a b"; type = set }

abbrev idle_session : Session
idle_session = record { parser = fresh; reply = []; reading = false; writing = false }

abbrev waiting_session : Session
waiting_session = record {
  parser = record { state = carriage; cmd = set_k };
  reply = [];
  reading = false;
  writing = false;
}

abbrev follower : Server
follower = record {
  db = [];
  commands = [];
  sessions = [];
  session = λ n. idle_session;
  made = 0;
  path = [];
}

abbrev leader : Server
leader = record follower {
  commands = (1, 0) ∷ [];
  sessions = 0 ∷ [];
  session = λ n. if n == 0 then waiting_session else idle_session;
  made = 1;
}

abbrev entries : ℕ → Str
entries i = log_text set_k

abbrev view : RaftView
view = record {
  is_leader = true;
  leader = [];
  append = λ t. 1;
  log_compaction_enabled = false;
  commit_index = 1;
}

set_k-IsPlain : IsPlain set_k
unfolding is_space
set_k-IsPlain = ((λ e. cc), (refl, tt), inl (refl, (refl, (refl, (refl, tt)))))

apply_text-log_text_example : apply_text (log_text set_k) [] ≡ execute set_k []
apply_text-log_text_example = apply_text-log_text set_k [] set_k-IsPlain

follower-Waiting : Waiting entries follower
follower-Waiting = record { held = tt; apart = tt; calm = λ n. inl refl }

leader-Waiting : Waiting entries leader
leader-Waiting = record {
  held = ((omega arith, refl, refl, set_k-IsPlain, refl), tt);
  apart = (tt, tt);
  calm = λ n. ground arith;
}

Run-Waiting_example :
    Waiting entries (on_log_entry_committed view 1 (entries 1) leader).0
    × ((on_log_entry_committed view 1 (entries 1) leader).0.db ≡ applied entries (1 ∷ []) [])
Run-Waiting_example =
    Run-Waiting entries leader _ (1 ∷ []) leader-Waiting (then_commits (commits view 1) stays)

replicas_agree_example :
    (on_log_entry_committed view 1 (entries 1) leader).0.db
    ≡ (on_log_entry_committed view 1 (entries 1) follower).0.db
replicas_agree_example =
    replicas_agree entries leader follower _ _ (1 ∷ []) leader-Waiting follower-Waiting refl
      (then_commits (commits view 1) stays) (then_commits (commits view 1) stays)

abbrev asking : Server
asking = record follower { sessions = 0 ∷ []; made = 1 }

abbrev read_and_noted : Server
read_and_noted = record (on_read view 0 (some (line set_k ++ [])) asking) {
  db = (codes "k", codes "old") ∷ [];
}

set_k-IsSendable : IsSendable set_k
unfolding is_blank is_eol
set_k-IsSendable = (((refl, refl), tt), (refl, refl, (refl, (refl, tt))))

on_log_entry_committed-Replies_example :
    (find_command 1 read_and_noted.commands ≡ some 0)
    × Replies 0
        (codes "OK")
        (value_or [] (get_value (codes "k") ((codes "k", codes "old") ∷ [])))
        (on_log_entry_committed view 1 (log_text set_k) read_and_noted).0
    × (get_value (codes "k") (on_log_entry_committed view 1 (log_text set_k) read_and_noted).0.db
        ≡ some (codes "a b"))
    × (find_command 1 (on_log_entry_committed view 1 (log_text set_k) read_and_noted).0.commands
        ≡ none)
on_log_entry_committed-Replies_example =
    on_log_entry_committed-Replies view 1 0 (codes "k") (codes "a b") [] asking set_k-IsSendable
      refl refl refl refl refl view ((codes "k", codes "old") ∷ [])

get_committed-Replies_example : Replies 0 (codes "OK") (codes "a b") (
    handle_command view 0
      (record { key = codes "k"; value = []; type = get })
      (on_log_entry_committed view 1 (entries 1) follower).0)
get_committed-Replies_example =
    get_committed-Replies entries view view 1 0 (codes "k") (codes "a b") [] follower
      follower-Waiting set_k-IsPlain refl

abbrev one_pair : Table
one_pair = (codes "k", codes "a b") ∷ []

-- A reader of lines `name = value`.
data Place : Type 0 where
  in_name at_sign at_blank : Str → Place
  in_value : Str → Str → Place

read_from : Place → Str → List Str
read_from p [] = []
read_from (in_name k) (c ∷ s) =
    if c == 32 then read_from (at_sign k) s else read_from (in_name (k ++ c ∷ [])) s
read_from (at_sign k) (c ∷ s) = if c == b'=' then read_from (at_blank k) s else []
read_from (at_blank k) (c ∷ s) = if c == 32 then read_from (in_value k []) s else []
read_from (in_value k v) (c ∷ s) =
    if c == 10 then k ∷ v ∷ read_from (in_name []) s else read_from (in_value k (v ++ c ∷ [])) s

abbrev read_lines : Reader
read_lines text = read_from (in_name []) text

read_from-in_name :
    (a k rest : Str)
    → All (λ c. (c == 32) ≡ false) k
    → read_from (in_name a) (k ++ (codes " = " ++ rest)) ≡ read_from (in_value (a ++ k) []) rest
unfolding read_from
read_from-in_name a [] rest h = ap (λ j. read_from (in_value j []) rest) (sym (append-nil a))
read_from-in_name a (c ∷ k) rest (h, hs) = rw h (
    read_from-in_name (a ++ c ∷ []) k rest hs
    ∙ ap (λ j. read_from (in_value j []) rest) (append_assoc a (c ∷ []) k))

read_from-in_value :
    (k a v rest : Str)
    → All (λ c. (c == 10) ≡ false) v
    → read_from (in_value k a) (v ++ 10 ∷ rest) ≡ k ∷ (a ++ v) ∷ read_from (in_name []) rest
unfolding read_from
read_from-in_value k a [] rest h =
    ap (λ j. k ∷ j ∷ read_from (in_name []) rest) (sym (append-nil a))
read_from-in_value k a (c ∷ v) rest (h, hs) = rw h (
    read_from-in_value k (a ++ c ∷ []) v rest hs
    ∙ ap (λ j. k ∷ j ∷ read_from (in_name []) rest) (append_assoc a (c ∷ []) v))

All-map : {P Q : ℕ → Type 0} (s : Str) → ((c : ℕ) → P c → Q c) → All P s → All Q s
All-map [] f h = tt
All-map (c ∷ s) f (h, hs) = (f c h, All-map s f hs)

IsName-no_blank : (k : Str) → IsName k → All (λ c. (c == 32) ≡ false) k
IsName-no_blank [] h = tt
IsName-no_blank (c ∷ k) h = All-map (c ∷ k) (λ b p. ground (arith, p.0)) h

IsValue-one_line : (v : Str) → IsValue v → All (λ c. (c == 10) ≡ false) v
IsValue-one_line [] h = tt
IsValue-one_line (c ∷ v) h = All-map (c ∷ v) (λ b p. ground (arith, p.0)) (h.0)

read_lines-ReadsLines : ReadsLines read_lines
unfolding read_from
read_lines-ReadsLines = record {
  nothing = refl;
  one_line = λ k v rest name value.
      read_from-in_name [] k (v ++ 10 ∷ rest) (IsName-no_blank k name)
      ∙ read_from-in_value k [] v rest (IsValue-one_line v value);
}

load_database-snapshot_text_example :
    (t : Server) × (load_database read_lines (some (snapshot_text one_pair)) follower
      ≡ some (t, true))
    × ((k : Str) → get_value k t.db ≡ get_value k one_pair)
load_database-snapshot_text_example =
    load_database-snapshot_text read_lines one_pair follower read_lines-ReadsLines
      (
        (
          ((refl, refl, refl, refl), tt),
          (((refl, refl), ((refl, refl), ((refl, refl), tt))), refl, refl),
        ),
        tt,
      )
      refl
