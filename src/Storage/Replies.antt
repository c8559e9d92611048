-- ===== src/Storage/Replies.antt =====
-- What the clients are told.
use draft.Base.{
  ℕ, ◌≡◌, refl, ap, sym, subst, ◌∙◌, ◌++◌, inl, inr, true, false, Option, none, some, [], ◌∷◌, Str,
  codes, ◌==◌, arith, Bool-cases,
}
use draft.Command.{Command, get, set, good, bad, need_more, fresh, carriage, Parsed, parse}
use draft.Command.Roundtrip.{IsSendable, line, done, parse-line}
use draft.Table.{Table, get_value, assign, get_value-assign}
use draft.Storage.Execute.{IsPlain, apply_text-log_text}
use draft.Storage.{
  RaftView, Server, with_session, on_read, parse_command, do_read, propose, insert_for, reply_text,
  do_write, value_or, log_text, execute, handle_command, insert, apply_text, commit_entry,
  find_command, erase_command, on_log_entry_committed,
}
use draft.Storage.Waiting.{Waiting, Commands}
use draft.Storage.Agree.{commit_entry-Committed}

find_command-erase_command : (i : ℕ) (cs : Commands) → find_command i (erase_command i cs) ≡ none
find_command-erase_command i [] = refl
find_command-erase_command i ((j, m) ∷ cs) = elim (Bool-cases (i == j)) [
  | inl e ↦ rw e (find_command-erase_command i cs)
  | inr e ↦ rw e (rw e (find_command-erase_command i cs))
]

-- The session `n` writes a reply.
abbrev pub Replies : ℕ → Str → Str → Server → Type 0
Replies n status text s =
    ((s.session n).reply ≡ reply_text status text) × ((s.session n).writing ≡ true)

do_write-Replies :
    (n : ℕ) (status text : Str) (s : Server) → Replies n status text (do_write n status text s)
unfolding do_write
do_write-Replies n status text s = let here : (n == n) ≡ true = ground arith in rw here (refl, refl)

-- A session whose command is a `set` that waits at `i`, when the entry is committed.
committed_set :
    (raft : RaftView) (i n : ℕ) (k v text : Str) (s : Server)
    → find_command i s.commands ≡ some n
    → (s.session n).parser.cmd ≡ record { key = k; value = v; type = set }
    → (let t = (on_log_entry_committed raft i text s).0 in
        Replies n (codes "OK") (value_or [] (get_value k s.db)) t
        × (t.db ≡ assign k v s.db)
        × (find_command i t.commands ≡ none))
unfolding on_log_entry_committed commit_entry insert
committed_set raft i n k v text s e is =
    let t : Server = record s { db = assign k v s.db } in
    let at : insert n s ≡ do_write n (codes "OK") (value_or [] (get_value k s.db)) t =
      ap (λ c. insert_for n c s) is ∙ unfold insert_for in unfold execute in refl in
    rw e (
      subst
        (λ (u : Server).
          Replies n (codes "OK") (value_or [] (get_value k s.db)) u
          × (u.db ≡ assign k v s.db)
          × (find_command i (erase_command i u.commands) ≡ none))
        (sym at)
        (
          do_write-Replies n (codes "OK") (value_or [] (get_value k s.db)) t,
          (unfold do_write in refl),
          find_command-erase_command i _,
        ))

module _ (raft : RaftView) (i n : ℕ) (k v rest : Str) (s : Server)
    (good_line : IsSendable (record { key = k; value = v; type = set }))
    (idle : (s.session n).parser ≡ fresh) (leads : raft.is_leader ≡ true)
    (given : raft.append (log_text (record { key = k; value = v; type = set })) ≡ i)
    (some_index : (i == 0) ≡ false) (unused : find_command i s.commands ≡ none) where
  abbrev asked_for : Command
  asked_for = record { key = k; value = v; type = set }

  -- The session after the bytes are read.
  reads : Server
  reads =
      with_session n (λ x. record x { parser = record { state = carriage; cmd = asked_for } })
        (with_session n (λ x. record x { reading = false }) s)

  proposed : handle_command raft n asked_for reads ≡ record reads { commands = (i, n) ∷ s.commands }
  unfolding handle_command reads
  proposed = rw leads (
      ap (λ j. propose n j reads) given
      ∙ rw some_index (
          ap
            (λ (o : Option ℕ). record reads {
              commands = elim o [ none ↦ (i, n) ∷ s.commands | some t ↦ s.commands ];
            })
            unused))

  on_read-proposes :
      on_read raft n (some (line asked_for ++ rest)) s
      ≡ record reads { commands = (i, n) ∷ s.commands }
  unfolding on_read parse_command reads
  on_read-proposes =
      let called : Server = with_session n (λ x. record x { reading = false }) s in
      let here : (n == n) ≡ true = ground arith in
      let same : (called.session n).parser ≡ fresh = rw here idle in
      let parsed : parse (called.session n).parser (line asked_for ++ rest) ≡ done asked_for rest =
        ap (λ p. parse p (line asked_for ++ rest)) same ∙ parse-line asked_for rest good_line in
      ap
        (λ (o : Parsed). elim o.1 [
          | good ↦
              handle_command raft n o.0.cmd (with_session n (λ x. record x { parser = o.0 }) called)
          | bad ↦
              do_write n (codes "INVALID_COMMAND") []
                (with_session n (λ x. record x { parser = o.0 }) called)
          | need_more ↦ do_read n (with_session n (λ x. record x { parser = o.0 }) called)
        ])
        parsed
      ∙ proposed

  -- A session of the leader with an idle parser reads the line of a `set` that can be sent, and raft
  -- appends the entry at an index above 0 at which no session waits: the session waits there, and when the
  -- entry is committed, whatever the database is by then, the session is told OK with the value that the
  -- key has in it, or with no value where it has none; the key has the new value, and no session waits
  -- at the index any more.
  pub on_log_entry_committed-Replies :
      (raft' : RaftView) (db : Table)
      → (let asked = record (on_read raft n (some (line asked_for ++ rest)) s) { db = db } in
          let t = (on_log_entry_committed raft' i (log_text asked_for) asked).0 in
          (find_command i asked.commands ≡ some n)
          × Replies n (codes "OK") (value_or [] (get_value k db)) t
          × (get_value k t.db ≡ some v)
          × (find_command i t.commands ≡ none))
  unfolding reads
  on_log_entry_committed-Replies raft' db =
      let u : Server = record reads { commands = (i, n) ∷ s.commands; db = db } in
      let at : record (on_read raft n (some (line asked_for ++ rest)) s) { db = db } ≡ u =
        ap (λ (x : Server). record x { db = db }) on_read-proposes in
      let one : (i == i) ≡ true = ground arith in
      let here : (n == n) ≡ true = ground arith in
      let waits : find_command i ((i, n) ∷ s.commands) ≡ some n = rw one refl in
      let (told, made, gone) =
        committed_set raft' i n k v (log_text asked_for) u waits (rw here refl) in
      subst
        (λ (x : Server).
          (find_command i x.commands ≡ some n)
          × Replies n (codes "OK") (value_or [] (get_value k db))
              (on_log_entry_committed raft' i (log_text asked_for) x).0
          × (get_value k (on_log_entry_committed raft' i (log_text asked_for) x).0.db ≡ some v)
          × (find_command i (on_log_entry_committed raft' i (log_text asked_for) x).0.commands
              ≡ none))
        (sym at) (waits, told, ap (get_value k) made ∙ get_value-assign k v db, gone)

-- What `get` tells of a key.
pub handle_get-Replies :
    (raft : RaftView) (n : ℕ) (k v : Str) (s : Server)
    → Replies n
        (codes "OK")
        (value_or (codes "null") (get_value k s.db))
        (handle_command raft n (record { key = k; value = v; type = get }) s)
unfolding handle_command
handle_get-Replies raft n k v s =
    do_write-Replies n (codes "OK") (value_or (codes "null") (get_value k s.db)) s

-- Once the entry of a plain `set` is committed, at any server in good order, `get` of the key is told the
-- value that was set.
pub get_committed-Replies :
    (text_at : ℕ → Str) (raft raft' : RaftView) (i n : ℕ) (k v w : Str) (s : Server)
    → Waiting text_at s
    → IsPlain (record { key = k; value = v; type = set })
    → text_at i ≡ log_text (record { key = k; value = v; type = set })
    → Replies n (codes "OK") v (
        handle_command raft' n
          (record { key = k; value = w; type = get })
          (on_log_entry_committed raft i (text_at i) s).0)
get_committed-Replies text_at raft raft' i n k v w s calm plain text =
    let t : Server = (on_log_entry_committed raft i (text_at i) s).0 in
    let made : t.db ≡ assign k v s.db =
      unfold on_log_entry_committed in
      ((commit_entry-Committed text_at i s calm).1
        ∙ ap (λ x. apply_text x s.db) text
        ∙ apply_text-log_text (record { key = k; value = v; type = set }) s.db plain
        ∙ unfold execute in refl) in
    subst
      (λ o.
        Replies n (codes "OK") (value_or (codes "null") o)
          (handle_command raft' n (record { key = k; value = w; type = get }) t))
      (ap (get_value k) made ∙ get_value-assign k v s.db) (handle_get-Replies raft' n k w t)
