-- ===== src/Storage/Calls.antt =====
-- What a call of a session does to the server.
use draft.Base.{
  ℕ, ◌≡◌, refl, ap, sym, subst, ◌⊎◌, inl, inr, Bool, true, false, not, Option, none, some, [], Str,
  codes, ◌==◌, if◌then◌else◌, arith, Bool-cases,
}
use draft.Command.{
  Command, CommandType, get, set, del, unknown, Parser, ResultType, good, bad, need_more, parse,
  fresh,
}
use draft.Storage.Execute.{IsPlain}
use draft.Storage.{
  RaftView, Session, Server, with_session, log_text, do_read, do_write, propose, handle_command,
  parse_command, on_read, on_write, insert_command,
}
use draft.Storage.Steps.{
  is_entry, Proposed, ReadsWell, SameBut, SameBut-with_session, SameBut-trans, Idle, Handles,
  do_write-Handles, do_read-Handles, remove-Handles,
}

-- What a call of the session `n` does from a state where it is idle: it touches this session alone; or
-- the session, which stays idle, waits for the commit of the entry of its command.
abbrev pub Outcome : (ℕ → Str) → ℕ → Server → Server → Type 0
Outcome text_at n s s' =
    Handles n s s'
    ⊎ ((i : ℕ) × (s' ≡ record s { commands = insert_command i n s.commands })
        × IsPlain (s.session n).parser.cmd
        × (text_at i ≡ log_text (s.session n).parser.cmd))

propose-Outcome :
    (text_at : ℕ → Str) (n i : ℕ) (s : Server)
    → Idle n s
    → IsPlain (s.session n).parser.cmd
    → text_at i ≡ log_text (s.session n).parser.cmd
    → Outcome text_at n s (propose n i s)
propose-Outcome text_at n i s idle plain text = elim (Bool-cases (i == 0)) [
  | inl e ↦ rw e (inl (do_write-Handles n _ _ s idle))
  | inr e ↦ rw e (inr (i, refl, plain, text))
]

abbrev asked : RaftView → ℕ → Command → Server → Server
asked raft n c s =
    if not raft.is_leader
    then do_write n (codes "NOT_LEADER") raft.leader s
    else propose n (raft.append (log_text c)) s

asked-Outcome :
    (text_at : ℕ → Str) (raft : RaftView) (n : ℕ) (s : Server)
    → Idle n s
    → is_entry (s.session n).parser.cmd.type ≡ true
    → Proposed text_at raft (s.session n).parser.cmd
    → Outcome text_at n s (asked raft n (s.session n).parser.cmd s)
asked-Outcome text_at raft n s idle e (inl never) = cc
asked-Outcome text_at raft n s idle e (inr (inl late)) =
    rw late (inl (do_write-Handles n _ _ s idle))
asked-Outcome text_at raft n s idle e (inr (inr (plain, text))) = elim (Bool-cases raft.is_leader) [
  | inl l ↦ rw l (propose-Outcome text_at n _ s idle plain text)
  | inr l ↦ rw l (inl (do_write-Handles n _ _ s idle))
]

handle_entry :
    (raft : RaftView) (n : ℕ) (c : Command) (s : Server)
    → is_entry c.type ≡ true
    → handle_command raft n c s ≡ asked raft n c s
unfolding handle_command
handle_entry raft n c s e = by_type c.key c.value c.type e
  where
    by_type :
        (k v : Str) (t : CommandType)
        → is_entry t ≡ true
        → (let d : Command = record { key = k; value = v; type = t } in
            handle_command raft n d s ≡ asked raft n d s)
    by_type k v set e = refl
    by_type k v del e = refl
    by_type k v get e = cc
    by_type k v unknown e = cc

-- The cases of `handle_command` by the type of the command.
handle_typed :
    (text_at : ℕ → Str) (raft : RaftView) (n : ℕ) (s : Server) (t : CommandType)
    → (s.session n).parser.cmd.type ≡ t
    → Idle n s
    → Proposed text_at raft (s.session n).parser.cmd
    → Outcome text_at n s (handle_command raft n (s.session n).parser.cmd s)
handle_typed text_at raft n s get e idle p =
    unfold handle_command in rw e (inl (do_write-Handles n _ _ s idle))
handle_typed text_at raft n s unknown e idle p =
    unfold handle_command in
    rw e (
      inl
        ((record { db = refl; made = refl; commands = refl; session = λ m ne. refl }), inl idle.0))
handle_typed text_at raft n s set e idle p =
    let entry : is_entry (s.session n).parser.cmd.type ≡ true = ap is_entry e in
    subst (Outcome text_at n s) (sym (handle_entry raft n _ s entry))
      (asked-Outcome text_at raft n s idle entry p)
handle_typed text_at raft n s del e idle p =
    let entry : is_entry (s.session n).parser.cmd.type ≡ true = ap is_entry e in
    subst (Outcome text_at n s) (sym (handle_entry raft n _ s entry))
      (asked-Outcome text_at raft n s idle entry p)

-- What a call of the session `n` does: it touches this session alone, or it makes it wait.
abbrev pub Touches : (ℕ → Str) → ℕ → Server → Server → Type 0
Touches text_at n s s' =
    Handles n s s'
    ⊎ ((t : Server) × SameBut n s t
        × Idle n t
        × (i : ℕ) × (s' ≡ record t { commands = insert_command i n t.commands })
        × IsPlain (t.session n).parser.cmd
        × (text_at i ≡ log_text (t.session n).parser.cmd))

behind :
    (text_at : ℕ → Str) (n : ℕ) (s t u : Server)
    → SameBut n s t
    → Idle n t
    → Outcome text_at n t u
    → Touches text_at n s u
behind text_at n s t u a idle (inl (b, calm)) = inl (SameBut-trans n s t u a b, calm)
behind text_at n s t u a idle (inr (i, e, plain, text)) = inr (t, a, idle, i, e, plain, text)

abbrev read_called : ℕ → Server → Server
read_called n s = with_session n (λ x. record x { reading = false }) s

abbrev parsed_with : ℕ → Parser → Server → Server
parsed_with n p s = with_session n (λ x. record x { parser = p }) s

Idle-parsed_with : (n : ℕ) (p : Parser) (s : Server) → Idle n s → Idle n (parsed_with n p s)
Idle-parsed_with n p s i = let here : (n == n) ≡ true = ground arith in rw here i

-- The end of `parse_command`, for each result of the parser.
parsed-Touches :
    (text_at : ℕ → Str) (raft : RaftView) (n : ℕ) (s : Server) (p : Parser) (r : ResultType)
    → Idle n s
    → Proposed text_at raft p.cmd
    → Touches text_at n s (elim r [
      | good ↦ handle_command raft n p.cmd (parsed_with n p s)
      | bad ↦ do_write n (codes "INVALID_COMMAND") [] (parsed_with n p s)
      | need_more ↦ do_read n (parsed_with n p s)
    ])
parsed-Touches text_at raft n s p r i w = by_result r
  where
    same : SameBut n s (parsed_with n p s)
    same = SameBut-with_session n (λ x. record x { parser = p }) s

    idle : Idle n (parsed_with n p s)
    idle = Idle-parsed_with n p s i

    own : (parsed_with n p s).session n ≡ record (s.session n) { parser = p }
    own = let here : (n == n) ≡ true = ground arith in rw here refl

    handled :
        Outcome text_at n (parsed_with n p s) (handle_command raft n p.cmd (parsed_with n p s))
    handled =
        subst
          (λ (c : Command).
            Proposed text_at raft c
            → Outcome text_at n (parsed_with n p s) (handle_command raft n c (parsed_with n p s)))
          (ap (λ (x : Session). x.parser.cmd) own)
          (handle_typed text_at raft n (parsed_with n p s) _ refl idle) w

    by_result :
        (q : ResultType)
        → Touches text_at n s (elim q [
          | good ↦ handle_command raft n p.cmd (parsed_with n p s)
          | bad ↦ do_write n (codes "INVALID_COMMAND") [] (parsed_with n p s)
          | need_more ↦ do_read n (parsed_with n p s)
        ])
    by_result good = behind text_at n s (parsed_with n p s) _ same idle handled
    by_result bad =
        behind text_at n s (parsed_with n p s) _ same idle (inl (do_write-Handles n _ _ _ idle))
    by_result need_more =
        behind text_at n s (parsed_with n p s) _ same idle (inl (do_read-Handles n _ idle))

through :
    (text_at : ℕ → Str) (n : ℕ) (s t u : Server)
    → SameBut n s t
    → Touches text_at n t u
    → Touches text_at n s u
through text_at n s t u a (inl (b, calm)) = inl (SameBut-trans n s t u a b, calm)
through text_at n s t u a (inr (v, b, idle, i, e, plain, text)) =
    inr (v, SameBut-trans n s t v a b, idle, i, e, plain, text)

-- `on_read` of a session that waits for bytes and not for the end of a write.
pub on_read-Touches :
    (text_at : ℕ → Str) (raft : RaftView) (n : ℕ) (bytes : Option Str) (s : Server)
    → (s.session n).writing ≡ false
    → ReadsWell text_at raft (s.session n).parser bytes
    → Touches text_at n s (on_read raft n bytes s)
unfolding on_read parse_command
on_read-Touches text_at raft n bytes s calm w = by_bytes bytes w
  where
    same : SameBut n s (read_called n s)
    same = SameBut-with_session n (λ x. record x { reading = false }) s

    idle : Idle n (read_called n s)
    idle = let here : (n == n) ≡ true = ground arith in rw here (refl, calm)

    own : ((read_called n s).session n).parser ≡ (s.session n).parser
    own = let here : (n == n) ≡ true = ground arith in rw here refl

    by_bytes :
        (b : Option Str)
        → ReadsWell text_at raft (s.session n).parser b
        → Touches text_at n s (on_read raft n b s)
    by_bytes none well =
        inl (SameBut-trans n s _ _ same (remove-Handles n _ idle).0, (remove-Handles n _ idle).1)
    by_bytes (some bs) well = through text_at n s (read_called n s) _ same (
        parsed-Touches text_at raft n (read_called n s) _ _ idle
          (subst (λ q. Proposed text_at raft (parse q bs).0.cmd) (sym own) well))

-- `on_write` of a session that waits for the end of a write and not for bytes.
pub on_write-Handles :
    (n : ℕ) (is_ok : Bool) (s : Server)
    → (s.session n).reading ≡ false
    → Handles n s (on_write n is_ok s)
unfolding on_write
on_write-Handles n is_ok s calm = by_answer is_ok
  where
    called : Server
    called = with_session n (λ x. record x { writing = false }) s

    same : SameBut n s called
    same = SameBut-with_session n (λ x. record x { writing = false }) s

    idle : Idle n called
    idle = let here : (n == n) ≡ true = ground arith in rw here (calm, refl)

    by_answer : (b : Bool) → Handles n s (on_write n b s)
    by_answer true =
        let h =
          do_read-Handles n (parsed_with n fresh called) (Idle-parsed_with n fresh called idle) in
        (
          SameBut-trans n s called _ same (
              SameBut-trans n called _ _
                (SameBut-with_session n (λ x. record x { parser = fresh }) called) h.0),
          h.1,
        )
    by_answer false = (
      SameBut-trans n s called _ same (remove-Handles n called idle).0,
      (remove-Handles n called idle).1,
    )
