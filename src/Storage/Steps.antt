-- ===== src/Storage/Steps.antt =====
-- The steps of a server: what its sockets and raft may call, and what each call leaves alone.
use draft.Base.{
  ℕ, ◌<◌, ◌≡◌, refl, ◌∙◌, ◌⊎◌, inl, inr, Bool, true, false, Option, none, some, Str, ◌==◌, arith,
}
use draft.Command.{Command, CommandType, set, del, Parser, parse}
use draft.Storage.Execute.{IsPlain}
use draft.Storage.{
  RaftView, Session, Server, with_session, log_text, do_read, do_write, remove, on_read, on_write,
  on_accept, reply_text, on_log_entry_committed,
}

abbrev pub is_entry : CommandType → Bool
is_entry set = true
is_entry del = true
is_entry _ = false

-- A command that the server appends is plain, and its text is what is committed at its index: no other
-- leader puts an entry there.
abbrev pub Proposed : (ℕ → Str) → RaftView → Command → Type 0
Proposed text_at raft c =
    (is_entry c.type ≡ false)
    ⊎ (raft.is_leader ≡ false)
    ⊎ (IsPlain c × (text_at (raft.append (log_text c)) ≡ log_text c))

abbrev pub ReadsWell : (ℕ → Str) → RaftView → Parser → Option Str → Type 0
ReadsWell text_at raft p none = Unit
ReadsWell text_at raft p (some bytes) = Proposed text_at raft (parse p bytes).0.cmd

-- One call of the server, and the index that it commits. A call of a session answers a call that waits.
pub data Step (text_at : ℕ → Str) : Server → Server → Option ℕ → Type 0 where
  accepts : {s : Server} (p : Parser) → Step text_at s (on_accept p s) none
  reads :
      {s : Server} (raft : RaftView) (n : ℕ) (bytes : Option Str)
      → n < s.made
      → (s.session n).reading ≡ true
      → ReadsWell text_at raft (s.session n).parser bytes
      → Step text_at s (on_read raft n bytes s) none
  writes :
      {s : Server} (n : ℕ) (is_ok : Bool)
      → n < s.made
      → (s.session n).writing ≡ true
      → Step text_at s (on_write n is_ok s) none
  commits :
      {s : Server} (raft : RaftView) (index : ℕ)
      → Step text_at s (on_log_entry_committed raft index (text_at index) s).0 (some index)

-- Only the session `n` differs.
pub record SameBut (n : ℕ) (s s' : Server) : Type 0 where
  pub db : s'.db ≡ s.db
  pub made : s'.made ≡ s.made
  pub commands : s'.commands ≡ s.commands
  pub session : (m : ℕ) → (m == n) ≡ false → s'.session m ≡ s.session m

pub SameBut-with_session :
    (n : ℕ) (f : Session → Session) (s : Server) → SameBut n s (with_session n f s)
SameBut-with_session n f s = record {
  db = refl;
  made = refl;
  commands = refl;
  session = λ m ne. rw ne refl;
}

pub SameBut-trans : (n : ℕ) (s t u : Server) → SameBut n s t → SameBut n t u → SameBut n s u
SameBut-trans n s t u a b = record {
  db = b.db ∙ a.db;
  made = b.made ∙ a.made;
  commands = b.commands ∙ a.commands;
  session = λ m ne. b.session m ne ∙ a.session m ne;
}

-- The session `n` has no call that waits.
abbrev pub Idle : ℕ → Server → Type 0
Idle n s = ((s.session n).reading ≡ false) × ((s.session n).writing ≡ false)

abbrev pub Calm : ℕ → Server → Type 0
Calm n s = ((s.session n).reading ≡ false) ⊎ ((s.session n).writing ≡ false)

-- What a handler of the idle session `n` does: it touches this session alone, which then waits for one
-- call at most.
abbrev pub Handles : ℕ → Server → Server → Type 0
Handles n s s' = SameBut n s s' × Calm n s'

pub do_write-Handles :
    (n : ℕ) (status text : Str) (s : Server) → Idle n s → Handles n s (do_write n status text s)
unfolding do_write
do_write-Handles n status text s i =
    let here : (n == n) ≡ true = ground arith in
    (
      SameBut-with_session n (λ x. record x { reply = reply_text status text; writing = true }) s,
      rw here (inl i.0),
    )

pub do_read-Handles : (n : ℕ) (s : Server) → Idle n s → Handles n s (do_read n s)
unfolding do_read
do_read-Handles n s i =
    let here : (n == n) ≡ true = ground arith in
    (SameBut-with_session n (λ x. record x { reading = true }) s, rw here (inr i.1))

pub remove-Handles : (n : ℕ) (s : Server) → Idle n s → Handles n s (remove n s)
unfolding remove
remove-Handles n s i =
    (record { db = refl; made = refl; commands = refl; session = λ m ne. refl }, inl i.0)
