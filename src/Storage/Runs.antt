-- ===== src/Storage/Runs.antt =====
-- Runs of a server, and of two servers that commit the same entries.
use draft.Base.{
  ℕ, suc, ◌≡◌, refl, ap, sym, ◌∙◌, inl, inr, true, false, Option, none, some, List, [], ◌∷◌, Str,
  ◌==◌, if◌then◌else◌, arith,
}
use draft.Command.{Parser}
use draft.Table.{Table}
use draft.Storage.{Server, apply_text, on_accept, do_read, on_log_entry_committed}
use draft.Storage.Steps.{Step, accepts, reads, writes, commits, SameBut, Calm, do_read-Handles}
use draft.Storage.Calls.{Touches, on_read-Touches, on_write-Handles}
use draft.Storage.Waiting.{
  Commands, Held, NotIn, Waiting, busy-NotIn, Waiting-Handles, Waiting-Touches,
}
use draft.Storage.Agree.{commit_entry-Committed}

-- The session that is made is not one that waits.
fresh-NotIn : (text_at : ℕ → Str) (s : Server) (cs : Commands) → Held text_at s cs → NotIn s.made cs
fresh-NotIn text_at s [] h = tt
fresh-NotIn text_at s (c ∷ cs) (h, hs) = (ground (arith, h.0), fresh-NotIn text_at s cs hs)

abbrev made_session : Parser → Server → Server
made_session p s = record s {
  sessions = s.made ∷ s.sessions;
  session = λ n.
      if n == s.made
      then record { parser = p; reply = []; reading = false; writing = false }
      else s.session n;
}

grown-Held :
    (text_at : ℕ → Str) (s : Server) (cs : Commands)
    → Held text_at s cs
    → Held text_at (record s { made = suc s.made }) cs
grown-Held text_at s [] h = tt
grown-Held text_at s (c ∷ cs) (h, hs) =
    ((omega (arith, h.0), h.1, h.2, h.3, h.4), grown-Held text_at s cs hs)

Waiting-on_accept :
    (text_at : ℕ → Str) (p : Parser) (s : Server)
    → Waiting text_at s
    → Waiting text_at (on_accept p s)
unfolding on_accept
Waiting-on_accept text_at p s w =
    let t = made_session p s in
    let here : (s.made == s.made) ≡ true = ground arith in
    let same : SameBut s.made s t = record {
      db = refl;
      made = refl;
      commands = refl;
      session = λ m ne. rw ne refl;
    } in
    let calm : Calm s.made t = rw here (inl refl) in
    let o = fresh-NotIn text_at s s.commands w.held in
    let v = Waiting-Handles text_at s.made s t w o (same, calm) in
    let u : Server = record t { made = suc s.made } in
    let grown : Waiting text_at u = record {
      held = grown-Held text_at t s.commands v.held;
      apart = v.apart;
      calm = v.calm;
    } in
    Waiting-Handles text_at s.made u (do_read s.made u) grown o
      (do_read-Handles s.made u (rw here (refl, refl)))

on_accept_db : (p : Parser) (s : Server) → (on_accept p s).db ≡ s.db
unfolding on_accept do_read
on_accept_db p s = refl

-- The database after one call.
abbrev pub after : (ℕ → Str) → Option ℕ → Table → Table
after text_at none db = db
after text_at (some i) db = apply_text (text_at i) db

busy_writing :
    (s : Server) (n : ℕ) → Calm n s → (s.session n).reading ≡ true → (s.session n).writing ≡ false
busy_writing s n (inl r) h = cc
busy_writing s n (inr w) h = w

busy_reading :
    (s : Server) (n : ℕ) → Calm n s → (s.session n).writing ≡ true → (s.session n).reading ≡ false
busy_reading s n (inl r) h = r
busy_reading s n (inr w) h = cc

Touches-db : (text_at : ℕ → Str) (n : ℕ) (s t : Server) → Touches text_at n s t → t.db ≡ s.db
Touches-db text_at n s t (inl (a, calm)) = a.db
Touches-db text_at n s t (inr (u, a, idle, i, e, plain, text)) = ap (λ (x : Server). x.db) e ∙ a.db

Step-Waiting :
    (text_at : ℕ → Str) (s t : Server) (l : Option ℕ)
    → Waiting text_at s
    → Step text_at s t l
    → Waiting text_at t × (t.db ≡ after text_at l s.db)
Step-Waiting text_at s _ _ w (accepts p) = (Waiting-on_accept text_at p s w, on_accept_db p s)
Step-Waiting text_at s _ _ w (reads raft n bytes made busy well) =
    let o = busy-NotIn text_at s n s.commands w.held (inl busy) in
    let touched = on_read-Touches text_at raft n bytes s (busy_writing s n (w.calm n) busy) well in
    (Waiting-Touches text_at n s _ w made o touched, Touches-db text_at n s _ touched)
Step-Waiting text_at s _ _ w (writes n is_ok made busy) =
    let o = busy-NotIn text_at s n s.commands w.held (inr busy) in
    let h = on_write-Handles n is_ok s (busy_reading s n (w.calm n) busy) in
    (Waiting-Handles text_at n s _ w o h, h.0.db)
Step-Waiting text_at s _ _ w (commits raft i) =
    unfold on_log_entry_committed in commit_entry-Committed text_at i s w

-- Calls in a row, with the indices that are committed, in order.
pub data Run (text_at : ℕ → Str) : Server → Server → List ℕ → Type 0 where
  stays : {s : Server} → Run text_at s s []
  calls :
      {s t u : Server} {is : List ℕ}
      → Step text_at s t none
      → Run text_at t u is
      → Run text_at s u is
  then_commits :
      {s t u : Server} {i : ℕ} {is : List ℕ}
      → Step text_at s t (some i)
      → Run text_at t u is
      → Run text_at s u (i ∷ is)

-- The database that the texts of the entries make.
unfoldable pub applied : (ℕ → Str) → List ℕ → Table → Table
applied text_at [] db = db
applied text_at (i ∷ is) db = applied text_at is (apply_text (text_at i) db)

-- In any run of a server whose sessions wait in good order, sessions do so to the end, and the database
-- is the one that the texts of the committed entries make of the first, whether a client of this
-- server sent a command or another server did. The commands that the server appends are plain, and stand
-- at their indices when these are committed.
pub Run-Waiting :
    (text_at : ℕ → Str) (s t : Server) (is : List ℕ)
    → Waiting text_at s
    → Run text_at s t is
    → Waiting text_at t × (t.db ≡ applied text_at is s.db)
unfolding applied
Run-Waiting text_at s _ _ w stays = (w, refl)
Run-Waiting text_at s t is w (calls {t = m} step run) =
    let (v, same) = Step-Waiting text_at s m none w step in
    let (u, rest) = Run-Waiting text_at m t is v run in (u, rest ∙ ap (applied text_at is) same)
Run-Waiting text_at s t _ w (then_commits {t = m} {i} {is} step run) =
    let (v, same) = Step-Waiting text_at s m (some i) w step in
    let (u, rest) = Run-Waiting text_at m t is v run in (u, rest ∙ ap (applied text_at is) same)

-- Two servers that start with the same database, and in whose runs the same entries are committed, have
-- the same database at the end, whichever of them leads and whatever calls come between. Their sessions
-- wait in good order at the start, and the commands that they append are plain, and stand at their
-- indices when these are committed.
pub replicas_agree :
    (text_at : ℕ → Str) (s t s' t' : Server) (is : List ℕ)
    → Waiting text_at s
    → Waiting text_at t
    → s.db ≡ t.db
    → Run text_at s s' is
    → Run text_at t t' is
    → s'.db ≡ t'.db
replicas_agree text_at s t s' t' is w v e run run' =
    (Run-Waiting text_at s s' is w run).1
    ∙ ap (applied text_at is) e
    ∙ sym ((Run-Waiting text_at t t' is v run').1)
