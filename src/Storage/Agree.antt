-- ===== src/Storage/Agree.antt =====
-- The database of a server is what its committed entries make of it, as text.
use draft.Base.{
  ℕ, ◌≡◌, refl, ap, sym, subst, ◌∙◌, inl, inr, true, false, some, [], ◌∷◌, Str, codes, ◌==◌, arith,
  Bool-cases, Option-cases, All,
}
use draft.Command.{Command, CommandType, get, set, del, unknown}
use draft.Storage.Execute.{IsPlain, apply_text-log_text}
use draft.Storage.{
  Server, find_command, erase_command, apply_text, execute, insert, commit_entry, do_write,
  reply_data, insert_for,
}
use draft.Storage.Steps.{is_entry, do_write-Handles}
use draft.Storage.Waiting.{Commands, HeldBy, NotIn, Apart, Waiting, Waiting-Handles}

pub find_command-All :
    (P : ℕ × ℕ → Type 0) (i n : ℕ) (cs : Commands)
    → find_command i cs ≡ some n
    → All P cs
    → P (i, n)
find_command-All P i n [] e h = cc
find_command-All P i n ((j, m) ∷ cs) e (h, hs) = elim (Bool-cases (i == j)) [
  | inl t ↦
      let here : some m ≡ some n = rw t at e in
      let same : m ≡ n = cc in
      let place : j ≡ i = ground arith in subst (λ k. P (k, n)) place (subst (λ k. P (j, k)) same h)
  | inr f ↦ find_command-All P i n cs (rw f at e) hs
]

All-erase_command :
    (P : ℕ × ℕ → Type 0) (i : ℕ) (cs : Commands) → All P cs → All P (erase_command i cs)
All-erase_command P i [] h = tt
All-erase_command P i ((j, m) ∷ cs) (h, hs) = elim (Bool-cases (i == j)) [
  | inl t ↦ rw t (All-erase_command P i cs hs)
  | inr f ↦ rw f (h, All-erase_command P i cs hs)
]

Apart-erase_command : (i : ℕ) (cs : Commands) → Apart cs → Apart (erase_command i cs)
Apart-erase_command i [] a = tt
Apart-erase_command i ((j, m) ∷ cs) (o, a) = elim (Bool-cases (i == j)) [
  | inl t ↦ rw t (Apart-erase_command i cs a)
  | inr f ↦ rw f (All-erase_command (λ c. (c.1 == m) ≡ false) i cs o, Apart-erase_command i cs a)
]

-- The session that waited at an index does not wait elsewhere.
NotIn-erase_command :
    (i n : ℕ) (cs : Commands) → find_command i cs ≡ some n → Apart cs → NotIn n (erase_command i cs)
NotIn-erase_command i n [] e a = tt
NotIn-erase_command i n ((j, m) ∷ cs) e (o, a) = elim (Bool-cases (i == j)) [
  | inl t ↦
      let here : some m ≡ some n = rw t at e in
      let same : m ≡ n = cc in
      rw t (
        subst (λ k. NotIn k (erase_command i cs)) same
          (All-erase_command (λ c. (c.1 == m) ≡ false) i cs o))
  | inr f ↦
      let later : find_command i cs ≡ some n = rw f at e in
      let apart : (n == m) ≡ false = find_command-All (λ c. (c.1 == m) ≡ false) i n cs later o in
      let flipped : (m == n) ≡ false = ground arith in
      rw f (flipped, NotIn-erase_command i n cs later a)
]

-- A command that changes the database is executed, and its session gets a reply.
pub insert_entry :
    (n : ℕ) (c : Command) (s : Server)
    → is_entry c.type ≡ true
    → insert_for n c s
      ≡ do_write n (codes "OK") (reply_data c s.db) (record s { db = execute c s.db })
unfolding insert_for
insert_entry n c s e = by_type c.key c.value c.type e
  where
    by_type :
        (k v : Str) (t : CommandType)
        → is_entry t ≡ true
        → (let d : Command = record { key = k; value = v; type = t } in
            insert_for n d s
            ≡ do_write n (codes "OK") (reply_data d s.db) (record s { db = execute d s.db }))
    by_type k v set e = refl
    by_type k v del e = refl
    by_type k v get e = cc
    by_type k v unknown e = cc

pub IsPlain-is_entry : (c : Command) → IsPlain c → is_entry c.type ≡ true
IsPlain-is_entry c (ne, h, inl (e, line)) = ap is_entry e
IsPlain-is_entry c (ne, h, inr e) = ap is_entry e

abbrev pub Committed : (ℕ → Str) → ℕ → Server → Server → Type 0
Committed text_at i s t = Waiting text_at t × (t.db ≡ apply_text (text_at i) s.db)

executed-Committed :
    (text_at : ℕ → Str) (i n : ℕ) (s : Server)
    → Waiting text_at s
    → find_command i s.commands ≡ some n
    → Committed text_at i s (commit_entry (some n) i (text_at i) s)
unfolding commit_entry insert
executed-Committed text_at i n s w e =
    let (made, reading, writing, plain, text) =
      find_command-All (HeldBy text_at s.made s.session) i n s.commands e w.held in
    let t : Server = record s { db = execute (s.session n).parser.cmd s.db } in
    let c = (s.session n).parser.cmd in
    let q = insert_entry n c s (IsPlain-is_entry c plain) in
    let reply = reply_data c s.db in
    let (same, calm) = do_write-Handles n (codes "OK") reply t (reading, writing) in
    let cs = erase_command i s.commands in
    let o : NotIn n cs = NotIn-erase_command i n s.commands e w.apart in
    let kept : Waiting text_at (record t { commands = cs }) = record {
      held = All-erase_command (HeldBy text_at s.made s.session) i s.commands w.held;
      apart = Apart-erase_command i s.commands w.apart;
      calm = w.calm;
    } in
    subst
      (λ (u : Server). Committed text_at i s (record u { commands = erase_command i u.commands }))
      (sym q)
      (
        subst
            (λ ds.
              Waiting text_at
                (record (do_write n (codes "OK") reply t) { commands = erase_command i ds }))
            (sym same.commands)
            (Waiting-Handles text_at n (record t { commands = cs }) _ kept o
              (
                record { db = same.db; made = same.made; commands = refl; session = same.session },
                calm,
              )),
        same.db
            ∙ sym (
                ap (λ x. apply_text x s.db) text
                ∙ apply_text-log_text (s.session n).parser.cmd s.db plain),
      )

pub commit_entry-Committed :
    (text_at : ℕ → Str) (i : ℕ) (s : Server)
    → Waiting text_at s
    → Committed text_at i s (commit_entry (find_command i s.commands) i (text_at i) s)
commit_entry-Committed text_at i s w = elim (Option-cases (find_command i s.commands)) [
  | inl e ↦
      rw e (unfold commit_entry in (record { held = w.held; apart = w.apart; calm = w.calm }, refl))
  | inr (n, e) ↦ rw e (executed-Committed text_at i n s w e)
]
