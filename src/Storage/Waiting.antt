-- ===== src/Storage/Waiting.antt =====
-- The invariant of the sessions that wait for a commit.
use draft.Base.{
  ℕ, ◌<◌, ◌≡◌, refl, ap, sym, subst, ◌∙◌, ◌⊎◌, inl, inr, true, false, List, [], ◌∷◌, Str, ◌==◌,
  arith, Bool-cases, Option-cases, All,
}
use draft.Storage.Execute.{IsPlain}
use draft.Storage.{Session, Server, log_text, find_command, insert_command}
use draft.Storage.Steps.{SameBut, Calm, Handles}
use draft.Storage.Calls.{Touches}

abbrev pub Commands : Type 0
Commands = List (ℕ × ℕ)

-- The session `c.1` has no call that waits, and its command is the one whose text is committed at `c.0`.
abbrev pub HeldBy : (ℕ → Str) → ℕ → (ℕ → Session) → ℕ × ℕ → Type 0
HeldBy text_at made session c =
    (c.1 < made)
    × ((session c.1).reading ≡ false)
    × ((session c.1).writing ≡ false)
    × IsPlain (session c.1).parser.cmd
    × (text_at c.0 ≡ log_text (session c.1).parser.cmd)

abbrev pub Held : (ℕ → Str) → Server → Commands → Type 0
Held text_at s = All (HeldBy text_at s.made s.session)

abbrev pub NotIn : ℕ → Commands → Type 0
NotIn n = All (λ c. (c.1 == n) ≡ false)

-- No session waits twice.
abbrev pub Apart : Commands → Type 0
Apart [] = Unit
Apart (c ∷ cs) = NotIn c.1 cs × Apart cs

pub record Waiting (text_at : ℕ → Str) (s : Server) : Type 0 where
  pub held : Held text_at s s.commands
  pub apart : Apart s.commands
  pub calm : (n : ℕ) → Calm n s

-- A session with a call that waits for its socket does not wait for a commit.
pub busy-NotIn :
    (text_at : ℕ → Str) (s : Server) (n : ℕ) (cs : Commands)
    → Held text_at s cs
    → ((s.session n).reading ≡ true) ⊎ ((s.session n).writing ≡ true)
    → NotIn n cs
busy-NotIn text_at s n [] h b = tt
busy-NotIn text_at s n (c ∷ cs) (h, hs) b = (other, busy-NotIn text_at s n cs hs b)
  where
    absurd_flags : false ≡ true → (c.1 == n) ≡ false
    absurd_flags e = cc

    other : (c.1 == n) ≡ false
    other = elim (Bool-cases (c.1 == n)) [
      | inr e ↦ e
      | inl e ↦
          let same : c.1 ≡ n = ground arith in
          elim b [
            | inl r ↦ absurd_flags (sym (h.1) ∙ ap (λ m. (s.session m).reading) same ∙ r)
            | inr w ↦ absurd_flags (sym (h.2) ∙ ap (λ m. (s.session m).writing) same ∙ w)
          ]
    ]

-- Calls of a session that does not wait leave the others.
pub Held-SameBut :
    (text_at : ℕ → Str) (n : ℕ) (s t : Server) (cs : Commands)
    → SameBut n s t
    → NotIn n cs
    → Held text_at s cs
    → Held text_at t cs
Held-SameBut text_at n s t [] a o h = tt
Held-SameBut text_at n s t (c ∷ cs) a (o, os) (h, hs) = (
  subst (λ m. HeldBy text_at m t.session c) (sym a.made)
      (subst
        (λ (x : Session).
          (c.1 < s.made)
          × (x.reading ≡ false)
          × (x.writing ≡ false)
          × IsPlain x.parser.cmd
          × (text_at c.0 ≡ log_text x.parser.cmd))
        (sym (a.session c.1 o)) h),
  Held-SameBut text_at n s t cs a os hs,
)

pub Calm-SameBut :
    (n : ℕ) (s t : Server) → SameBut n s t → ((m : ℕ) → Calm m s) → Calm n t → (m : ℕ) → Calm m t
Calm-SameBut n s t a calm here m = elim (Bool-cases (m == n)) [
  | inl e ↦ (let same : n ≡ m = ground arith in subst (λ k. Calm k t) same here)
  | inr e ↦
      subst (λ (x : Session). (x.reading ≡ false) ⊎ (x.writing ≡ false)) (sym (a.session m e))
        (calm m)
]

pub Waiting-Handles :
    (text_at : ℕ → Str) (n : ℕ) (s t : Server)
    → Waiting text_at s
    → NotIn n s.commands
    → Handles n s t
    → Waiting text_at t
Waiting-Handles text_at n s t w o (a, calm) = record {
  held = subst (Held text_at t) (sym a.commands) (Held-SameBut text_at n s t s.commands a o w.held);
  apart = subst Apart (sym a.commands) w.apart;
  calm = Calm-SameBut n s t a w.calm calm;
}

insert_command_cases :
    (i n : ℕ) (cs : Commands) → (insert_command i n cs ≡ (i, n) ∷ cs) ⊎ (insert_command i n cs ≡ cs)
insert_command_cases i n cs = elim (Option-cases (find_command i cs)) [
  | inl e ↦ inl (rw (insert_command, e) refl)
  | inr (m, e) ↦ inr (rw (insert_command, e) refl)
]

Waiting-insert :
    (text_at : ℕ → Str) (i n : ℕ) (t : Server)
    → Waiting text_at t
    → NotIn n t.commands
    → HeldBy text_at t.made t.session (i, n)
    → Waiting text_at (record t { commands = insert_command i n t.commands })
Waiting-insert text_at i n t w o h = elim (insert_command_cases i n t.commands) [
  | inl e ↦
      subst (λ cs. Waiting text_at (record t { commands = cs })) (sym e)
        (record { held = (h, w.held); apart = (o, w.apart); calm = w.calm })
  | inr e ↦ subst (λ cs. Waiting text_at (record t { commands = cs })) (sym e) w
]

pub Waiting-Touches :
    (text_at : ℕ → Str) (n : ℕ) (s u : Server)
    → Waiting text_at s
    → n < s.made
    → NotIn n s.commands
    → Touches text_at n s u
    → Waiting text_at u
Waiting-Touches text_at n s u w le o (inl h) = Waiting-Handles text_at n s u w o h
Waiting-Touches text_at n s u w le o (inr (t, a, idle, i, e, plain, text)) =
    subst (Waiting text_at) (sym e) (
      Waiting-insert text_at i n t (Waiting-Handles text_at n s t w o (a, inl idle.0))
        (subst (NotIn n) (sym a.commands) o)
        (omega (arith, le, a.made), idle.0, idle.1, plain, text))
