-- ===== src/Command/Shape.antt =====
-- What the parser accepts, whatever the client sends.
use draft.Base.{ℕ, ◌≡◌, refl, ◌≢◌, ◌⊎◌, inl, inr, [], ◌∷◌, ◌++◌, Str, arith, Bool-cases, ◌==◌}
use draft.Command.{
  Command, CommandType, get, set, del, State, start, type_g, type_ge, type_s, type_se, type_set,
  type_d, type_de, type_done, read_key, read_set_key, read_set_blank, read_set_value, carriage,
  Parser, ResultType, good, bad, need_more, fresh, step, do_parse, parse,
}

abbrev pub TakesKey : CommandType → Type 0
TakesKey t = (t ≡ get) ⊎ (t ≡ del)

-- A command that can be handed to the server: `get` or `del` with a key, or `set` with both texts.
abbrev pub IsComplete : Command → Type 0
IsComplete c =
    (c.key ≢ []) × (((c.type ≡ set) × (c.value ≢ [])) ⊎ (TakesKey c.type × (c.value ≡ [])))

abbrev Blank : Command → Type 0
Blank c = (c.key ≡ []) × (c.value ≡ [])

-- What holds of the command in each state.
abbrev pub Holds : State → Command → Type 0
Holds start c = Blank c
Holds type_g c = Blank c
Holds type_ge c = Blank c
Holds type_s c = Blank c
Holds type_se c = Blank c
Holds type_d c = Blank c
Holds type_de c = Blank c
Holds type_set c = (c.type ≡ set) × Blank c
Holds type_done c = TakesKey c.type × Blank c
Holds read_key c = (c.key ≢ []) × TakesKey c.type × (c.value ≡ [])
Holds read_set_key c = (c.key ≢ []) × (c.type ≡ set) × (c.value ≡ [])
Holds read_set_blank c = (c.key ≢ []) × (c.type ≡ set) × (c.value ≡ [])
Holds read_set_value c = (c.key ≢ []) × (c.type ≡ set) × (c.value ≢ [])
Holds carriage c = IsComplete c

snoc-ne-nil : (s : Str) (c : ℕ) → s ++ c ∷ [] ≢ []
snoc-ne-nil [] c e = cc
snoc-ne-nil (x ∷ s) c e = cc

abbrev HoldsIn : Parser → Type 0
HoldsIn p = Holds p.state p.cmd

step-Holds : (s : State) (cmd : Command) (c : ℕ) → Holds s cmd → HoldsIn (step s cmd c).0
unfolding step
step-Holds read_key cmd c h = elim (Bool-cases (c == 13)) [
  | inl e ↦ rw (e, step) (h.0, inr (h.1, h.2))
  | inr e ↦ rw (e, step) (snoc-ne-nil cmd.key c, h.1, h.2)
]
step-Holds s cmd c h = ground (arith, snoc-ne-nil cmd.key c, snoc-ne-nil cmd.value c)

step-IsComplete :
    (s : State) (cmd : Command) (c : ℕ)
    → Holds s cmd
    → (step s cmd c).1 ≡ good
    → IsComplete (step s cmd c).0.cmd
unfolding step
step-IsComplete carriage cmd c h e = h
step-IsComplete s cmd c h e = absurd (ground arith)

ResultType-cases : (r : ResultType) → (r ≡ good) ⊎ (r ≡ need_more) ⊎ (r ≡ bad)
ResultType-cases good = inl refl
ResultType-cases need_more = inr (inl refl)
ResultType-cases bad = inr (inr refl)

module _ (q : Parser) (rest : Str) where
  parse-IsComplete_held :
      (bytes : Str) (p : Parser) → HoldsIn p → parse p bytes ≡ (q, good, rest) → IsComplete q.cmd
  unfolding parse do_parse
  parse-IsComplete_held [] p h e = cc
  parse-IsComplete_held (c ∷ bytes) p h e = elim (ResultType-cases (step p.state p.cmd c).1) [
    | inl r ↦ let same : (step p.state p.cmd c).0 ≡ q = ground arith in rw same at (ap_complete r)
    | inr (inl r) ↦
        parse-IsComplete_held bytes (step p.state p.cmd c).0 (step-Holds p.state p.cmd c h)
          (ground arith)
    | inr (inr r) ↦ cc
  ]
    where
      ap_complete : (step p.state p.cmd c).1 ≡ good → IsComplete (step p.state p.cmd c).0.cmd
      ap_complete = step-IsComplete p.state p.cmd c h

-- From a fresh parser, an accepted command is `get` or `del` with a key that is not empty and
-- no value, or `set` with a key and a value that are not empty.
pub parse-IsComplete :
    (bytes rest : Str) (q : Parser) → parse fresh bytes ≡ (q, good, rest) → IsComplete q.cmd
parse-IsComplete bytes rest q e = parse-IsComplete_held q rest bytes fresh (refl, refl) e
