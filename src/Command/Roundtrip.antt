-- ===== src/Command/Roundtrip.antt =====
-- The lines that spell commands, and the bytes of a line cut into reads.
use draft.Base.{
  ℕ, ◌≡◌, ◌≢◌, refl, sym, ap, false, [], ◌∷◌, ◌++◌, append_assoc, append-nil, Str, codes, All, ◌∙◌,
  ◌==◌, arith,
}
use draft.Command.{
  Command, CommandType, get, set, del, unknown, State, type_done, read_key, read_set_key,
  read_set_blank, read_set_value, type_set, carriage, Parser, fresh, empty_command, Parsed,
  ResultType, good, bad, need_more, is_blank, is_eol, do_parse, parse,
}

-- The line that a client sends for a command.
abbrev pub line : Command → Str
line c = elim c.type [
  | get ↦ codes "get " ++ (c.key ++ (13 ∷ 10 ∷ []))
  | del ↦ codes "del " ++ (c.key ++ (13 ∷ 10 ∷ []))
  | set ↦ codes "set " ++ (c.key ++ (b' ' ∷ (c.value ++ (13 ∷ 10 ∷ []))))
  | unknown ↦ []
]

-- A text that ends only at a carriage return.
abbrev pub NoReturn : Str → Type 0
NoReturn = All (λ c. (c == 13) ≡ false)

abbrev pub NotBlank : ℕ → Type 0
NotBlank c = is_blank c ≡ false

abbrev pub IsWord : Str → Type 0
IsWord = All (λ c. (is_blank c ≡ false) × (is_eol c ≡ false))

abbrev pub done : Command → Str → Parsed
done c rest = (record { state = carriage; cmd = c }, good, rest)

abbrev at : State → Command → Parser
at s cmd = record { state = s; cmd = cmd }

-- One byte that leaves the command open.
parse-more :
    (s t : State) (cmd d : Command) (c : ℕ) (rest : Str)
    → do_parse (at s cmd) c ≡ (at t d, need_more)
    → parse (at s cmd) (c ∷ rest) ≡ parse (at t d) rest
unfolding parse
parse-more s t cmd d c rest e = rw (e, parse) (ap (λ (q : Parser × ResultType). parse q.0 rest) e)

parse-read_key :
    (k : Str) (cmd : Command) (rest : Str)
    → NoReturn k
    → parse (record { state = read_key; cmd = cmd }) (k ++ (13 ∷ 10 ∷ rest))
      ≡ done (record cmd { key = cmd.key ++ k }) rest
parse-read_key [] cmd rest h = unfold parse do_parse in rw append-nil
parse-read_key (c ∷ k) cmd rest h =
    parse-more read_key read_key cmd (record cmd { key = cmd.key ++ c ∷ [] }) c _
      (unfold do_parse in ground arith)
    ∙ parse-read_key k (record cmd { key = cmd.key ++ c ∷ [] }) rest h.1
    ∙ rw append_assoc

parse-read_set_value :
    (v : Str) (cmd : Command) (rest : Str)
    → NoReturn v
    → parse (record { state = read_set_value; cmd = cmd }) (v ++ (13 ∷ 10 ∷ rest))
      ≡ done (record cmd { value = cmd.value ++ v }) rest
parse-read_set_value [] cmd rest h = unfold parse do_parse in rw append-nil
parse-read_set_value (c ∷ v) cmd rest h =
    parse-more read_set_value read_set_value cmd (record cmd { value = cmd.value ++ c ∷ [] }) c _
      (unfold do_parse in ground arith)
    ∙ parse-read_set_value v (record cmd { value = cmd.value ++ c ∷ [] }) rest h.1
    ∙ rw append_assoc

parse-read_set_key :
    (k : Str) (cmd : Command) (rest : Str)
    → IsWord k
    → parse (record { state = read_set_key; cmd = cmd }) (k ++ (b' ' ∷ rest))
      ≡ parse (record { state = read_set_blank; cmd = record cmd { key = cmd.key ++ k } }) rest
parse-read_set_key [] cmd rest h = unfold parse do_parse is_blank is_eol in rw append-nil
parse-read_set_key (c ∷ k) cmd rest h =
    parse-more read_set_key read_set_key cmd (record cmd { key = cmd.key ++ c ∷ [] }) c _
      (unfold do_parse is_blank is_eol in ground arith)
    ∙ parse-read_set_key k (record cmd { key = cmd.key ++ c ∷ [] }) rest h.1
    ∙ rw append_assoc

-- The commands that a line can carry: a `get` or `del` key starts with a byte that is neither blank
-- nor a line end and holds no carriage return, a `set` key is a word that is not empty, and
-- a `set` value is a text of the first kind.
abbrev pub IsText : Str → Type 0
IsText [] = ⊥
IsText (c ∷ s) = (is_blank c ≡ false) × (is_eol c ≡ false) × NoReturn s

abbrev pub IsKey : Str → Type 0
IsKey [] = ⊥
IsKey (c ∷ s) = IsWord (c ∷ s)

abbrev pub IsSendable : Command → Type 0
IsSendable c = elim c.type [
  | get ↦ IsText c.key × (c.value ≡ [])
  | del ↦ IsText c.key × (c.value ≡ [])
  | set ↦ IsKey c.key × IsText c.value
  | unknown ↦ ⊥
]

parse-type_done :
    (k : Str) (t : CommandType) (rest : Str)
    → IsText k
    → parse
        (record { state = type_done; cmd = record empty_command { type = t } })
        (k ++ (13 ∷ 10 ∷ rest))
      ≡ done (record { key = k; value = []; type = t }) rest
parse-type_done [] t rest h = absurd h
parse-type_done (c ∷ k) t rest h =
    parse-more type_done read_key (record empty_command { type = t })
      (record { key = c ∷ []; value = []; type = t }) c _
      (unfold do_parse is_blank is_eol in ground arith)
    ∙ parse-read_key k _ rest h.2

parse-read_set_blank :
    (v : Str) (cmd : Command) (rest : Str)
    → IsText v
    → cmd.value ≡ []
    → parse (record { state = read_set_blank; cmd = cmd }) (v ++ (13 ∷ 10 ∷ rest))
      ≡ done (record cmd { value = v }) rest
parse-read_set_blank [] cmd rest h e = absurd h
parse-read_set_blank (c ∷ v) cmd rest h e =
    parse-more read_set_blank read_set_value cmd (record cmd { value = c ∷ [] }) c _
      (unfold do_parse is_blank is_eol in ground arith)
    ∙ parse-read_set_value v _ rest h.2

parse-type_set :
    (k v : Str) (rest : Str)
    → IsKey k
    → IsText v
    → parse
        (record { state = type_set; cmd = record empty_command { type = set } })
        (k ++ (b' ' ∷ (v ++ (13 ∷ 10 ∷ rest))))
      ≡ done (record { key = k; value = v; type = set }) rest
parse-type_set [] v rest hk hv = absurd hk
parse-type_set (c ∷ k) v rest hk hv =
    parse-more type_set read_set_key (record empty_command { type = set })
      (record { key = c ∷ []; value = []; type = set }) c _
      (unfold do_parse is_blank is_eol in ground arith)
    ∙ parse-read_set_key k _ _ hk.1
    ∙ parse-read_set_blank v _ rest hv refl

parse-line_of :
    (t : CommandType) (k v rest : Str)
    → IsSendable (record { key = k; value = v; type = t })
    → parse fresh (line (record { key = k; value = v; type = t }) ++ rest)
      ≡ done (record { key = k; value = v; type = t }) rest
unfolding parse do_parse is_blank is_eol
parse-line_of get k v rest h = simp (append_assoc, h.1) (parse-type_done k get rest h.0)
parse-line_of del k v rest h = simp (append_assoc, h.1) (parse-type_done k del rest h.0)
parse-line_of set k v rest h = simp append_assoc (parse-type_set k v rest h.0 h.1)
parse-line_of unknown k v rest h = absurd h

-- From a fresh parser, the line of a command whose key and value can be sent is read back as that
-- command, all of it and no byte of what follows.
pub parse-line :
    (c : Command) (rest : Str) → IsSendable c → parse fresh (line c ++ rest) ≡ done c rest
parse-line c rest h = parse-line_of c.type c.key c.value rest h

-- What the parser makes of the first read, and then of the second.
parse-append :
    (p : Parser) (xs ys : Str)
    → parse p (xs ++ ys) ≡ (
        let (p', r, left) = parse p xs in
        elim r [
          | need_more ↦ parse p' ys
          | good ↦ (p', good, left ++ ys)
          | bad ↦ (p', bad, left ++ ys)
        ])
unfolding parse
parse-append p [] ys = refl
parse-append p (x ∷ xs) ys = ground (arith, parse-append (do_parse p x).0 xs ys)

parse-need_more : (p q : Parser) (xs left : Str) → parse p xs ≡ (q, need_more, left) → left ≡ []
unfolding parse
parse-need_more p q [] left e = cc
parse-need_more p q (x ∷ xs) left e = ground (arith, parse-need_more (do_parse p x).0 q xs left)

append-empty : (left ys : Str) → left ++ ys ≡ [] → ys ≡ []
append-empty [] ys e = e
append-empty (x ∷ left) ys e = absurd (cc)

-- The line of a command whose key and value can be sent, cut in two anywhere before its end: the parser
-- takes all of the first read and leaves the command open, and from the state that it is in, it reads the
-- second as the rest of that command, and no byte of what follows.
pub parse-cut :
    (c : Command) (xs ys rest : Str)
    → IsSendable c
    → xs ++ ys ≡ line c
    → ys ≢ []
    → (p : Parser) × (parse fresh xs ≡ (p, need_more, [])) × (parse p (ys ++ rest) ≡ done c rest)
parse-cut c xs ys rest h cut more = by_read (parse fresh xs) refl
  where
    bad-good : bad ≡ good → ⊥
    bad-good e = cc

    join : Str → Parsed → Parsed
    join zs (p, r, left) = elim r [
      | need_more ↦ parse p zs
      | good ↦ (p, good, left ++ zs)
      | bad ↦ (p, bad, left ++ zs)
    ]

    whole : (rest : Str) → parse fresh (xs ++ (ys ++ rest)) ≡ done c rest
    whole rest =
        ap (parse fresh) (sym (append_assoc xs ys rest) ∙ ap (λ s. s ++ rest) cut)
        ∙ parse-line c rest h

    by_read :
        (o : Parsed)
        → parse fresh xs ≡ o
        → (p : Parser) × (parse fresh xs ≡ (p, need_more, []))
          × (parse p (ys ++ rest) ≡ done c rest)
    by_read (q, need_more, left) e = (
      q,
      e ∙ ap (λ s. (q, need_more, s)) (parse-need_more fresh q xs left e),
      sym (parse-append fresh xs (ys ++ rest) ∙ ap (join (ys ++ rest)) e) ∙ whole rest,
    )
    by_read (q, good, left) e =
        let closed : (q, good, left ++ (ys ++ [])) ≡ done c [] =
          sym (parse-append fresh xs (ys ++ []) ∙ ap (join (ys ++ [])) e) ∙ whole [] in
        absurd (
          more
            (sym (append-nil ys) ∙ append-empty left (ys ++ []) (ap (λ (x : Parsed). x.2) closed)))
    by_read (q, bad, left) e =
        let closed : (q, bad, left ++ (ys ++ [])) ≡ done c [] =
          sym (parse-append fresh xs (ys ++ []) ∙ ap (join (ys ++ [])) e) ∙ whole [] in
        absurd (bad-good (ap (λ (x : Parsed). x.1) closed))
