-- ===== src/Storage/Input.antt =====
-- server/storage_server.hpp: what `apply` reads of an entry with `std::istringstream`.
use draft.Base.{
  is_space, skip_space, ℕ, ◌≡◌, refl, ap, true, false, [], ◌∷◌, ◌++◌, Str, All, ◌==◌, if◌then◌else◌,
}

-- The bytes up to a white space, and what is left.
unfoldable pub word : Str → Str × Str
word [] = ([], [])
word (c ∷ s) = let (w, rest) = word s in if is_space c then ([], c ∷ s) else (c ∷ w, rest)

-- `input >> s`
unfoldable pub read_word : Str → Str × Str
read_word s = word (skip_space s)

-- `input.get()`
unfoldable pub skip_one : Str → Str
skip_one [] = []
skip_one (c ∷ s) = s

-- `std::getline`
unfoldable pub read_line : Str → Str
read_line [] = []
read_line (c ∷ s) = let rest = read_line s in if c == 10 then [] else c ∷ rest

abbrev pub NoSpace : Str → Type 0
NoSpace = All (λ c. is_space c ≡ false)

abbrev pub NoNewline : Str → Type 0
NoNewline = All (λ c. (c == 10) ≡ false)

pub word-NoSpace : (k : Str) → NoSpace k → word k ≡ (k, [])
unfolding word
word-NoSpace [] h = refl
word-NoSpace (c ∷ k) (a, h) = rw a (rw (word-NoSpace k h) refl)

pub word-append :
    (k : Str) (c : ℕ) (rest : Str)
    → NoSpace k
    → is_space c ≡ true
    → word (k ++ c ∷ rest) ≡ (k, c ∷ rest)
unfolding word
word-append [] c rest h sp = rw sp refl
word-append (d ∷ k) c rest (a, h) sp = rw a (rw (word-append k c rest h sp) refl)

pub read_line-NoNewline : (v : Str) → NoNewline v → read_line v ≡ v
unfolding read_line
read_line-NoNewline [] h = refl
read_line-NoNewline (c ∷ v) (a, h) = rw a (ap (λ t. c ∷ t) (read_line-NoNewline v h))
