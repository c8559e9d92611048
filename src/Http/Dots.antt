-- ===== src/Http/Dots.antt =====
-- The targets of the client hold two dots in a row only where the text does, which `confirm` refuses.
use draft.Base.{
  ℕ, ◌≡◌, refl, ap, sym, ◌∙◌, inl, inr, Bool, false, ◌&&◌, ◌||◌, none, [], ◌∷◌, Str, arith, ◌==◌,
  Bool-cases,
}
use draft.Http.{replace_all, replace_from, append_target}
use draft.Http.Append.{encoded, encoded-cons}
use draft.Http.Serve.{get, confirm, has_dots}

abbrev first_dot : Str → Bool
first_dot [] = false
first_dot (c ∷ s) = c == b'.'

has_dots-cons : (c : ℕ) (s : Str) → has_dots (c ∷ s) ≡ (c == b'.' && first_dot s || has_dots s)
unfolding has_dots
has_dots-cons c [] = ground arith
has_dots-cons c (d ∷ s) = refl

encoded_nil : encoded [] ≡ []
unfolding replace_from
encoded_nil = refl

has_dots_nil : has_dots [] ≡ false
unfolding has_dots
has_dots_nil = refl

has_dots_blank : (s : Str) → has_dots (37 ∷ 50 ∷ 48 ∷ s) ≡ has_dots (48 ∷ s)
unfolding has_dots
has_dots_blank s = refl

first_dot-encoded : (s : Str) → first_dot (encoded s) ≡ first_dot s
first_dot-encoded [] = ap first_dot encoded_nil
first_dot-encoded (c ∷ s) = ap first_dot (encoded-cons c s) ∙ elim (Bool-cases (32 == c)) [
  | inl e ↦ rw e (let away : (c == b'.') ≡ false = ground arith in sym away)
  | inr e ↦ rw e refl
]

has_dots-encoded : (s : Str) → has_dots s ≡ false → has_dots (encoded s) ≡ false
has_dots-encoded [] h = ap has_dots encoded_nil ∙ has_dots_nil
has_dots-encoded (c ∷ s) h =
    let parts : (c == b'.' && first_dot s || has_dots s) ≡ false = sym (has_dots-cons c s) ∙ h in
    let rest : has_dots (encoded s) ≡ false = has_dots-encoded s (ground arith) in
    ap has_dots (encoded-cons c s) ∙ elim (Bool-cases (32 == c)) [
      | inl e ↦ rw e (has_dots_blank (encoded s) ∙ has_dots-cons 48 (encoded s) ∙ rest)
      | inr e ↦ rw e (
          has_dots-cons c (encoded s)
          ∙ ap (λ b. c == b'.' && b || has_dots (encoded s)) (first_dot-encoded s)
          ∙ ap (λ b. c == b'.' && first_dot s || b) rest
          ∙ ground arith)
    ]

-- The target of a text without two dots in a row is confirmed.
pub confirm-append_target :
    (content : Str) → has_dots content ≡ false → confirm get (append_target content) ≡ none
unfolding confirm append_target replace_all has_dots
confirm-append_target content h =
    let clean : has_dots (b'=' ∷ encoded content) ≡ false =
      has_dots-cons b'=' (encoded content) ∙ has_dots-encoded content h in
    rw clean refl
