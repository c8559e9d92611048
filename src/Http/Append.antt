-- ===== src/Http/Append.antt =====
-- The text that an operator gives the client is the text that the server appends.
use draft.Base.{
  ℕ, zero, ◌≡◌, refl, ap, sym, subst, ◌∙◌, inl, inr, true, false, none, some, [], ◌∷◌, ◌++◌, Str,
  codes, arith, ◌==◌, if◌then◌else◌, Bool-cases, str_eq,
}
use draft.Split.{split}
use draft.Split.Join.{IsPart, split-join}
use draft.Http.{
  starts_with, replace_from, replace_all, append_target, cut_last, handler_of, dispatch,
  handle_append_entry, find_param, find_request_params, parameter, appended_text, path_of, param_of,
  value_of, value_or_else,
}

cut_last-IsPart : (sep : ℕ) (s : Str) → IsPart sep s → cut_last sep s ≡ none
unfolding cut_last
cut_last-IsPart sep [] h = refl
cut_last-IsPart sep (c ∷ s) (a, h) = rw (cut_last-IsPart sep s h) (rw a refl)

cut_last-append : (sep : ℕ) (p s : Str) → IsPart sep s → cut_last sep (p ++ sep ∷ s) ≡ some (p, s)
unfolding cut_last
cut_last-append sep [] s h =
    let here : (sep == sep) ≡ true = ground arith in rw (cut_last-IsPart sep s h) (rw here refl)
cut_last-append sep (c ∷ p) s h = rw (cut_last-append sep p s h) refl

abbrev pub encoded : Str → Str
encoded s = replace_from (codes " ") (codes "%20") zero s

pub encoded-cons :
    (c : ℕ) (s : Str)
    → encoded (c ∷ s) ≡ (if 32 == c then 37 ∷ 50 ∷ 48 ∷ encoded s else c ∷ encoded s)
unfolding replace_from starts_with
encoded-cons c s = elim (Bool-cases (32 == c)) [ inl e ↦ rw e refl | inr e ↦ rw e refl ]

encoded-IsPart :
    (sep : ℕ) (s : Str)
    → (37 == sep) ≡ false
    → (50 == sep) ≡ false
    → (48 == sep) ≡ false
    → IsPart sep s
    → IsPart sep (encoded s)
encoded-IsPart sep [] a b c h = unfold replace_from in tt
encoded-IsPart sep (x ∷ s) a b c (y, h) =
    let rest = encoded-IsPart sep s a b c h in
    subst (IsPart sep) (sym (encoded-cons x s))
      (elim (Bool-cases (32 == x)) [ inl e ↦ rw e (a, (b, (c, rest))) | inr e ↦ rw e (y, rest) ])

abbrev decoded : Str → Str
decoded s = replace_from (codes "%20") (codes " ") zero s

decoded_blank : (t : Str) → decoded (37 ∷ 50 ∷ 48 ∷ t) ≡ 32 ∷ decoded t
unfolding replace_from starts_with
decoded_blank t = refl

decoded_other : (c : ℕ) (t : Str) → (37 == c) ≡ false → decoded (c ∷ t) ≡ c ∷ decoded t
unfolding replace_from starts_with
decoded_other c t h = rw h refl

decoded-encoded : (s : Str) → IsPart 37 s → decoded (encoded s) ≡ s
decoded-encoded [] h = unfold replace_from in refl
decoded-encoded (c ∷ s) (a, h) =
    let rest = decoded-encoded s h in
    let other : (37 == c) ≡ false = ground arith in
    ap decoded (encoded-cons c s) ∙ elim (Bool-cases (32 == c)) [
      | inl e ↦
          let blank : 32 ≡ c = ground arith in
          rw e (decoded_blank (encoded s) ∙ ap (λ t. 32 ∷ t) rest ∙ ap (λ x. x ∷ s) blank)
      | inr e ↦ rw e (decoded_other c (encoded s) other ∙ ap (λ t. c ∷ t) rest)
    ]

-- A text without the bytes that a target gives a meaning.
abbrev pub IsPlainText : Str → Type 0
IsPlainText s = IsPart b'%' s × IsPart b'?' s × IsPart b'&' s × IsPart b'=' s

found_param :
    (v : Str)
    → IsPart b'&' v
    → IsPart b'=' v
    → find_request_params (codes "content" ++ b'=' ∷ v) (codes "content") ≡ v
unfolding find_request_params find_param
found_param v amp eq =
    let one : split b'&' (codes "content" ++ b'=' ∷ v) ≡ (codes "content" ++ b'=' ∷ v) ∷ [] =
      split-join b'&' (codes "content" ++ b'=' ∷ v) []
        (refl, (refl, (refl, (refl, (refl, (refl, (refl, (refl, amp)))))))) tt in
    let two : split b'=' (codes "content" ++ b'=' ∷ v) ≡ codes "content" ∷ v ∷ [] =
      split-join b'=' (codes "content") (v ∷ [])
        (refl, (refl, (refl, (refl, (refl, (refl, (refl, tt))))))) (eq, tt) in
    ap (λ ps. find_param ps (codes "content")) one
    ∙ ap (λ parts. value_or_else [] (value_of (codes "content") parts)) two
    ∙ unfold str_eq in refl

-- What the server finds in the target of a plain text.
module _ (content : Str) (plain : IsPlainText content) where
  cut_lem :
      cut_last b'?' (append_target content)
      ≡ some (codes "/append", codes "content" ++ b'=' ∷ encoded content)
  unfolding append_target replace_all
  cut_lem = cut_last-append b'?' (codes "/append") (codes "content" ++ b'=' ∷ encoded content) (
    refl,
    (
      refl,
      (
        refl,
        (
          refl,
          (refl, (refl, (refl, (refl, encoded-IsPart b'?' content refl refl refl (plain.1))))),
        ),
      ),
    ),
  )

  pub dispatch-append_target : dispatch (append_target content) ≡ some handle_append_entry
  unfolding dispatch
  dispatch-append_target =
      ap (λ o. handler_of (path_of (append_target content) o)) cut_lem
      ∙ unfold handler_of in unfold str_eq in refl

  pub parameter-append_target :
      parameter (append_target content) (codes "content") ≡ encoded content
  unfolding parameter
  parameter-append_target =
      ap (λ o. param_of (codes "content") o) cut_lem
      ∙ found_param (encoded content) (encoded-IsPart b'&' content refl refl refl (plain.2))
          (encoded-IsPart b'=' content refl refl refl (plain.3))

  pub appended_text-append_target : appended_text (append_target content) ≡ content
  unfolding appended_text replace_all
  appended_text-append_target =
      ap decoded parameter-append_target ∙ decoded-encoded content (plain.0)
