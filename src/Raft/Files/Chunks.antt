-- ===== src/Raft/Files/Chunks.antt =====
-- The requests for one file, from the first to the last.
use draft.Base.{
  ℕ, zero, suc, ◌+◌, ◌≤◌, ◌<◌, ◌≡◌, ◌≢◌, refl, sym, ap, ◌∙◌, subst, inl, inr, Bool, true, false,
  not, ◌||◌, Option, none, some, List, [], ◌∷◌, ◌++◌, append_assoc, Str, str_eq, length, take, drop,
  take-append-drop, length-take, length-drop, ◌==◌, if◌then◌else◌, arith, Bool-cases,
}
use draft.Raft.Files.{Item, regular_file, Source, Receiver, directory_of, request_for, transfer_all}
use draft.Raft.Files.Received.{is_absent, receiving, receive-first, receive-more}

take_of_short : (n : ℕ) (xs : Str) → length xs ≤ n → take n xs ≡ xs
take_of_short zero [] h = refl
take_of_short zero (x ∷ xs) h = absurd (omega arith)
take_of_short (suc n) [] h = refl
take_of_short (suc n) (x ∷ xs) h = ap (λ ys. x ∷ ys) (take_of_short n xs (omega arith))

take_partly : (n : ℕ) (xs : Str) → (length (take n xs) == n) ≡ false → take n xs ≡ xs
take_partly n xs h = take_of_short n xs (ground (arith, length-take n xs))

abbrev pub source : Str → Option Str → ℕ → Source
source n fin g = record { last = n; fin = fin; gcount = g }

module _ (buff : ℕ) (positive : 0 < buff) where
  -- The transfer goes on with the items behind a file that has arrived.
  abbrev pub Continues :
      ℕ → List Item → Bool → Str → Str → List (Str × Str) → List Str → ℕ → Option Receiver → Type 0
  Continues f items full n content fs ds cost result =
      (f' : ℕ) × (g : ℕ) × (f ≤ f' + cost)
      × ((g == buff) ≡ full)
      × (result ≡ transfer_all buff f' items (source n none g) (receiving n content fs ds))

  module _ (items : List Item) (n : Str) (c : ℕ) (cs : Str) (fs : List (Str × Str)) (ds : List Str)
      (named : n ≢ []) (plain : directory_of n ≡ none) (absent : is_absent n fs ≡ true) where
    next_request :
        (f g : ℕ) (rest sent : Str)
        → (length (c ∷ cs) == buff) ≡ false
        → transfer_all buff
            (suc f)
            (regular_file n (c ∷ cs) ∷ items)
            (source n (some rest) g)
            (receiving n sent fs ds)
          ≡ (if not (length (take buff rest) == buff)
              then transfer_all buff f items
                  (source n none (length (take buff rest)))
                  (receiving n (sent ++ take buff rest) fs ds)
              else transfer_all buff f
                  (regular_file n (c ∷ cs) ∷ items)
                  (source n (some (drop buff rest)) (length (take buff rest)))
                  (receiving n (sent ++ take buff rest) fs ds))
    unfolding transfer_all request_for
    next_request f g rest sent other =
        rw (other, receive-more n (take buff rest) sent fs ds named plain absent)
          (elim (Bool-cases (length (take buff rest) == buff)) [
            | inl e ↦ rw e refl
            | inr e ↦ rw e refl
          ])

    chunks :
        (f g : ℕ) (rest sent : Str)
        → (length (c ∷ cs) == buff) ≡ false
        → sent ++ rest ≡ c ∷ cs
        → length rest < f
        → Continues f items false n (c ∷ cs) fs ds (length rest + 1) (
            transfer_all buff f
              (regular_file n (c ∷ cs) ∷ items)
              (source n (some rest) g)
              (receiving n sent fs ds))
    chunks zero g rest sent other whole lt = absurd (omega arith)
    chunks (suc f) g rest sent other whole lt =
        elim (Bool-cases (length (take buff rest) == buff)) [
          | inr part ↦ (
            f,
            length (take buff rest),
            omega arith,
            part,
            next_request f g rest sent other
                ∙ (rw part (
                    ap
                      (λ s.
                        transfer_all buff f items (source n none (length (take buff rest)))
                          (receiving n s fs ds))
                      (ap (λ t. sent ++ t) (take_partly buff rest part) ∙ whole))),
          )
          | inl full ↦
              let long = length-take buff rest in
              let left = length-drop buff rest in
              let (f', g', le, e, q) =
                chunks f (length (take buff rest)) (drop buff rest) (sent ++ take buff rest) other
                  (append_assoc sent (take buff rest) (drop buff rest)
                    ∙ (ap (λ t. sent ++ t) (take-append-drop buff rest) ∙ whole))
                  (ground arith) in
              (f', g', ground arith, e, next_request f g rest sent other ∙ (rw full q))
        ]

    -- The first request for the file.
    first_step :
        (f g : ℕ) (last : Str) (v : Receiver)
        → str_eq n v.last ≡ false
        → is_absent n v.files ≡ true
        → transfer_all buff (suc f) (regular_file n (c ∷ cs) ∷ items) (source last none g) v ≡ (
            if not (length (take buff (c ∷ cs)) == buff) || (length (c ∷ cs) == buff)
            then transfer_all buff f items
                (source n none (length (take buff (c ∷ cs))))
                (receiving n (take buff (c ∷ cs)) v.files v.directories)
            else transfer_all buff f
                (regular_file n (c ∷ cs) ∷ items)
                (source n (some (drop buff (c ∷ cs))) (length (take buff (c ∷ cs))))
                (receiving n (take buff (c ∷ cs)) v.files v.directories))
    unfolding transfer_all request_for
    first_step f g last v new there =
        rw (receive-first n (take buff (c ∷ cs)) v named plain new there) refl

  pub one_file :
      (items : List Item) (n : Str) (c : ℕ) (cs : Str) (f g : ℕ) (last : Str) (v : Receiver)
      → n ≢ []
      → directory_of n ≡ none
      → str_eq n v.last ≡ false
      → is_absent n v.files ≡ true
      → length (c ∷ cs) < suc f
      → Continues
          (suc f)
          items
          (length (c ∷ cs) == buff)
          n
          (c ∷ cs)
          v.files
          v.directories
          (length (c ∷ cs) + 1)
          (transfer_all buff (suc f) (regular_file n (c ∷ cs) ∷ items) (source last none g) v)
  one_file items n c cs f g last v named plain new there lt =
      let q =
        first_step items n c cs v.files v.directories named plain there f g last v new there in
      elim (Bool-cases (length (take buff (c ∷ cs)) == buff)) [
        | inr part ↦
            let whole = take_partly buff (c ∷ cs) part in
            let other : (length (c ∷ cs) == buff) ≡ false =
              subst (λ t. (length t == buff) ≡ false) whole part in
            (
              f,
              length (take buff (c ∷ cs)),
              omega arith,
              part ∙ sym other,
              q
                  ∙ (rw part (
                      ap
                        (λ s.
                          transfer_all buff f items (source n none (length (take buff (c ∷ cs))))
                            (receiving n s v.files v.directories))
                        whole)),
            )
        | inl full ↦ elim (Bool-cases (length (c ∷ cs) == buff)) [
          | inl exact ↦
              let whole = take_of_short buff (c ∷ cs) (ground arith) in
              (
                f,
                length (take buff (c ∷ cs)),
                omega arith,
                full ∙ sym exact,
                q
                    ∙ (rw (full, exact)
                        (ap
                          (λ s.
                            transfer_all buff f items (source n none (length (take buff (c ∷ cs))))
                              (receiving n s v.files v.directories))
                          whole)),
              )
          | inr other ↦
              let long = length-take buff (c ∷ cs) in
              let left = length-drop buff (c ∷ cs) in
              let (f', g', le, e, p) =
                chunks items n c cs v.files v.directories named plain there f
                  (length (take buff (c ∷ cs))) (drop buff (c ∷ cs)) (take buff (c ∷ cs)) other
                  (take-append-drop buff (c ∷ cs)) (ground arith) in
              (f', g', ground arith, e ∙ sym other, q ∙ (rw (full, other) p))
        ]
      ]
