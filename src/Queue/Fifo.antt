-- ===== src/Queue/Fifo.antt =====
-- Items leave a queue in the order in which they came.
use draft.Base.{
  ◌≡◌, refl, ap, sym, subst, ◌∙◌, Bool, true, false, Option, none, some, List, [], ◌∷◌, ◌++◌,
  append-nil, append_assoc,
}
use mathlib.Core.Option.{some-injective}
use draft.Queue.{Queue, push, pop, try_pop}

module _ {ℓ} {A : Type ℓ} where
  -- The calls of all threads in order: what was pushed, and what was popped.
  pub data Run : Queue A → Queue A → List A → List A → Type ℓ where
    stays : {q : Queue A} → Run q q [] []
    pushes :
        {q r : Queue A} {ins outs : List A} (t : A)
        → Run (push t q) r ins outs
        → Run q r (t ∷ ins) outs
    pops :
        {q p r : Queue A} {ins outs : List A} (t : A)
        → pop q ≡ some (t, p)
        → Run p r ins outs
        → Run q r ins (t ∷ outs)
    tries :
        {q p r : Queue A} {ins outs : List A} (t : A)
        → try_pop q ≡ (true, some t, p)
        → Run p r ins outs
        → Run q r ins (t ∷ outs)
    fails :
        {q p r : Queue A} {ins outs : List A}
        → try_pop q ≡ (false, none, p)
        → Run p r ins outs
        → Run q r ins outs

  pop-front :
      (xs : List A) (t : A) (p : Queue A) → pop (record { que = xs }) ≡ some (t, p) → xs ≡ t ∷ p.que
  unfolding pop
  pop-front [] t p e = cc
  pop-front (x ∷ xs) t p e =
      let both : (x, record { que = xs }) ≡ (t, p) = some-injective _ _ e in
      ap (λ (y : A × Queue A). y.0 ∷ y.1.que) both

  try_pop-pop : (q p : Queue A) (t : A) → try_pop q ≡ (true, some t, p) → pop q ≡ some (t, p)
  unfolding try_pop
  try_pop-pop q p t e = by_answer (pop q) refl e
    where
      by_answer :
          (o : Option (A × Queue A))
          → pop q ≡ o
          → elim o as (λ o. Bool × Option A × Queue A) [
            | none ↦ (false, none, q)
            | some (u, rest) ↦ (true, some u, rest)
          ]
            ≡ (true, some t, p)
          → pop q ≡ some (t, p)
      by_answer none h e = cc
      by_answer (some (u, rest)) h e = h ∙ cc

  try_pop_same : (q p : Queue A) → try_pop q ≡ (false, none, p) → p ≡ q
  unfolding try_pop pop
  try_pop_same q p e = by_items q.que refl e
    where
      by_items :
          (xs : List A)
          → q.que ≡ xs
          → elim (elim xs as (λ x. Option (A × Queue A)) [
            | [] ↦ none
            | ◌∷◌ t ts ↦ some (t, record { que = ts })
          ])
              as (λ o. Bool × Option A × Queue A) [
                | none ↦ (false, none, q)
                | some (u, rest) ↦ (true, some u, rest)
              ]
            ≡ (false, none, p)
          → p ≡ q
      by_items [] h e = sym (ap (λ (y : Bool × Option A × Queue A). y.2) e)
      by_items (x ∷ xs) h e = cc

  -- Whatever calls threads make in whatever order: the items that were popped, and those in the queue
  -- behind them, are the items that were there and those that were pushed, in this order.
  pub Run-que :
      (q r : Queue A) (ins outs : List A) → Run q r ins outs → q.que ++ ins ≡ outs ++ r.que
  unfolding push
  Run-que q _ _ _ stays = append-nil q.que
  Run-que q r _ outs (pushes {ins} t run) =
      sym (append_assoc q.que (t ∷ []) ins) ∙ Run-que (push t q) r ins outs run
  Run-que q r ins _ (pops {p} {outs} t e run) =
      ap (λ xs. xs ++ ins) (pop-front q.que t p e) ∙ ap (λ xs. t ∷ xs) (Run-que p r ins outs run)
  Run-que q r ins _ (tries {p} {outs} t e run) =
      ap (λ xs. xs ++ ins) (pop-front q.que t p (try_pop-pop q p t e))
      ∙ ap (λ xs. t ∷ xs) (Run-que p r ins outs run)
  Run-que q r ins outs (fails {p} e run) =
      subst (λ x. x.que ++ ins ≡ outs ++ r.que) (try_pop_same q p e) (Run-que p r ins outs run)
