-- ===== src/Log/Rewind.antt =====
-- The loops of `chop` and `drop` that follow the configuration entries back.
use native.Mathlib.Nat.{zero-add}
use draft.Base.{
  ℕ, zero, suc, ◌+◌, ◌-◌, ◌≤◌, ◌<◌, ◌≡◌, refl, ap, ◌∙◌, inl, inr, false, not, ◌&&◌, Option, some,
  List, [], ◌∷◌, get_elem?, take, drop, ltb, leb, ◌==◌, arith, Bool-cases,
}
use draft.Log.Entry.{LogEntry, prev_cfg}
use draft.Log.{EntryLogger, rewind, last_cfg_upto}
use draft.Log.View.{Rep, Chain, stop, link, entry_at}
use draft.Log.Lookup.{lookup-entry_at}

pub get_elem?-take {ℓ} :
    {A : Type ℓ} (n k : ℕ) (xs : List A) → k < n → get_elem? (take n xs) k ≡ get_elem? xs k
get_elem?-take zero k xs h = absurd (omega arith)
get_elem?-take (suc n) k [] h = refl
get_elem?-take (suc n) zero (x ∷ xs) h = refl
get_elem?-take (suc n) (suc k) (x ∷ xs) h = get_elem?-take n k xs (omega arith)

get_elem?-drop {ℓ} :
    {A : Type ℓ} (n k : ℕ) (xs : List A) → get_elem? (drop n xs) k ≡ get_elem? xs (n + k)
get_elem?-drop zero k xs = rw zero-add
get_elem?-drop (suc n) k [] = refl
get_elem?-drop (suc n) k (x ∷ xs) =
    let j : suc n + k ≡ suc (n + k) = omega arith in rw j (get_elem?-drop n k xs)

entry_at-take :
    (base index i : ℕ) (es : List LogEntry)
    → base < i
    → i < index
    → entry_at base (take (index - base - 1) es) i ≡ entry_at base es i
unfolding entry_at
entry_at-take base index i es h k =
    ground (arith, get_elem?-take (index - base - 1) (i - base - 1) es)

-- A chain below an index is a chain of the entries below it.
pub Chain-take :
    {base : ℕ} {es : List LogEntry} {i : ℕ} (index : ℕ)
    → Chain base es i
    → i < index
    → Chain base (take (index - base - 1) es) i
Chain-take index (stop h) k = stop h
Chain-take {base} {es} {i} index (link e lt h p c) k =
    link e lt (entry_at-take base index i es lt k ∙ h) p (Chain-take index c (omega arith))

entry_at-drop :
    (base index i : ℕ) (es : List LogEntry)
    → base ≤ index
    → index < i
    → entry_at index (drop (index - base) es) i ≡ entry_at base es i
unfolding entry_at
entry_at-drop base index i es h k =
    let j : index - base + (i - index - 1) ≡ i - base - 1 = omega arith in
    let d : get_elem? (drop (index - base) es) (i - index - 1) ≡ get_elem? es (i - base - 1) =
      get_elem?-drop (index - base) (i - index - 1) es ∙ ap (get_elem? es) j in
    ground arith

-- What is dropped from the front only cuts a chain short.
pub Chain-drop :
    {base : ℕ} {es : List LogEntry} {i : ℕ} (index : ℕ)
    → base ≤ index
    → Chain base es i
    → Chain index (drop (index - base) es) i
Chain-drop index b (stop h) = stop (omega arith)
Chain-drop {base} {es} {i} index b (link e lt h p c) = elim (Bool-cases (leb i index)) [
  | inl le ↦ stop (ground arith)
  | inr gt ↦
      link e (ground arith) (entry_at-drop base index i es b (ground arith) ∙ h) p
        (Chain-drop index b c)
]

-- Following the configuration entries back from `i`, the first index that `Stays` is `c`.
pub data Back (base : ℕ) (es : List LogEntry) (Stays : ℕ → Type 0) : ℕ → ℕ → Type 0 where
  here : {i : ℕ} → Stays i → Back base es Stays i i
  further :
      {i c : ℕ} (e : LogEntry)
      → (Stays i → ⊥)
      → entry_at base es i ≡ some e
      → Back base es Stays (prev_cfg e) c
      → Back base es Stays i c

-- What the loops hand back: the first index that `Stays` on the way back from `c`; it is at or below `c`
-- and heads a chain.
abbrev pub Finds : ℕ → List LogEntry → ℕ → (ℕ → Type 0) → Option ℕ → Type 0
Finds base es c Stays result =
    (c' : ℕ) × (result ≡ some c') × Stays c' × (c' ≤ c) × Chain base es c' × Back base es Stays c c'

module _ (l : EntryLogger) (es : List LogEntry) (r : Rep l es) (index : ℕ) where
  -- On a well-formed log, the loop of `chop` over the configuration entries, from an index that heads a
  -- chain of them and with more fuel than that index, ends, if the cut is above the base, on the first
  -- index before the cut that it meets on the way back; that index heads a chain.
  pub rewind-Chain :
      (fuel c : ℕ)
      → l.stat.last_index < index
      → c < fuel
      → Chain l.stat.last_index es c
      → Finds l.stat.last_index es c (λ c'. c' < index) (rewind fuel l index c)
  unfolding rewind
  rewind-Chain zero c b f ch = absurd (omega arith)
  rewind-Chain (suc fuel) c b f (stop h) =
      let stops : leb index c ≡ false = ground arith in
      let stays : c < index = omega arith in (c, rw stops, stays, omega arith, stop h, here stays)
  rewind-Chain (suc fuel) c b f (link e lt h p ch) = elim (Bool-cases (leb index c)) [
    | inr stops ↦
        let stays : c < index = ground arith in
        (c, rw stops, stays, omega arith, link e lt h p ch, here stays)
    | inl goes ↦
        let (c', q, s, le, ch', back) = rewind-Chain fuel (prev_cfg e) b (omega arith) ch in
        (
          c',
          rw goes (rw (lookup-entry_at l es r c ∙ h) q),
          s,
          omega arith,
          ch',
          further e (λ stays. ground arith) h back,
        )
  ]

  abbrev Stops : ℕ → Type 0
  Stops c = (not (c == 0) && ltb index c) ≡ false

  -- On a well-formed log, the loop of `drop` over the configuration entries, from an index that heads a
  -- chain of them and with more fuel than that index, ends, if the last one to go is above the base, on
  -- the first index at or before it that it meets on the way back.
  pub last_cfg_upto-Chain :
      (fuel c : ℕ)
      → l.stat.last_index < index
      → c < fuel
      → Chain l.stat.last_index es c
      → Finds l.stat.last_index es c (λ c'. c' ≤ index) (last_cfg_upto fuel l index c)
  unfolding last_cfg_upto
  last_cfg_upto-Chain zero c b f ch = absurd (omega arith)
  last_cfg_upto-Chain (suc fuel) c b f (stop h) =
      let stops : Stops c = ground arith in
      let stays : c ≤ index = omega arith in (c, rw stops, stays, omega arith, stop h, here stays)
  last_cfg_upto-Chain (suc fuel) c b f (link e lt h p ch) =
      elim (Bool-cases (not (c == 0) && ltb index c)) [
        | inr stops ↦
            let stays : c ≤ index = ground arith in
            (c, rw stops, stays, omega arith, link e lt h p ch, here stays)
        | inl goes ↦
            let (c', q, s, le, ch', back) =
              last_cfg_upto-Chain fuel (prev_cfg e) b (omega arith) ch in
            (
              c',
              rw goes (rw (lookup-entry_at l es r c ∙ h) q),
              s,
              omega arith,
              ch',
              further e (λ stays. ground arith) h back,
            )
      ]
