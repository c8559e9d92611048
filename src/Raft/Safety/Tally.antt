-- ===== src/Raft/Safety/Tally.antt =====
-- How many members have granted a vote, and what two majorities share.
use draft.Base.{
  ℕ, ◌+◌, ◌≤◌, ◌<◌, ◌≡◌, inl, inr, true, false, List, [], ◌∷◌, Str, str_eq, str_eq_iff, length,
  if◌then◌else◌, arith, Bool-cases, All, subst, sym,
}
use draft.Raft.Configure.{mem}

-- The members that are in the list `ws`.
abbrev pub tally : List Str → List Str → ℕ
tally ws [] = 0
tally ws (x ∷ members) = (if mem x ws then 1 else 0) + tally ws members

pub tally-cons : (w : Str) (ws members : List Str) → tally ws members ≤ tally (w ∷ ws) members
unfolding mem
tally-cons w ws [] = omega arith
tally-cons w ws (x ∷ members) = ground (arith, tally-cons w ws members)

-- A member that was not in the list makes it one more at least.
pub tally-new :
    (w : Str) (ws members : List Str)
    → mem w members ≡ true
    → mem w ws ≡ false
    → tally ws members < tally (w ∷ ws) members
unfolding mem
tally-new w ws [] h k = cc
tally-new w ws (x ∷ members) h k = elim (Bool-cases (str_eq w x)) [
  | inl e ↦ here ((str_eq_iff w x).0 e)
  | inr ne ↦
      let h' : mem w members ≡ true = ground (arith, str_eq_iff w x) in
      let rest = tally-new w ws members h' k in ground arith
]
  where
    here : w ≡ x → tally ws (x ∷ members) < tally (w ∷ ws) (x ∷ members)
    here e =
        let self = (str_eq_iff x w).1 (sym e) in
        let absent : mem x ws ≡ false = subst (λ y. mem y ws ≡ false) e k in
        let le = tally-cons w ws members in rw (self, absent) (omega arith)

-- Two lists that hold more than half of the members each hold a member in common.
pub tally_common :
    (vs ws members : List Str)
    → length members < tally vs members + tally ws members
    → (x : Str) × (mem x vs ≡ true) × (mem x ws ≡ true)
tally_common vs ws [] h = absurd (omega arith)
tally_common vs ws (x ∷ members) h = elim (Bool-cases (mem x vs)) [
  | inl p ↦ elim (Bool-cases (mem x ws)) [
    | inl q ↦ (x, p, q)
    | inr q ↦ tally_common vs ws members (ground arith)
  ]
  | inr p ↦ tally_common vs ws members (ground arith)
]

pub All-mem {ℓ} : (P : Str → Type ℓ) (x : Str) (ws : List Str) → All P ws → mem x ws ≡ true → P x
unfolding mem
All-mem P x [] h m = cc
All-mem P x (w ∷ ws) h m = elim (Bool-cases (str_eq x w)) [
  | inl e ↦ subst P (sym ((str_eq_iff x w).0 e)) h.0
  | inr ne ↦ All-mem P x ws h.1 (rw ne at m)
]
