-- ===== src/Raft/Safety/Held.antt =====
-- What a candidate and a leader hold: votes that members gave them.
use draft.Base.{
  some, ℕ, suc, ◌/◌, ◌≤◌, ◌<◌, ◌≡◌, refl, ap, sym, ◌∙◌, subst, ◌⊎◌, inl, inr, true, false, List, [],
  ◌∷◌, Str, length, All, arith,
}
use draft.Log.{last_entry_index, last_entry_term}
use draft.Raft.Types.{VoteRes, Raft, follower, candidate}
use draft.Raft.Cluster.{Cluster}
use draft.Raft.Commit.{is_alone}
use draft.Raft.Configure.{mem}
use draft.Raft.Rpc.Changes.{Calm, Settles, Stands}
use draft.Raft.Rpc.Stand.{Counts}
use draft.Raft.Safety.{addresses}
use draft.Raft.Safety.Tally.{tally, tally-cons, tally-new}

-- The last entry of the log of `a` is not behind that of `b`, by its index and by its term.
abbrev pub IsNotBehind : Raft → Raft → Type 0
IsNotBehind a b =
    (index : ℕ) × (term : ℕ) × (index' : ℕ) × (term' : ℕ) × (last_entry_index a.log ≡ some index)
    × (last_entry_term a.log ≡ some term)
    × (last_entry_index b.log ≡ some index')
    × (last_entry_term b.log ≡ some term')
    × (index' ≤ index)
    × (term' ≤ term)

module _ (members : List Str) (at : Str → ℕ → Raft) where
  -- At tick `k` the server `v`, which is not `m`, had just given its vote, when the log of `m` at some tick
  -- of the term was not behind that of `v`.
  abbrev pub Compared : ℕ → Str → Str → ℕ → Type 0
  Compared term m v k =
      (i : ℕ) × (j : ℕ) × (k ≡ suc j) × ((at m i).curr_term ≡ term) × IsNotBehind (at m i) (at v j)

  -- At some tick the server `v` had its vote in the term for `m`.
  abbrev pub Gave : ℕ → Str → Str → Type 0
  Gave term m v =
      (k : ℕ) × ((at v k).curr_term ≡ term)
      × ((at v k).voted_for ≡ m)
      × ((v ≡ m) ⊎ Compared term m v k)

  -- The role fits the votes: a candidate counted no more than were given, and a leader has a majority.
  abbrev pub Fits : Raft → List Str → Type 0
  Fits r granted =
      ((r.role ≡ candidate) × (r.votes ≤ tally granted members))
      ⊎ (length members / 2 < tally granted members)

  abbrev pub Held : Str → Raft → List Str → Type 0
  Held m r granted = (r.role ≡ follower) ⊎ (All (Gave r.curr_term m) granted × Fits r granted)

length-addresses : (c : Cluster) → length (addresses c) ≡ length c
length-addresses [] = refl
length-addresses ((a, n) ∷ c) = omega (arith, length-addresses c)

module _ (members : List Str) (at : Str → ℕ → Raft) (m : Str) (r r' : Raft) (granted : List Str)
    (fixed : addresses r.cluster ≡ members) where
  -- A server that keeps its role, its term and its counted votes.
  pub keeps-Held :
      r'.curr_term ≡ r.curr_term
      → r'.role ≡ r.role
      → r'.votes ≡ r.votes
      → Held members at m r granted
      → Held members at m r' granted
  keeps-Held t o v (inl f) = inl (o ∙ f)
  keeps-Held t o v (inr (gs, inl (c, le))) =
      inr (subst (λ k. All (Gave members at k m) granted) (sym t) gs, inl (o ∙ c, omega arith))
  keeps-Held t o v (inr (gs, inr lt)) =
      inr (subst (λ k. All (Gave members at k m) granted) (sym t) gs, inr lt)

  Settles-Held :
      r'.curr_term ≡ r.curr_term
      → Settles r r'
      → Held members at m r granted
      → Held members at m r' granted
  Settles-Held t (inl f) h = inl f
  Settles-Held t (inr (o, v)) h = keeps-Held t o v h

  pub Calm-Held :
      (granted' : List Str)
      → Calm r r'
      → (r'.curr_term ≡ r.curr_term → granted' ≡ granted)
      → Held members at m r granted
      → Held members at m r' granted'
  Calm-Held granted' (inl (lt, f)) g h = inl f
  Calm-Held granted' (inr (t, v, s, _)) g h =
      subst (Held members at m r') (sym (g t)) (Settles-Held t s h)

  -- A server that stands has its own vote.
  pub Stands-Held :
      (k : ℕ)
      → at m k ≡ r'
      → r.self_id ≡ m
      → 2 ≤ length members
      → mem m members ≡ true
      → Stands r r'
      → Held members at m r' (m ∷ [])
  unfolding mem
  Stands-Held k e own two is_member (lt, v, le, inr alone) = absurd (alone_small alone)
    where
      alone_small : is_alone r ≡ true → ⊥
      alone_small a =
          let n = length-addresses r.cluster in let n' = ap (length {A = Str}) fixed in ground arith
  Stands-Held k e own two is_member (lt, v, le, inl c) =
      let one = tally-new m [] members is_member refl in
      inr (
        (
          (
            k,
            ap (λ (x : Raft). x.curr_term) e,
            ap (λ (x : Raft). x.voted_for) e ∙ v ∙ own,
            inl refl,
          ),
          tt,
        ),
        inl (c, omega arith),
      )

  -- A counted answer is the vote of a member that was not counted before.
  pub Counts-Held :
      (v : VoteRes) (voter : Str)
      → Gave members at r.curr_term m voter
      → mem voter members ≡ true
      → mem voter granted ≡ false
      → Calm r r' ⊎ Counts v r r'
      → Held members at m r granted
      → Held members at m r' (voter ∷ granted)
  Counts-Held v voter gave is_member new (inl (inl (lt, f))) h = inl f
  Counts-Held v voter gave is_member new (inl (inr (same, _, inl f, _))) h = inl f
  Counts-Held v voter gave is_member new (inl (inr (same, _, inr (o, n), _))) (inl f) = inl (o ∙ f)
  Counts-Held v voter gave is_member new (inl (inr (same, _, inr (o, n), _))) (inr (gs, fits)) =
      inr (
        subst (λ i. All (Gave members at i m) (voter ∷ granted)) (sym same) (gave, gs),
        elim fits [
          | inl (c, le) ↦ inl (o ∙ c, (let more = tally-cons voter granted members in omega arith))
          | inr lt ↦ inr (let more = tally-cons voter granted members in omega arith)
        ],
      )
  Counts-Held v voter gave is_member new (inr c) (inl f) = absurd (cc (c.0))
  Counts-Held v voter gave is_member new (inr (c, _, _, same, _, n, role)) (inr (gs, fits)) =
      let more = tally-new voter granted members is_member new in
      inr (
        subst (λ i. All (Gave members at i m) (voter ∷ granted)) (sym same) (gave, gs),
        elim fits [
          | inr lt ↦ inr (omega arith)
          | inl (_, le) ↦ elim role [
            | inl c' ↦ inl (c', omega arith)
            | inr won ↦ inr (
                let size = length-addresses r.cluster in
                let size' = ap (length {A = Str}) fixed in ground arith)
          ]
        ],
      )
