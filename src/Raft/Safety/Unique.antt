-- ===== src/Raft/Safety/Unique.antt =====
-- A term has one leader.
use draft.Base.{
  ℕ, zero, suc, ◌+◌, ◌-◌, ◌≤◌, ◌<◌, ◌≡◌, ◌≢◌, sym, ◌∙◌, subst, ◌⊎◌, inl, inr, true, some, List, [],
  Str, length, All, ◌/◌, arith,
}
use draft.Log.Room.{Os}
use draft.Raft.Types.{Raft, leader}
use draft.Raft.Configure.{mem}
use draft.Raft.Rpc.Changes.{Advances, Advances-trans, Advances-refl}
use draft.Raft.Rpc.Steps.{got_vote}
use draft.Raft.Rpc.Once.{Step-Advances}
use draft.Raft.Safety.{Tick, World, rests, restarts, acts, is_late, counts}
use draft.Raft.Safety.Tally.{tally, tally_common, All-mem}
use draft.Raft.Safety.Held.{Held, Gave}
use draft.Raft.Safety.Ticks.{World-Held}

-- Two votes of a server in one term, the second at no earlier tick, are for the same candidate.
one_vote :
    (r s : Raft) (m m' : Str)
    → Advances r s
    → s.curr_term ≡ r.curr_term
    → r.voted_for ≡ m
    → s.voted_for ≡ m'
    → m ≢ []
    → m ≡ m'
one_vote r s m m' adv same v v' named = ground arith

module _ (os : Os) (members : List Str) (w : World os members) where
  open w use {at, granted, ticks}

  Tick-Advances :
      (m : Str) (k : ℕ)
      → Tick os members at m (at m k) (granted m k) (at m (suc k)) (granted m (suc k))
      → Advances (at m k) (at m (suc k))
  Tick-Advances m k (rests e g) = subst (Advances (at m k)) (sym e) (Advances-refl (at m k))
  Tick-Advances m k (restarts t v f g) = inr (t, inr v)
  Tick-Advances m k (acts x no_grant g) = Step-Advances os (at m k) (at m (suc k)) x
  Tick-Advances m k (is_late v e late g) =
      Step-Advances os (at m k) (at m (suc k)) (got_vote (some v) e)
  Tick-Advances m k (counts v req voter i j e given le asked filled term is_voter new g) =
      Step-Advances os (at m k) (at m (suc k)) (got_vote (some v) e)

  later-Advances : (m : Str) (k d : ℕ) → Advances (at m k) (at m (d + k))
  later-Advances m k zero =
      subst (λ j. Advances (at m k) (at m j)) (omega arith) (Advances-refl (at m k))
  later-Advances m k (suc d) =
      subst (λ j. Advances (at m k) (at m j)) (omega arith)
        (Advances-trans (at m k) (at m (d + k)) (at m (suc (d + k))) (later-Advances m k d)
          (Tick-Advances m (d + k) (ticks m (d + k))))

  World-Advances : (m : Str) (k j : ℕ) → k ≤ j → Advances (at m k) (at m j)
  World-Advances m k j le =
      subst (λ i. Advances (at m k) (at m i)) (omega arith) (later-Advances m k (j - k))

  same_candidate :
      (x m m' : Str) (t : ℕ)
      → Gave members at t m x
      → Gave members at t m' x
      → m ≢ []
      → m' ≢ []
      → m ≡ m'
  same_candidate x m m' t (k, e, v, _) (j, e', v', _) named named' = elim (le_or_lt k j) [
    | inl le ↦ one_vote (at x k) (at x j) m m' (World-Advances x k j le) (e' ∙ sym e) v v' named
    | inr lt ↦ sym (
        one_vote (at x j) (at x k) m' m (World-Advances x j k (omega arith)) (e ∙ sym e') v' v
          named')
  ]
    where
      le_or_lt : (a b : ℕ) → (a ≤ b) ⊎ (b < a)
      le_or_lt a b = ground arith

  -- A leader has the votes of a majority.
  elected :
      (m : Str) (k : ℕ)
      → Held members at m (at m k) (granted m k)
      → (at m k).role ≡ leader
      → All (Gave members at (at m k).curr_term m) (granted m k)
        × (length members / 2 < tally (granted m k) members)
  elected m k (inl f) is_leader = absurd (cc)
  elected m k (inr (gs, inl (c, le))) is_leader = absurd (cc)
  elected m k (inr (gs, inr lt)) is_leader = (gs, lt)

  -- In a cluster of two members at least, whose members stay the same and have names, in which a
  -- candidate counts an answer of each member once, and in which terms stay below 2^64 - 1 where a server
  -- may stand for election, two members that lead in the same term, each at some tick, are the same,
  -- whatever the calls, answers and timers and their order, and whichever servers start again.
  pub one_leader :
      2 ≤ length members
      → (m m' : Str) (k k' : ℕ) → mem m members ≡ true
      → mem m' members ≡ true
      → m ≢ []
      → m' ≢ []
      → (at m k).role ≡ leader
      → (at m' k').role ≡ leader
      → (at m k).curr_term ≡ (at m' k').curr_term
      → m ≡ m'
  one_leader two m m' k k' is_member is_member' named named' leads leads' same =
      let (gs, lt) = elected m k (World-Held os members w two m k is_member) leads in
      let (gs', lt') = elected m' k' (World-Held os members w two m' k' is_member') leads' in
      let (x, p, q) = tally_common (granted m k) (granted m' k') members (omega arith) in
      let t = (at m' k').curr_term in
      same_candidate x m m' t
        (subst (λ i. Gave members at i m x) same
          (All-mem (Gave members at (at m k).curr_term m) x (granted m k) gs p))
        (All-mem (Gave members at t m') x (granted m' k') gs' q) named named'

  -- In a cluster of two members at least, whose members stay the same, in which a candidate counts an
  -- answer of each member once, and in which terms stay below 2^64 - 1 where a server may stand for
  -- election, a member that leads at a tick has the votes of more than half of the members in its term;
  -- each of these but itself gave the vote when the log of the leader, at some tick of the term, had a
  -- last entry of no lower index and no lower term than the last entry of the voter.
  pub leader_not_behind :
      2 ≤ length members
      → (m : Str) (k : ℕ) → mem m members ≡ true
      → (at m k).role ≡ leader
      → (voters : List Str) × (length members / 2 < tally voters members)
        × All (Gave members at (at m k).curr_term m) voters
  leader_not_behind two m k is_member leads =
      let (gs, lt) = elected m k (World-Held os members w two m k is_member) leads in
      (granted m k, lt, gs)
