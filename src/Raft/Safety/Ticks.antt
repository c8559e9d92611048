-- ===== src/Raft/Safety/Ticks.antt =====
-- Each tick keeps what a candidate and a leader hold.
use draft.Base.{
  Option, none, some, ℕ, zero, suc, ◌≤◌, ◌≡◌, refl, sym, ◌∙◌, subst, inl, inr, true, false, List,
  [], ◌∷◌, Str, ◌==◌, if◌then◌else◌, length, arith,
}
use draft.Log.Room.{Os}
use draft.Log.{last_entry_index, last_entry_term, ◌>>=◌}
use draft.Raft.Replicate.{vote_req}
use draft.Raft.Types.{VoteReq, VoteRes, Raft}
use draft.Raft.Configure.{mem}
use draft.Raft.Rpc.{request_vote}
use draft.Raft.Rpc.Stand.{on_request_vote-Counts}
use draft.Raft.Rpc.Steps.{Step, is_grant, Step-Moves, counted, counts_vote, compacts_log}
use draft.Raft.Rpc.Vote.{request_vote_granted, request_vote_term, request_vote_last}
use draft.Raft.Safety.{Tick, World, rests, restarts, acts, is_late, counts}
use draft.Raft.Safety.Held.{Gave, Held, keeps-Held, Calm-Held, Stands-Held, Counts-Held}

vote_req_lem :
    (r : Raft) (req : VoteReq)
    → vote_req r false ≡ some req
    → (req.candidate_id ≡ r.self_id)
      × (req.term ≡ r.curr_term)
      × (last_entry_index r.log ≡ some req.last_log_index)
      × (last_entry_term r.log ≡ some req.last_log_term)
unfolding vote_req
vote_req_lem r req e = go (last_entry_index r.log) (last_entry_term r.log) refl refl e
  where
    go :
        (i t : Option ℕ)
        → last_entry_index r.log ≡ i
        → last_entry_term r.log ≡ t
        → (do
          index ← i
          term ← t
          some (record {
            term = r.curr_term;
            candidate_id = r.self_id;
            last_log_index = index;
            last_log_term = term;
            early = false;
          }))
          ≡ some req
        → (req.candidate_id ≡ r.self_id)
          × (req.term ≡ r.curr_term)
          × (last_entry_index r.log ≡ some req.last_log_index)
          × (last_entry_term r.log ≡ some req.last_log_term)
    go none t p q e = absurd (cc)
    go (some i) none p q e = absurd (cc)
    go (some i) (some t) p q e = (cc, cc, cc, cc)

module _ (os : Os) (members : List Str) (w : World os members) (two : 2 ≤ length members) where
  open w use {at, granted, own_id, fixed, first, ticks}

  acts-Held :
      (m : Str) (k : ℕ) (x : Step os (at m k) (at m (suc k)))
      → is_grant x ≡ false
      → mem m members ≡ true
      → Held members at m (at m k) (granted m k)
      → Held members at m
          (at m (suc k))
          (if (at m (suc k)).curr_term == (at m k).curr_term then granted m k else m ∷ [])
  acts-Held m k x g is_member h = elim (Step-Moves os (at m k) (at m (suc k)) x) [
    | inr (counts_vote v c g') ↦ absurd (cc)
    | inr (compacts_log c _) ↦
        let same : ((at m (suc k)).curr_term == (at m k).curr_term) ≡ true = ground arith in
        rw same
          (keeps-Held members at m (at m k) (at m (suc k)) (granted m k) (fixed m k) c.0 c.2 c.3 h)
    | inl (inl calm) ↦
        Calm-Held members at m (at m k) (at m (suc k)) (granted m k) (fixed m k) _ calm
          (λ e. ground arith) h
    | inl (inr s) ↦
        let grown : ((at m (suc k)).curr_term == (at m k).curr_term) ≡ false = ground arith in
        rw grown (
          Stands-Held members at m (at m k) (at m (suc k)) (granted m k) (fixed m k) (suc k) refl
            (own_id m k) two is_member s)
  ]

  -- A granting answer to a request of the term is a vote.
  answer-Gave :
      (m : Str) (term : ℕ) (v : VoteRes) (req : VoteReq) (voter : Str) (i j : ℕ)
      → v.vote_granted ≡ true
      → term ≤ v.term
      → request_vote req (at voter j) ≡ some (at voter (suc j), v)
      → vote_req (at m i) false ≡ some req
      → req.term ≤ term
      → Gave members at term m voter
  answer-Gave m term v req voter i j given le asked filled lt =
      let voted = request_vote_granted req (at voter j) (at voter (suc j)) v asked given in
      let same = request_vote_term req (at voter j) (at voter (suc j)) v asked given in
      let (index, term', hi, ht, a, b) =
        request_vote_last req (at voter j) (at voter (suc j)) v asked given in
      let (own, t, hi', ht') = vote_req_lem (at m i) req filled in
      (
        suc j,
        omega arith,
        voted.0.1 ∙ own ∙ own_id m i,
        inr (
          i,
          j,
          refl,
          omega arith,
          (req.last_log_index, req.last_log_term, index, term', hi', ht', hi, ht, b, a),
        ),
      )

  Tick-Held :
      (m : Str) (k : ℕ)
      → Tick os members at m (at m k) (granted m k) (at m (suc k)) (granted m (suc k))
      → mem m members ≡ true
      → Held members at m (at m k) (granted m k)
      → Held members at m (at m (suc k)) (granted m (suc k))
  Tick-Held m k (rests e g) is_member h =
      subst (λ r. Held members at m r (granted m (suc k))) (sym e)
        (subst (Held members at m (at m k)) (sym g) h)
  Tick-Held m k (restarts t v f g) is_member h = inl f
  Tick-Held m k (acts x no_grant g) is_member h =
      subst (Held members at m (at m (suc k))) (sym g) (acts-Held m k x no_grant is_member h)
  Tick-Held m k (is_late v e late g) is_member h =
      elim (counted v (at m k) (at m (suc k)) (on_request_vote-Counts v (at m k)) e) [
        | inl calm ↦
            Calm-Held members at m (at m k) (at m (suc k)) (granted m k) (fixed m k) _ calm
              (λ same. g) h
        | inr c ↦ absurd (omega arith)
      ]
  Tick-Held m k (counts v req voter i j e given le asked filled term is_voter new g) is_member h =
      subst (Held members at m (at m (suc k))) (sym g) (
        Counts-Held members at m (at m k) (at m (suc k)) (granted m k) (fixed m k) v voter
          (answer-Gave m (at m k).curr_term v req voter i j given le asked filled term) is_voter new
          (counted v (at m k) (at m (suc k)) (on_request_vote-Counts v (at m k)) e) h)

  -- At every tick the role of a member fits the votes that were given to it.
  pub World-Held :
      (m : Str) (k : ℕ) → mem m members ≡ true → Held members at m (at m k) (granted m k)
  World-Held m zero is_member = inl (first m)
  World-Held m (suc k) is_member = Tick-Held m k (ticks m k) is_member (World-Held m k is_member)
