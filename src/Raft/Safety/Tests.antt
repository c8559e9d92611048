-- ===== src/Raft/Safety/Tests.antt =====
-- The theorems on a cluster, applied to an election.
use draft.Base.{
  length, All, ◌/◌, ◌<◌, ℕ, zero, suc, ◌≡◌, refl, sym, ◌∙◌, true, false, some, List, Str, str_eq,
  subst, arith,
}
use draft.Log.{last_entry_index, last_entry_term, last_entry}
use draft.Log.Tests.{small_disk}
use draft.Raft.Types.{Raft, follower, leader}
use draft.Raft.Cluster.{contains, map_nodes}
use draft.Raft.Configure.{mem}
use draft.Raft.Election.{
  pre_vote, on_pre_vote, on_request_vote, send_pre_votes, checkout, leader_election, request_votes,
  step_up, append_entries, step_down,
}
use draft.Raft.Replicate.{vote_req, append_entries_each, append_entries_to, append_entries_req}
use draft.Raft.Rpc.{request_vote, adopt}
use draft.Raft.Rpc.Steps.{timed_out, got_pre_vote, asked_to_vote}
use draft.Raft.Safety.{World, Tick, addresses, rests, acts, counts}
use draft.Raft.Safety.Unique.{one_leader, leader_not_behind}
use draft.Raft.Safety.Held.{Gave}
use draft.Raft.Safety.Tally.{tally}
use draft.Raft.Safety.Timeline.{
  name_a, name_b, names, starting, yes_vote, its_request, voting, asking_is, standing_is,
  leading_is, voting_is, of_a, of_b, given_a, given_b, Place, place_b, place_a, place_of, state,
  given, is_a, is_b, is_other,
}

-- What stays the same at `a:1`.
of_a_id : (k : ℕ) → ((of_a k).self_id ≡ name_a) × (addresses (of_a k).cluster ≡ names)
unfolding pre_vote send_pre_votes vote_req str_eq contains last_entry_index last_entry_term
    last_entry on_pre_vote checkout leader_election request_votes on_request_vote step_up
    append_entries map_nodes append_entries_each append_entries_to append_entries_req
of_a_id zero = (refl, refl)
of_a_id (suc zero) = (refl, refl)
of_a_id (suc (suc zero)) = (refl, refl)
of_a_id (suc (suc (suc zero))) = (refl, refl)
of_a_id (suc (suc (suc (suc k)))) = (refl, refl)

of_b_id : (k : ℕ) → ((of_b k).self_id ≡ name_b) × (addresses (of_b k).cluster ≡ names)
unfolding request_vote adopt step_down last_entry_index last_entry_term last_entry str_eq
of_b_id zero = (refl, refl)
of_b_id (suc zero) = (refl, refl)
of_b_id (suc (suc zero)) = (refl, refl)
of_b_id (suc (suc (suc k))) = (refl, refl)

state_id :
    (m : Str) (p : Place m) (k : ℕ)
    → ((state m p k).self_id ≡ m) × (addresses (state m p k).cluster ≡ names)
unfolding state
state_id m (is_a e) k = ((of_a_id k).0 ∙ sym e, (of_a_id k).1)
state_id m (is_b e) k = ((of_b_id k).0 ∙ sym e, (of_b_id k).1)
state_id m is_other k = (refl, refl)

state_first : (m : Str) (p : Place m) → (state m p 0).role ≡ follower
unfolding state
state_first m (is_a e) = refl
state_first m (is_b e) = refl
state_first m is_other = refl

at : Str → ℕ → Raft
at m k = state m (place_of m) k

at_b_before : at name_b 2 ≡ starting name_b
unfolding at state place_of place_a place_b str_eq
at_b_before = refl

at_b_after : at name_b 3 ≡ voting
unfolding at state place_of place_a place_b str_eq
at_b_after = refl

voted_at : request_vote its_request (at name_b 2) ≡ some (at name_b 3, yes_vote)
voted_at = rw (at_b_before, at_b_after) voting_is

filled_at : vote_req (at name_a 2) false ≡ some its_request
unfolding at state place_of place_a place_b str_eq vote_req last_entry_index last_entry_term
    last_entry pre_vote send_pre_votes contains on_pre_vote checkout leader_election request_votes
filled_at = refl

abbrev Ticks : Str → Raft → List Str → Raft → List Str → Type 0
Ticks = Tick small_disk names at

of_a-Ticks : (k : ℕ) → Ticks name_a (of_a k) (given_a k) (of_a (suc k)) (given_a (suc k))
unfolding pre_vote send_pre_votes vote_req str_eq contains last_entry_index last_entry_term
    last_entry on_pre_vote checkout leader_election request_votes on_request_vote step_up
    append_entries map_nodes append_entries_each append_entries_to append_entries_req mem
of_a-Ticks zero = acts (timed_out false (omega arith) asking_is) refl refl
of_a-Ticks (suc zero) = acts (got_pre_vote (some yes_vote) (omega arith) standing_is) refl refl
of_a-Ticks (suc (suc zero)) = rests refl refl
of_a-Ticks (suc (suc (suc zero))) =
    counts yes_vote its_request name_b 2 2 leading_is refl (omega arith) voted_at filled_at
      (omega arith) refl refl refl
of_a-Ticks (suc (suc (suc (suc k)))) = rests refl refl

of_b-Ticks : (k : ℕ) → Ticks name_b (of_b k) (given_b k) (of_b (suc k)) (given_b (suc k))
unfolding request_vote adopt step_down last_entry_index last_entry_term last_entry str_eq
of_b-Ticks zero = rests refl refl
of_b-Ticks (suc zero) = rests refl refl
of_b-Ticks (suc (suc zero)) = acts (asked_to_vote its_request yes_vote voting_is) refl refl
of_b-Ticks (suc (suc (suc k))) = rests refl refl

state-Ticks :
    (m : Str) (p : Place m) (k : ℕ)
    → Ticks m (state m p k) (given m p k) (state m p (suc k)) (given m p (suc k))
unfolding state given
state-Ticks m (is_a e) k =
    subst (λ n. Ticks n (of_a k) (given_a k) (of_a (suc k)) (given_a (suc k))) (sym e)
      (of_a-Ticks k)
state-Ticks m (is_b e) k =
    subst (λ n. Ticks n (of_b k) (given_b k) (of_b (suc k)) (given_b (suc k))) (sym e)
      (of_b-Ticks k)
state-Ticks m is_other k = rests refl refl

elections : World small_disk names
unfolding at
elections = record {
  at = at;
  granted = λ m k. given m (place_of m) k;
  own_id = λ m k. (state_id m (place_of m) k).0;
  fixed = λ m k. (state_id m (place_of m) k).1;
  first = λ m. state_first m (place_of m);
  ticks = λ m k. state-Ticks m (place_of m) k;
}

leads_at : (k : ℕ) → (elections.at name_a (suc (suc (suc (suc k))))).role ≡ leader
unfolding pre_vote send_pre_votes vote_req str_eq contains last_entry_index last_entry_term
    last_entry on_pre_vote checkout leader_election request_votes on_request_vote step_up
    append_entries map_nodes append_entries_each append_entries_to append_entries_req elections at
    state place_of place_a place_b
leads_at k = refl

same_term :
    (k : ℕ)
    → (elections.at name_a (suc (suc (suc (suc k))))).curr_term
      ≡ (elections.at name_a (suc (suc (suc (suc (suc k)))))).curr_term
unfolding elections at state place_of place_a place_b str_eq
same_term k = refl

is_named : mem name_a names ≡ true
unfolding mem str_eq
is_named = refl

one_leader_example : name_a ≡ name_a
one_leader_example =
    one_leader small_disk names elections (omega arith) name_a name_a 4 5 is_named is_named
      (λ e. cc) (λ e. cc) (leads_at 0) (leads_at 1) (same_term 0)

leader_not_behind_example :
    (voters : List Str) × (length names / 2 < tally voters names)
    × All (Gave names elections.at (elections.at name_a 4).curr_term name_a) voters
leader_not_behind_example =
    leader_not_behind small_disk names elections (omega arith) name_a 4 is_named (leads_at 0)
