-- ===== src/Raft/Member/Requests.antt =====
-- What the requests of operators and clients do to the term and the vote.
use draft.Base.{
  ℕ, ◌+◌, ◌==◌, refl, Bool, true, false, not, Option, none, some, [], codes, inl, inr, length,
  Bool-cases, ◌++◌, str_eq, Str, if◌then◌else◌,
}
use draft.Log.{last_entry_index, ◌>>=◌}
use draft.Log.Room.{Os, RcErrno, rc_good, rc_error, is_good}
use draft.Raft.Types.{Node, Raft, server_addition, server_removal, emit, init_transfer, is_leader}
use draft.Raft.Cluster.{serialize_configuration, contains, find, erase, latest_server, update_node}
use draft.Raft.Replicate.{append_entries_to}
use draft.Raft.Election.{append_entries}
use draft.Raft.Election.Roles.{
  KeepsVote, KeepsVote-bind, KeepsVote-if, KeepsVote-then, append_entries_to-vote,
  append_entries-vote,
}
use draft.Raft.Member.{
  append_entry, append, Request, refuse, make_config, is_some, transfer_target, is_transferring,
  add_server, hand_over, leadership_transfer, remove_self, remove_other, del_server,
}
use draft.Raft.Configure.{make_id, make_node, default_rpc_port}
use draft.Raft.Rpc.Advance.{Leads, Leads-if, Leads-bind, Leads-then, CalmIn-if}
use draft.Raft.Rpc.Changes.{Calm, Calm-trans, Calm-refl, CalmIn-keeps}
use draft.Raft.Member.Votes.{KeepsIn, append_entry-vote, do_data_transfer-vote, timeout_now-vote}

abbrev pub after_request : Raft × RcErrno × Str → Raft
after_request x = x.0

refuse-Leads : (why : Str) (r s : Raft) → Calm r s → Leads after_request r (refuse why s)
refuse-Leads why r s a = a

pub add_server-Leads :
    (exists : Bool) (is_ipv4 : Str → Bool) (target : Str) (r : Raft)
    → Leads after_request r (add_server exists is_ipv4 target r)
unfolding add_server
add_server-Leads exists is_ipv4 target r =
    let address = make_id r target in
    let same = Calm-refl r in
    Leads-if after_request r (not (is_leader r.role)) _ _ same (
      Leads-if after_request r (contains address r.cluster) _ _ same (
        Leads-if after_request r (not (is_ipv4 address)) _ _ same (
          Leads-if after_request r (is_some r.recfg) _ _ same (
            Leads-bind after_request r (make_node r address default_rpc_port) _ λ n.
              (let r1 = make_config address n server_addition r in
                Leads-then after_request r _ _
                  (CalmIn-if r r1.log_compaction_enabled _ _
                    (CalmIn-keeps r r1 _ same
                      (do_data_transfer-vote exists n (emit init_transfer r1)))
                    (CalmIn-keeps r r1 _ same (append_entries_to-vote n r1)))
                  λ r2 a. a)))))

hand_over-vote : (n : Node) (r : Raft) → KeepsVote r (hand_over n r)
unfolding hand_over update_node
hand_over-vote n r = KeepsVote-bind r (last_entry_index r.log) _ λ last.
    (let r1 = record (update_node n.id (λ m. record m { transfer_leader_to = true }) r) {
      server_transfer_leader_to = some n.id;
      server_transfer_reply_to = some false;
    } in
      KeepsVote-if r (n.match_index == last) _ _ (timeout_now-vote n r1) (
        KeepsVote-then r (append_entries_to n r1) _ (append_entries_to-vote n r1)
          λ r2. (refl, refl, refl, refl, inl refl)))

Leads-from :
    (r s : Raft) (o : Request) → Calm r s → Leads after_request s o → Leads after_request r o
Leads-from r s none a h = tt
Leads-from r s (some x) a h = Calm-trans r s x.0 a h

pub leadership_transfer-Leads :
    (target : Str) (r : Raft) → Leads after_request r (leadership_transfer target r)
unfolding leadership_transfer
leadership_transfer-Leads target r =
    let address = make_id r target in
    let same = Calm-refl r in
    Leads-if after_request r (not (is_leader r.role)) _ _ same (
      Leads-if after_request r (str_eq address []) _ _ same (
        Leads-if after_request r (is_transferring r.server_transfer_leader_to) _ _ same (
          Leads-if after_request r (str_eq address r.self_id) _ _ same
            (to_node (transfer_target r address)))))
  where
    to_node :
        (o : Option Node)
        → Leads after_request r (elim o [
          | none ↦ refuse (codes "NOT_IN_CFG") r
          | some n ↦ do r1 ← hand_over n r; some (r1, rc_good, [])
        ])
    to_node none = Calm-refl r
    to_node (some n) =
        Leads-then after_request r (hand_over n r) _
          (CalmIn-keeps r r _ (Calm-refl r) (hand_over-vote n r)) λ r1 a. a

remove_self-Leads :
    (address : Str) (n : Node) (r : Raft) → Leads after_request r (remove_self address n r)
remove_self-Leads address n r =
    ended_by (leadership_transfer (latest_server r.self_id r.cluster) r)
      (leadership_transfer-Leads _ r)
  where
    ended_by :
        (o : Request)
        → Leads after_request r o
        → Leads after_request r (do
          (r1, rc, text) ← o
          some (
              if is_good rc
              then (make_config address n server_removal r1, rc_good, text)
              else (r1, rc_error, codes "ERROR " ++ r.leader_id)))
    ended_by none h = tt
    ended_by (some (r1, rc, text)) h = elim (Bool-cases (is_good rc)) [
      | inl e ↦ rw e h
      | inr e ↦ rw e h
    ]

remove_other-Leads :
    (address : Str) (n : Node) (r : Raft) → Leads after_request r (remove_other address n r)
remove_other-Leads address n r =
    Leads-then after_request r (append_entries (make_config address n server_removal r)) _
      (CalmIn-keeps r (make_config address n server_removal r) _ (Calm-refl r)
        (append_entries-vote (make_config address n server_removal r)))
      λ r1 a. a

pub del_server-Leads :
    (os : Os) (target : Str) (r : Raft) → Leads after_request r (del_server os target r)
unfolding del_server
del_server-Leads os target r =
    Leads-if after_request r (not (is_leader r.role)) _ _ (Calm-refl r)
      (of_node (find (make_id r target) r.cluster))
  where
    address : Str
    address = make_id r target

    r1 : Raft
    r1 = record r { cluster = erase address r.cluster }

    removed :
        (n : Node) (o : Option (Raft × RcErrno))
        → KeepsIn r1 o
        → Leads after_request r (do
          (r2, rc) ← o
          if not (is_good rc)
              then refuse (codes "ERROR") r2
              else if str_eq address r.self_id
              then remove_self address n r2
              else remove_other address n r2)
    removed n none h = tt
    removed n (some (r2, rc)) h =
        let a : Calm r r2 = inr (h.0, inr h.1, inr (h.2, h.3), inr h.4) in
        Leads-if after_request r (not (is_good rc)) _ _ a (
          Leads-if after_request r (str_eq address r.self_id) _ _
            (Leads-from r r2 _ a (remove_self-Leads address n r2))
            (Leads-from r r2 _ a (remove_other-Leads address n r2)))

    of_node :
        (o : Option Node)
        → Leads after_request r (elim o [
          | none ↦ refuse (codes "NOT_IN_CFG") r
          | some n ↦
              if is_some r.recfg
              then refuse (codes "INPROGRESS") r
              else if length r.cluster == 1
              then refuse (codes "UNIQUE_SERVER") r
              else append_entry os (serialize_configuration r1.cluster) true r1 >>= (λ x.
                if not (is_good x.1)
                then refuse (codes "ERROR") x.0
                else if str_eq address r.self_id
                then remove_self address n x.0
                else remove_other address n x.0)
        ])
    of_node none = Calm-refl r
    of_node (some n) = Leads-if after_request r (is_some r.recfg) _ _ (Calm-refl r) (
        Leads-if after_request r (length r.cluster == 1) _ _ (Calm-refl r) (
          removed n (append_entry os (serialize_configuration r1.cluster) true r1)
            (append_entry-vote os (serialize_configuration r1.cluster) true r1)))

abbrev pub after_append : Raft × Option ℕ → Raft
after_append x = x.0

pub append-Leads : (os : Os) (text : Str) (r : Raft) → Leads after_append r (append os text r)
unfolding append
append-Leads os text r =
    Leads-if after_append r (is_leader r.role) _ _
      (Leads-bind after_append r (last_entry_index r.log) _
        λ last. at (append_entry os text false r) last (append_entry-vote os text false r))
      (Calm-refl r)
  where
    at :
        (o : Option (Raft × RcErrno)) (last : ℕ)
        → KeepsIn r o
        → Leads after_append r
            (do (r', rc) ← o; some (r', some (if is_good rc then last + 1 else 0)))
    at none last h = tt
    at (some x) last h = inr (h.0, inr h.1, inr (h.2, h.3), inr h.4)
