-- ===== src/Client/Redirect.antt =====
-- A client follows what a server that does not lead tells it.
use draft.Base.{
  ℕ, ◌-◌, ◌<◌, ◌≡◌, refl, ap, ◌∙◌, true, false, some, [], ◌∷◌, ◌++◌, Str, str_eq, codes, take,
  length, length-append, ltb, arith, ◌==◌,
}
use draft.Split.Join.{IsPart}
use draft.Storage.{reply_text}
use draft.Client.{
  Client, cut_at, reply_of, storage_port, redirect, answer_to, redirect_to, on_read_message, act_on,
  close,
}

cut_at-append : (sep : ℕ) (s t : Str) → IsPart sep s → cut_at sep (s ++ sep ∷ t) ≡ some (s, t)
unfolding cut_at
cut_at-append sep [] t h = let here : (sep == sep) ≡ true = ground arith in rw here refl
cut_at-append sep (c ∷ s) t (a, h) = rw a (rw (cut_at-append sep s t h) refl)

take_front : (s t : Str) → take (length s) (s ++ t) ≡ s
take_front [] t = refl
take_front (c ∷ s) t = ap (λ u. c ∷ u) (take_front s t)

reply_of-append : (s : Str) → 0 < length s → reply_of (s ++ 13 ∷ 10 ∷ []) ≡ s
unfolding reply_of
reply_of-append s h =
    let size = length-append s (13 ∷ 10 ∷ []) in
    let long : ltb 2 (length (s ++ 13 ∷ 10 ∷ [])) ≡ true = ground (arith, size) in
    let rest : length (s ++ 13 ∷ 10 ∷ []) - 2 ≡ length s = omega (arith, size) in
    rw long (rw rest (take_front s (13 ∷ 10 ∷ [])))

answer_not_leader :
    (c : Client) (host port : Str)
    → IsPart b':' host
    → str_eq (c.host ++ codes ":" ++ c.port) (host ++ codes ":" ++ storage_port port) ≡ false
    → answer_to c (some (codes "NOT_LEADER", host ++ b':' ∷ port))
      ≡ redirect host (storage_port port)
unfolding answer_to
answer_not_leader c host port h other =
    unfold str_eq in rw (cut_at-append b':' host port h) (unfold redirect_to in rw other refl)

-- The reply of a server of the store that does not lead, and knows a leader at a host and a port, sends the
-- client to that host, with each 8 of the port made a 9, unless the client is there already. The host
-- holds no colon, and the reply comes in one read.
pub on_read_message-reply_text :
    (c : Client) (host port : Str)
    → IsPart b':' host
    → str_eq (c.host ++ codes ":" ++ c.port) (host ++ codes ":" ++ storage_port port) ≡ false
    → on_read_message (some (reply_text (codes "NOT_LEADER") (host ++ b':' ∷ port))) c
      ≡ some (record c {
        host = host;
        port = storage_port port;
        reading = false;
        resolving = true;
        closed = true;
      })
unfolding on_read_message act_on close
on_read_message-reply_text c host port h other =
    let leader = host ++ b':' ∷ port in
    let text : reply_of (reply_text (codes "NOT_LEADER") leader) ≡ codes "NOT_LEADER " ++ leader =
      reply_of-append (codes "NOT_LEADER " ++ leader) (omega arith) in
    let cut : cut_at 32 (codes "NOT_LEADER " ++ leader) ≡ some (codes "NOT_LEADER", leader) =
      unfold cut_at in refl in
    ap (λ t. act_on (answer_to c (cut_at 32 t)) (record c { reading = false })) text
    ∙ ap (λ o. act_on (answer_to c o) (record c { reading = false })) cut
    ∙ ap (λ a. act_on a (record c { reading = false })) (answer_not_leader c host port h other)
