-- ===== src/Client/Order.antt =====
-- Commands are sent once each, in the order in which they were written.
use draft.Base.{
  ◌≡◌, refl, ap, sym, subst, ◌∙◌, Bool, true, Option, some, List, [], ◌∷◌, ◌++◌, append_assoc,
  append-nil, Str,
}
use mathlib.Core.Option.{some-injective}
use draft.Client.{Client, write, on_write, on_connect, on_read_message}
use draft.Client.Ready.{
  SendsFront, Ready, write-Written, on_write-Sent, resent, Queues, on_connect-Queues,
  on_read_message-Queues,
}

-- The calls of a client whose writes do not fail, in any order: the commands that are written, those that
-- `on_connect` writes again included, and those that are sent.
pub data Run : Client → Client → List Str → List Str → Type 0 where
  stays : {c : Client} → Run c c [] []
  writes :
      {c d e : Client} {ins outs : List Str} (x : Str)
      → write x c ≡ some d
      → Run d e ins outs
      → Run c e (x ∷ ins) outs
  sends :
      {c d e : Client} {ins outs : List Str} (x : Str)
      → c.sending ≡ some x
      → on_write true c ≡ some d
      → Run d e ins outs
      → Run c e ins (x ∷ outs)
  connects :
      {c d e : Client} {ins outs : List Str} (is_ok : Bool)
      → on_connect is_ok c ≡ some d
      → Run d e ins outs
      → Run c e (resent is_ok c.prev_command ++ ins) outs
  receives :
      {c d e : Client} {ins outs : List Str} (bytes : Option Str)
      → on_read_message bytes c ≡ some d
      → Run d e ins outs
      → Run c e ins outs

-- The last command of a list, or the one that was sent before.
abbrev pub last_sent_of : Str → List Str → Str
last_sent_of prev [] = prev
last_sent_of prev (x ∷ xs) = last_sent_of x xs

-- What is sent and then what is in the queue are the commands that were in it and those that are written.
abbrev Ordered : Client → Client → List Str → List Str → Type 0
Ordered c e ins outs =
    Ready e
    × (c.commands ++ ins ≡ outs ++ e.commands)
    × (e.prev_command ≡ last_sent_of c.prev_command outs)

behind :
    (c d e : Client) (xs ins outs : List Str)
    → Queues c xs d
    → Ordered d e ins outs
    → Ordered c e (xs ++ ins) outs
behind c d e xs ins outs (_, queue, prev) (ready, same, last) = (
  ready,
  sym (append_assoc c.commands xs ins) ∙ ap (λ ys. ys ++ ins) (sym queue) ∙ same,
  last ∙ ap (λ p. last_sent_of p outs) prev,
)

ordered : (c e : Client) (ins outs : List Str) → Ready c → Run c e ins outs → Ordered c e ins outs
ordered c _ _ _ h stays = (h, append-nil c.commands, refl)
ordered c e _ outs h (writes {d} {ins} x q run) =
    let (d', q', ready, step, prev) = write-Written x c h in
    let same : d' ≡ d = some-injective _ _ (sym q' ∙ q) in
    let queues : Queues c (x ∷ []) d = subst (Queues c (x ∷ [])) same (ready, step, prev) in
    behind c d e (x ∷ []) ins outs queues (ordered d e ins outs (queues.0) run)
ordered c e ins _ h (sends {d} {outs} x s q run) =
    let (d', q', ready, step, prev) = on_write-Sent x c h s in
    let same : d' ≡ d = some-injective _ _ (sym q' ∙ q) in
    let (ends, rest, last) = ordered d e ins outs (subst Ready same ready) run in
    (
      ends,
      ap (λ xs. xs ++ ins) (step ∙ ap (λ (y : Client). x ∷ y.commands) same)
          ∙ ap (λ xs. x ∷ xs) rest,
      last ∙ ap (λ p. last_sent_of p outs) (sym (ap (λ (y : Client). y.prev_command) same) ∙ prev),
    )
ordered c e _ outs h (connects {d} {ins} is_ok q run) =
    let queues = on_connect-Queues is_ok c d h q in
    behind c d e (resent is_ok c.prev_command) ins outs queues (ordered d e ins outs (queues.0) run)
ordered c e ins outs h (receives {d} bytes q run) =
    let queues = on_read_message-Queues bytes c d h q in
    behind c d e [] ins outs queues (ordered d e ins outs (queues.0) run)

-- The ends of the writes alone empty the queue.
drained :
    (cs : List Str) (c : Client)
    → c.commands ≡ cs
    → Ready c
    → (d : Client) × Run c d [] cs × (d.commands ≡ [])
drained [] c e h = (c, stays, e)
drained (x ∷ xs) c e h =
    let sending : c.sending ≡ some x = subst (λ ys. SendsFront ys c.sending) e h in
    let (d, q, ready, step, prev) = on_write-Sent x c h sending in
    let left : d.commands ≡ xs = cons-tail (sym step ∙ e) in
    let (last, run, empty) = drained xs d left ready in (last, sends x sending q run, empty)
  where
    cons-tail : {y z : Str} {ys zs : List Str} → y ∷ ys ≡ z ∷ zs → ys ≡ zs
    cons-tail e = cc

-- In any run of a client that is ready, over writes that do not fail, connections, failed or not, and
-- messages that are read: it stays ready; what is sent and then what is in the queue are, in this order
-- and once each, the commands that were in the queue and those that are written, among these at
-- each connection the command that was sent last; the client remembers the command that was sent last; and
-- from there the ends of the writes alone send all that is left, and empty the queue.
pub Run-commands :
    (c e : Client) (ins outs : List Str)
    → Ready c
    → Run c e ins outs
    → Ready e
      × (c.commands ++ ins ≡ outs ++ e.commands)
      × (e.prev_command ≡ last_sent_of c.prev_command outs)
      × ((d : Client) × Run e d [] e.commands × (d.commands ≡ []))
Run-commands c e ins outs h run =
    let (ready, same, last) = ordered c e ins outs h run in
    (ready, same, last, drained e.commands e refl ready)
