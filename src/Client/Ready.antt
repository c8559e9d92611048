-- ===== src/Client/Ready.antt =====
-- What each call of a client does to its queue of commands.
use draft.Base.{
  ◌≡◌, refl, ap, sym, subst, ◌∙◌, Bool, true, false, Option, none, some, List, [], ◌∷◌, ◌++◌,
  append-nil, Str,
}
use mathlib.Core.Option.{some-injective}
use draft.Client.{
  Client, ReplyAction, read_on, redirect, removed, do_write, write, on_write, on_connect, close,
  do_read_message, act_on, answer_to, cut_at, reply_of, on_read_message,
}

-- The front of the queue is what is sent, and nothing is sent while the queue is empty.
abbrev pub SendsFront : List Str → Option Str → Type 0
SendsFront [] sending = sending ≡ none
SendsFront (x ∷ xs) sending = sending ≡ some x

abbrev pub Ready : Client → Type 0
Ready c = SendsFront c.commands c.sending

abbrev pub Written : Str → Client → Option Client → Type 0
Written x c result =
    (d : Client) × (result ≡ some d)
    × Ready d
    × (d.commands ≡ c.commands ++ x ∷ [])
    × (d.prev_command ≡ c.prev_command)

abbrev with_queue : List Str → Option Str → Client → Client
with_queue cs s c = record c { commands = cs; sending = s }

write_queue :
    (x : Str) (cs : List Str) (s : Option Str) (c : Client)
    → SendsFront cs s
    → Written x (with_queue cs s c) (write x (with_queue cs s c))
unfolding write do_write
write_queue x [] s c h = (with_queue (x ∷ []) (some x) c, refl, refl, refl, refl)
write_queue x (y ∷ ys) s c h = (with_queue (y ∷ (ys ++ x ∷ [])) s c, refl, h, refl, refl)

-- A command can always be written.
pub write-Written : (x : Str) (c : Client) → Ready c → Written x c (write x c)
write-Written x c h = write_queue x c.commands c.sending c h

abbrev pub Sent : Str → Client → Option Client → Type 0
Sent x c result =
    (d : Client) × (result ≡ some d)
    × Ready d
    × (c.commands ≡ x ∷ d.commands)
    × (d.prev_command ≡ x)

on_write_queue :
    (x : Str) (cs : List Str) (s : Option Str) (c : Client)
    → SendsFront cs s
    → s ≡ some x
    → Sent x (with_queue cs s c) (on_write true (with_queue cs s c))
unfolding on_write do_write
on_write_queue x [] s c h e = cc
on_write_queue x (y ∷ []) s c h e =
    let same : y ≡ x = some-injective _ _ (sym h ∙ e) in
    (
      record c { commands = []; sending = none; prev_command = y },
      refl,
      refl,
      ap (λ z. z ∷ []) same,
      same,
    )
on_write_queue x (y ∷ z ∷ zs) s c h e =
    let same : y ≡ x = some-injective _ _ (sym h ∙ e) in
    (
      record c { commands = z ∷ zs; sending = some z; prev_command = y },
      refl,
      refl,
      ap (λ u. u ∷ z ∷ zs) same,
      same,
    )

-- The end of a write is always met by a command in the queue.
pub on_write-Sent :
    (x : Str) (c : Client) → Ready c → c.sending ≡ some x → Sent x c (on_write true c)
on_write-Sent x c h e = on_write_queue x c.commands c.sending c h e

-- What `on_connect` writes again: the command that was sent last, if there is one.
abbrev pub resent : Bool → Str → List Str
resent false prev = []
resent true [] = []
resent true (b ∷ bs) = (b ∷ bs) ∷ []

-- The client is ready, with these commands behind its queue and the same command sent last.
abbrev pub Queues : Client → List Str → Client → Type 0
Queues c xs d = Ready d × (d.commands ≡ c.commands ++ xs) × (d.prev_command ≡ c.prev_command)

Queues-nothing :
    (c d : Client)
    → Ready c
    → d.commands ≡ c.commands
    → d.sending ≡ c.sending
    → d.prev_command ≡ c.prev_command
    → Queues c [] d
Queues-nothing c d h e s p = (
  subst (SendsFront d.commands) (sym s) (subst (λ k. SendsFront k c.sending) (sym e) h),
  e ∙ sym (append-nil c.commands),
  p,
)

pub on_connect-Queues :
    (is_ok : Bool) (c d : Client)
    → Ready c
    → on_connect is_ok c ≡ some d
    → Queues c (resent is_ok c.prev_command) d
unfolding on_connect close do_read_message
on_connect-Queues false c d h e =
    let same : close c ≡ d = some-injective _ _ e in
    subst (Queues c []) same (Queues-nothing c (close c) h refl refl refl)
on_connect-Queues true c d h e = by_prev c.prev_command refl e
  where
    by_prev :
        (prev : Str)
        → c.prev_command ≡ prev
        → (elim prev [
          | [] ↦ some (do_read_message c)
          | ◌∷◌ b bs ↦ elim (write c.prev_command c) [
            | none ↦ none
            | some c' ↦ some (do_read_message c')
          ]
        ])
          ≡ some d
        → Queues c (resent true prev) d
    by_prev [] p e =
        subst (Queues c []) (some-injective _ _ e)
          (Queues-nothing c (do_read_message c) h refl refl refl)
    by_prev (b ∷ bs) p e =
        let (w, q, ready, queue, prev) = write-Written c.prev_command c h in
        let again : some (do_read_message w) ≡ some d =
          sym (
            ap (λ (o : Option Client). elim o [ none ↦ none | some c' ↦ some (do_read_message c') ])
              q)
          ∙ e in
        subst (Queues c ((b ∷ bs) ∷ [])) (some-injective _ _ again)
          (ready, queue ∙ ap (λ x. c.commands ++ x ∷ []) p, prev)

act_on-Queues : (a : ReplyAction) (c d : Client) → Ready c → act_on a c ≡ some d → Queues c [] d
unfolding act_on close do_read_message
act_on-Queues read_on c d h e =
    subst (Queues c []) (some-injective _ _ e)
      (Queues-nothing c (do_read_message c) h refl refl refl)
act_on-Queues (redirect host port) c d h e = subst (Queues c []) (some-injective _ _ e) (
    Queues-nothing c (record (close c) { host = host; port = port; resolving = true }) h refl refl
      refl)
act_on-Queues removed c d h e = absurd (cc)

pub on_read_message-Queues :
    (bytes : Option Str) (c d : Client) → Ready c → on_read_message bytes c ≡ some d → Queues c [] d
unfolding on_read_message close
on_read_message-Queues none c d h e =
    subst (Queues c []) (some-injective _ _ e)
      (Queues-nothing c (close (record c { reading = false })) h refl refl refl)
on_read_message-Queues (some bytes) c d h e =
    act_on-Queues (answer_to c (cut_at 32 (reply_of bytes))) (record c { reading = false }) d h e
