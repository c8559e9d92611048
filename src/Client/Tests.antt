-- ===== src/Client/Tests.antt =====
-- A client with two commands, and one that is sent on.
use draft.Base.{◌≡◌, refl, true, false, none, Option, some, [], ◌∷◌, ◌++◌, Str, codes, str_eq}
use draft.Storage.{reply_text}
use draft.Client.{
  Client, write, do_write, on_write, on_connect, on_read_message, do_read_message, close, act_on,
  answer_to, cut_at, reply_of, redirect_to, storage_port,
}
use draft.Client.Order.{Run, stays, writes, sends, receives, connects, Run-commands}
use draft.Client.Ready.{Ready}
use draft.Client.Redirect.{on_read_message-reply_text}

abbrev new_client : Client
new_client = record {
  host = codes "a";
  port = codes "9001";
  prev_command = [];
  commands = [];
  sending = none;
  reading = false;
  resolving = false;
  closed = false;
}

abbrev last_sent : Client
last_sent = record new_client {
  prev_command = codes "x";
  commands = codes "y" ∷ [];
  sending = some (codes "y");
}

-- The server says that it does not lead, and the client connects to the one that does.
abbrev told : Option Str
told = some (reply_text (codes "NOT_LEADER") (codes "b" ++ b':' ∷ codes "8001"))

abbrev sent_on : Client
sent_on = record last_sent {
  host = codes "b";
  port = codes "9001";
  commands = codes "y" ∷ codes "x" ∷ [];
  reading = true;
  resolving = true;
  closed = true;
}

two_writes : Run new_client sent_on (codes "x" ∷ codes "y" ∷ codes "x" ∷ []) (codes "x" ∷ [])
unfolding write do_write on_write on_connect on_read_message do_read_message close act_on answer_to
    cut_at reply_of redirect_to storage_port str_eq
two_writes = writes (codes "x") refl (
    writes (codes "y") refl
      (sends (codes "x") refl refl (receives told refl (connects true refl stays))))

Run-commands_example :
    Ready sent_on
    × (new_client.commands ++ codes "x" ∷ codes "y" ∷ codes "x" ∷ []
        ≡ (codes "x" ∷ []) ++ sent_on.commands)
    × (sent_on.prev_command ≡ codes "x")
    × ((d : Client) × Run sent_on d [] sent_on.commands × (d.commands ≡ []))
Run-commands_example =
    Run-commands new_client sent_on (codes "x" ∷ codes "y" ∷ codes "x" ∷ []) (codes "x" ∷ []) refl
      two_writes

on_read_message-reply_text_example :
    on_read_message
      (some (reply_text (codes "NOT_LEADER") (codes "b" ++ b':' ∷ codes "8001")))
      new_client
    ≡ some (record new_client {
      host = codes "b";
      port = storage_port (codes "8001");
      reading = false;
      resolving = true;
      closed = true;
    })
on_read_message-reply_text_example =
    on_read_message-reply_text new_client (codes "b") (codes "8001") (refl, tt)
      (unfold storage_port in unfold str_eq in refl)
