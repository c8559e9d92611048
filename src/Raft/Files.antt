-- ===== src/Raft/Files.antt =====
-- The bytes of a transfer: the files that the leader reads (raft/raft_impl.hpp), and what the member
-- writes (raft/raft_rpc.hpp). The permissions of the files are left out.
mod Tests
pub mod Received
pub mod Chunks
pub mod Arrive
use draft.Base.{
  ℕ, zero, suc, ◌+◌, Bool, true, false, not, ◌||◌, Option, none, some, List, [], ◌∷◌, ◌++◌, Str,
  str_eq, codes, length, take, drop, ◌==◌, if◌then◌else◌,
}

-- What the iterator over the transferred path stops at; it passes over directories that are not empty.
pub data Item : Type 0 where
  empty_directory : Str → Item
  regular_file : Str → Str → Item

-- The name and the data of a request.
pub record Chunk : Type 0 where
  pub name : Str
  pub bytes : Str

-- `last`, `fin` with the bytes that were not read, and `gcount` of the last read.
pub record Source : Type 0 where
  pub last : Str
  pub fin : Option Str
  pub gcount : ℕ

-- `last` and `fout` of the member, its files in the order in which they were made, and its directories.
pub record Receiver : Type 0 where
  pub last : Str
  pub fout : Option Str
  pub files : List (Str × Str)
  pub directories : List Str

-- A write at the end of a file, which is made if it is not there.
unfoldable pub write_to : Str → Str → List (Str × Str) → List (Str × Str)
write_to n bytes [] = (n, bytes) ∷ []
write_to n bytes ((m, s) ∷ fs) =
    if str_eq n m then (m, s ++ bytes) ∷ fs else (m, s) ∷ write_to n bytes fs

-- The name without the slash at its end, if there is one.
unfoldable pub directory_of : Str → Option Str
directory_of [] = none
directory_of (c ∷ []) = if c == b'/' then some [] else none
directory_of (c ∷ d ∷ s) = elim (directory_of (d ∷ s)) [ none ↦ none | some t ↦ some (c ∷ t) ]

abbrev pub open_out : Str → Receiver → Receiver
open_out n v = record v { last = n; fout = some n; files = write_to n [] v.files }

abbrev pub write_out : Str → Option Str → Receiver → Receiver
write_out bytes none v = v
write_out bytes (some n) v = record v { files = write_to n bytes v.files }

abbrev pub receive_file : Chunk → Receiver → Receiver
receive_file ch v =
    let opened = if str_eq ch.name v.last then v else open_out ch.name v in
    write_out ch.bytes opened.fout opened

abbrev pub receive_named : Chunk → Option Str → Receiver → Receiver
receive_named ch (some d) v = record v { last = d; directories = v.directories ++ d ∷ [] }
receive_named ch none v = receive_file ch v

abbrev pub is_unnamed : Str → Bool
is_unnamed [] = true
is_unnamed (c ∷ s) = false

-- The end of `data_transfer`, which writes.
unfoldable pub receive : Chunk → Receiver → Receiver
receive ch v = if is_unnamed ch.name then v else receive_named ch (directory_of ch.name) v

-- The end of `done_transfer`.
abbrev pub close_out : Receiver → Receiver
close_out v = record v { fout = none }

-- `buff_size` is 65536.
module _ (buff_size : ℕ) where
  abbrev pub unread : Option Str → Str
  unread none = []
  unread (some bytes) = bytes

  abbrev pub opened_at : Str → Str → Source → Source
  opened_at n content r = elim r.fin [
    | none ↦ record r { last = n; fin = some content }
    | some _ ↦ r
  ]

  abbrev pub read_buffer : Source → Source × Chunk
  read_buffer r =
      let bytes = take buff_size (unread r.fin) in
      (
        record r { fin = some (drop buff_size (unread r.fin)); gcount = length bytes },
        record { name = r.last; bytes = bytes },
      )

  -- `transfer`, the part of a request for a file.
  abbrev pub read_file : Str → Str → Source → Source × Chunk
  read_file n [] r = (record r { last = n }, record { name = n; bytes = [] })
  read_file n (c ∷ content) r = read_buffer (opened_at n (c ∷ content) r)

  -- `do_data_transfer`, the part of the request for what the iterator stands at.
  unfoldable pub request_for : Item → Source → Source × Chunk
  request_for (empty_directory d) r =
      (record r { last = d }, record { name = d ++ b'/' ∷ []; bytes = [] })
  request_for (regular_file n content) r = read_file n content r

  -- `eof`.
  abbrev pub at_eof : Str → Source → Bool
  at_eof content r = not (r.gcount == buff_size) || (length content == buff_size)

  -- Whether `on_data_transfer` steps to the next item.
  abbrev pub is_sent : Item → Source → Bool
  is_sent (empty_directory d) r = true
  is_sent (regular_file n content) r = at_eof content r

  abbrev pub close_file : Item → Source → Source
  close_file (empty_directory d) r = r
  close_file (regular_file n content) r = record r { fin = none }

  -- Requests, each answered with success, to the end of the walk.
  pub transfer_all : ℕ → List Item → Source → Receiver → Option Receiver
  unfolding request_for receive
  transfer_all fuel [] r v = some v
  transfer_all zero (i ∷ items) r v = none
  transfer_all (suc fuel) (i ∷ items) r v =
      let (r', ch) = request_for i r in
      let v' = receive ch v in
      let on = transfer_all fuel items (close_file i r') v' in
      let again = transfer_all fuel (i ∷ items) r' v' in if is_sent i r' then on else again
