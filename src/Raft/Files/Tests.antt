-- ===== src/Raft/Files/Tests.antt =====
-- The transfer of a directory by a buffer of two bytes.
use draft.Base.{false, none, refl, List, [], ◌∷◌, str_eq, codes, arith}
use draft.Raft.Files.{
  Item, empty_directory, regular_file, Source, Receiver, directory_of, transfer_all,
}
use draft.Raft.Files.Arrive.{Arrives, transfer_all-Arrives}

abbrev walk : List Item
walk =
    empty_directory (codes "db/a")
    ∷ regular_file (codes "db/b") (codes "12345")
    ∷ regular_file (codes "db/c") []
    ∷ regular_file (codes "db/d") (codes "12")
    ∷ []

abbrev at_start : Source
at_start = record { last = []; fin = none; gcount = 0 }

abbrev of_member : Receiver
of_member = record {
  last = [];
  fout = none;
  files = (codes "vote", codes "x") ∷ [];
  directories = [];
}

transfer_all-Arrives_example : Arrives walk of_member (transfer_all 2 20 walk at_start of_member)
unfolding str_eq directory_of
transfer_all-Arrives_example =
    transfer_all-Arrives 2 (omega arith) walk false 20 0 [] of_member refl (refl, tt)
      (
        (λ e. cc),
        refl,
        refl,
        refl,
        ((λ e. cc), refl, refl, refl, ((λ e. cc), refl, refl, refl, tt)),
      )
      (omega arith)
