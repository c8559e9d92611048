-- ===== src/Raft/Files/Arrive.antt =====
-- The files that the leader reads are those that the member has at the end.
use draft.Base.{
  ℕ, zero, suc, ◌+◌, ◌≤◌, ◌<◌, ◌≡◌, ◌≢◌, refl, sym, ◌∙◌, subst, Bool, true, false, Option, none,
  some, List, [], ◌∷◌, ◌++◌, append-nil, append_assoc, Str, str_eq, length, ◌==◌, arith,
}
use draft.Raft.Files.{
  Item, empty_directory, regular_file, Receiver, directory_of, request_for, transfer_all,
}
use draft.Raft.Files.Chunks.{source, one_file}
use draft.Raft.Files.Received.{is_absent, receiving, receive-first, receive-directory}

abbrev pub files_of : List Item → List (Str × Str)
files_of [] = []
files_of (empty_directory d ∷ items) = files_of items
files_of (regular_file n content ∷ items) = (n, content) ∷ files_of items

abbrev pub directories_of : List Item → List Str
directories_of [] = []
directories_of (empty_directory d ∷ items) = d ∷ directories_of items
directories_of (regular_file n content ∷ items) = directories_of items

-- The names are names of files and of directories, and each differs from the one before; the files are new.
abbrev pub Fresh : Str → List (Str × Str) → List Item → Type 0
Fresh last fs [] = Unit
Fresh last fs (empty_directory d ∷ items) = Fresh d fs items
Fresh last fs (regular_file n content ∷ items) =
    (n ≢ [])
    × (directory_of n ≡ none)
    × (str_eq n last ≡ false)
    × (is_absent n fs ≡ true)
    × Fresh n (fs ++ (n, content) ∷ []) items

-- Behind a file of exactly one buffer no empty file comes before another file.
abbrev pub Flows : ℕ → Bool → List Item → Type 0
Flows buff full [] = Unit
Flows buff full (empty_directory d ∷ items) = Flows buff full items
Flows buff full (regular_file n [] ∷ items) = (full ≡ false) × Flows buff full items
Flows buff full (regular_file n (c ∷ content) ∷ items) =
    Flows buff (length (c ∷ content) == buff) items

-- A request for each byte and one more for each item are enough.
abbrev pub rounds : List Item → ℕ
rounds [] = 0
rounds (empty_directory d ∷ items) = 1 + rounds items
rounds (regular_file n content ∷ items) = (length content + 1) + rounds items

-- The transfer ends, and the member has the files and the directories behind those that it had.
abbrev pub Arrives : List Item → Receiver → Option Receiver → Type 0
Arrives items v result =
    (v' : Receiver) × (result ≡ some v')
    × (v'.files ≡ v.files ++ files_of items)
    × (v'.directories ≡ v.directories ++ directories_of items)

module _ (buff : ℕ) (positive : 0 < buff) where
  -- Behind a file that has arrived.
  Arrives-file :
      (items : List Item) (n content : Str) (v : Receiver) (result : Option Receiver)
      → Arrives items (receiving n content v.files v.directories) result
      → Arrives (regular_file n content ∷ items) v result
  Arrives-file items n content v result (v', e, p, q) =
      (v', e, p ∙ append_assoc v.files ((n, content) ∷ []) (files_of items), q)

  -- The leader, with no file open, walks over directories that are empty and files; each request is
  -- answered with success. If the names are names of files that the member has not, each differs from
  -- the name before it, and no empty file comes behind a file of exactly one buffer with only empty
  -- files and directories between: requests for each byte and one more for each item are enough, and
  -- the member has at the end, behind its own, all the files with their bytes and the directories.
  pub transfer_all-Arrives :
      (items : List Item) (full : Bool) (f g : ℕ) (last : Str) (v : Receiver)
      → (g == buff) ≡ full
      → Flows buff full items
      → Fresh v.last v.files items
      → rounds items ≤ f
      → Arrives items v (transfer_all buff f items (source last none g) v)
  unfolding transfer_all
  transfer_all-Arrives [] full f g last v e fl fr le =
      (v, refl, sym (append-nil v.files), sym (append-nil v.directories))
  transfer_all-Arrives (empty_directory d ∷ items) full zero g last v e fl fr le =
      absurd (omega arith)
  transfer_all-Arrives (empty_directory d ∷ items) full (suc f) g last v e fl fr le =
      let v1 = record v { last = d; directories = v.directories ++ d ∷ [] } in
      let (v', q, p, p') = transfer_all-Arrives items full f g d v1 e fl fr (omega arith) in
      (
        v',
        (unfold request_for in rw (receive-directory d v) q),
        p,
        p' ∙ append_assoc v.directories (d ∷ []) (directories_of items),
      )
  transfer_all-Arrives (regular_file n [] ∷ items) full zero g last v e fl fr le =
      absurd (omega arith)
  transfer_all-Arrives (regular_file n [] ∷ items) full (suc f) g last v e (not_full, fl)
        (named, plain, new, there, fr) le =
      let part : (g == buff) ≡ false = e ∙ not_full in
      Arrives-file items n [] v _ (
        let (v', q, p, p') =
          transfer_all-Arrives items full f g n (receiving n [] v.files v.directories) e fl fr
            (omega arith) in
        (
          v',
          (unfold request_for in rw (receive-first n [] v named plain new there, part) q),
          p,
          p',
        ))
  transfer_all-Arrives (regular_file n (c ∷ cs) ∷ items) full zero g last v e fl fr le =
      absurd (omega arith)
  transfer_all-Arrives (regular_file n (c ∷ cs) ∷ items) full (suc f) g last v e fl
        (named, plain, new, there, fr) le =
      let (f', g', cost, e', q) =
        one_file buff positive items n c cs f g last v named plain new there (omega arith) in
      Arrives-file items n (c ∷ cs) v _ (
        subst (Arrives items (receiving n (c ∷ cs) v.files v.directories)) (sym q) (
          transfer_all-Arrives items (length (c ∷ cs) == buff) f' g' n
            (receiving n (c ∷ cs) v.files v.directories) e' fl fr (omega arith)))

  -- Behind a file of exactly one buffer an empty file is sent for ever.
  transfer_all_stuck :
      (f : ℕ) (n last : Str) (items : List Item) (v : Receiver)
      → transfer_all buff f (regular_file n [] ∷ items) (source last none buff) v ≡ none
  unfolding transfer_all request_for
  transfer_all_stuck zero n last items v = refl
  transfer_all_stuck (suc f) n last items v =
      let same : (buff == buff) ≡ true = ground arith in
      let some_bytes : (0 == buff) ≡ false = ground arith in
      rw (same, some_bytes) (transfer_all_stuck f n n items _)
