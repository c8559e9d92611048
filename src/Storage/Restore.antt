-- ===== src/Storage/Restore.antt =====
-- What a server reads of a snapshot.
use draft.Base.{
  ℕ, ◌≡◌, ◌≢◌, refl, ap, sym, subst, ◌∙◌, inl, inr, ◌++◌, true, Option, none, some, [], ◌∷◌, Str,
  str_eq, str_eq_iff, Bool-cases, All, append_assoc, codes, leb, ◌==◌, false,
}
use draft.Config.{put_pairs}
use draft.Config.Pairs.{options_of, Puts, put_pairs-options_of}
use draft.Config.{parse as parse_config}
use draft.Table.{
  Table, get_value, assign, IsMap, NoKey, first_value, get_value-assign, get_value-assign_other,
  get_value-NoKey,
}
use draft.Storage.{Server}
use draft.Storage.Snapshot.{Reader, load_pairs, load_parsed, load_database, snapshot_text}

get_value-load_pairs :
    (kvs db : Table) (k : Str)
    → IsMap kvs
    → get_value k (load_pairs kvs db) ≡ first_value (get_value k kvs) (get_value k db)
unfolding load_pairs
get_value-load_pairs [] db k m = unfold get_value in refl
get_value-load_pairs ((j, v) ∷ kvs) db k (o, m) =
    get_value-load_pairs kvs (assign j v db) k m ∙ elim (Bool-cases (str_eq k j)) [
      | inl e ↦
          let same : j ≡ k = sym ((str_eq_iff k j).0 e) in
          let away : get_value k kvs ≡ none =
            get_value-NoKey k kvs (subst (λ i. NoKey i kvs) same o) in
          let put : get_value k (assign j v db) ≡ some v =
            subst (λ i. get_value k (assign i v db) ≡ some v) (sym same)
              (get_value-assign k v db) in
          rw (away, put) (unfold get_value in rw e refl)
      | inr e ↦ rw (get_value-assign_other k j v db e) (unfold get_value in rw e refl)
    ]

load_text :
    (read : Reader) (server : Server) (text : Str) (t : Table)
    → text ≢ []
    → put_pairs (read text) [] ≡ some t
    → load_database read (some text) server
      ≡ some (record server { db = load_pairs t server.db }, true)
load_text read server [] t ne e = absurd (ne refl)
load_text read server (b ∷ text) t ne e =
    unfold load_database in unfold parse_config in rw e (unfold load_parsed in refl)

append-cons-ne-nil : (s t : Str) (c : ℕ) → s ++ c ∷ t ≢ []
append-cons-ne-nil [] t c e = cc
append-cons-ne-nil (x ∷ s) t c e = cc

append-ne-nil : (s t : Str) → s ≢ [] → s ++ t ≢ []
append-ne-nil [] t ne e = ne refl
append-ne-nil (x ∷ s) t ne e = cc

snapshot_text-cons : (k v : Str) (db : Table) → snapshot_text ((k, v) ∷ db) ≢ []
unfolding snapshot_text
snapshot_text-cons k v db =
    append-ne-nil _ _ (append-ne-nil _ _ (append-ne-nil _ _ (append-cons-ne-nil k _ 32)))

-- What is read of a snapshot, where the names and values of the database are found in it.
load_read :
    (read : Reader) (db : Table) (server : Server)
    → read (snapshot_text db) ≡ options_of db
    → server.db ≡ []
    → (t : Server) × (load_database read (some (snapshot_text db)) server ≡ some (t, true))
      × ((k : Str) → get_value k t.db ≡ get_value k db)
unfolding get_value
load_read read [] server law e =
    (server, (unfold snapshot_text in unfold load_database in refl), λ k. rw e refl)
load_read read ((j, v) ∷ db) server law e =
    found (put_pairs (options_of ((j, v) ∷ db)) []) refl (put_pairs-options_of ((j, v) ∷ db) [] tt)
  where
    ending : (o : Option Str) → first_value (first_value none o) none ≡ o
    ending none = refl
    ending (some x) = refl

    found :
        (r : Option Table)
        → put_pairs (options_of ((j, v) ∷ db)) [] ≡ r
        → Puts ((j, v) ∷ db) [] r
        → (t : Server) × (load_database read (some (snapshot_text ((j, v) ∷ db))) server
            ≡ some (t, true))
          × ((k : Str) → get_value k t.db ≡ get_value k ((j, v) ∷ db))
    found none q p = absurd p
    found (some u) q (m, same) = (
      record server { db = load_pairs u server.db },
      load_text read server (snapshot_text ((j, v) ∷ db)) u (snapshot_text-cons j v db)
          (ap (λ os. put_pairs os []) law ∙ q),
      λ k. rw e (
          get_value-load_pairs u [] k m
          ∙ ap (λ o. first_value o (get_value k [])) (same k)
          ∙ ending (get_value k ((j, v) ∷ db))),
    )

-- A name of a configuration file: not empty, and no byte that is a blank, `=`, `#` or `[`.
abbrev IsNameByte : ℕ → Type 0
IsNameByte c =
    (leb c 32 ≡ false) × ((c == b'=') ≡ false) × ((c == b'#') ≡ false) × ((c == b'[') ≡ false)

abbrev pub IsName : Str → Type 0
IsName [] = ⊥
IsName (c ∷ k) = All IsNameByte (c ∷ k)

-- The last byte is no blank.
abbrev pub EndsPlain : ℕ → Str → Type 0
EndsPlain c [] = leb c 32 ≡ false
EndsPlain c (d ∷ s) = EndsPlain d s

-- A value of a configuration file: printable bytes, no `#` among them, and no blank at either end.
abbrev pub IsValue : Str → Type 0
IsValue [] = Unit
IsValue (c ∷ s) =
    All (λ b. (leb 32 b ≡ true) × ((b == b'#') ≡ false)) (c ∷ s)
    × (leb c 32 ≡ false)
    × EndsPlain c s

-- What the library that reads configuration files does on a line `name = value`: it takes the name and
-- the value, without the blanks around `=`, and goes on behind the line; in an empty file it finds
-- nothing.
pub record ReadsLines (read : Reader) : Type 0 where
  pub nothing : read [] ≡ []
  pub one_line :
      (k v rest : Str)
      → IsName k
      → IsValue v
      → read (k ++ (codes " = " ++ (v ++ 10 ∷ rest))) ≡ k ∷ v ∷ read rest

-- The keys of the database are names, and its values are values.
abbrev pub IsPrintable : Table → Type 0
IsPrintable = All (λ p. IsName (p.0) × IsValue (p.1))

snapshot_text_line :
    (k v : Str) (db : Table)
    → snapshot_text ((k, v) ∷ db) ≡ k ++ (codes " = " ++ (v ++ 10 ∷ snapshot_text db))
unfolding snapshot_text
snapshot_text_line k v db = simp append_assoc refl

read-snapshot_text :
    (read : Reader) (db : Table)
    → ReadsLines read
    → IsPrintable db
    → read (snapshot_text db) ≡ options_of db
read-snapshot_text read [] law p = unfold snapshot_text in law.nothing
read-snapshot_text read ((k, v) ∷ db) law ((name, value), p) =
    ap read (snapshot_text_line k v db)
    ∙ law.one_line k v (snapshot_text db) name value
    ∙ ap (λ os. k ∷ v ∷ os) (read-snapshot_text read db law p)

-- A snapshot of a database whose keys are names and whose values are values of a configuration file, loaded
-- by a server whose database is empty, is read without an error, and gives a value to exactly the
-- keys that the database had one for, and the same one: if the library that reads the file reads lines of
-- a name, `=` and a value.
pub load_database-snapshot_text :
    (read : Reader) (db : Table) (server : Server)
    → ReadsLines read
    → IsPrintable db
    → server.db ≡ []
    → (t : Server) × (load_database read (some (snapshot_text db)) server ≡ some (t, true))
      × ((k : Str) → get_value k t.db ≡ get_value k db)
load_database-snapshot_text read db server law p e =
    load_read read db server (read-snapshot_text read db law p) e
