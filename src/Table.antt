-- ===== src/Table.antt =====
-- `std::unordered_map<std::string, std::string>`: the database of server/storage_server.hpp, and `config_t`
-- of raft/config_parser.hpp, as association lists.
use draft.Base.{
  ◌≡◌, refl, sym, subst, true, false, Option, none, some, List, [], ◌∷◌, Str, str_eq, str_eq_refl,
  str_eq_iff, if◌then◌else◌, Bool-cases, Option-cases, inl, inr, All,
}

abbrev pub Table : Type 0
Table = List (Str × Str)

-- `find`, with `none` for `end()`.
unfoldable pub get_value : Str → Table → Option Str
get_value k [] = none
get_value k ((j, v) ∷ db) = if str_eq k j then some v else get_value k db

-- `db[key] = value`
unfoldable pub assign : Str → Str → Table → Table
assign k v [] = (k, v) ∷ []
assign k v ((j, w) ∷ db) =
    let rest = assign k v db in if str_eq k j then (j, v) ∷ db else (j, w) ∷ rest

-- `erase`
unfoldable pub erase_key : Str → Table → Table
erase_key k [] = []
erase_key k ((j, w) ∷ db) = let rest = erase_key k db in if str_eq k j then rest else (j, w) ∷ rest

pub get_value-assign : (k v : Str) (db : Table) → get_value k (assign k v db) ≡ some v
unfolding get_value assign
get_value-assign k v [] = rw (str_eq_refl k) refl
get_value-assign k v ((j, w) ∷ db) = elim (Bool-cases (str_eq k j)) [
  | inl e ↦ rw e (rw e refl)
  | inr e ↦ rw e (rw e (get_value-assign k v db))
]

pub get_value-erase_key : (k : Str) (db : Table) → get_value k (erase_key k db) ≡ none
unfolding get_value erase_key
get_value-erase_key k [] = refl
get_value-erase_key k ((j, w) ∷ db) = elim (Bool-cases (str_eq k j)) [
  | inl e ↦ rw e (get_value-erase_key k db)
  | inr e ↦ rw e (rw e (get_value-erase_key k db))
]

-- The other keys keep their values.
pub get_value-assign_other :
    (k j v : Str) (db : Table) → str_eq k j ≡ false → get_value k (assign j v db) ≡ get_value k db
unfolding get_value assign
get_value-assign_other k j v [] h = rw h refl
get_value-assign_other k j v ((i, w) ∷ db) h = elim (Bool-cases (str_eq j i)) [
  | inl e ↦ rw e (same_key i ((str_eq_iff j i).0 e))
  | inr e ↦ rw e (elim (Bool-cases (str_eq k i)) [
    | inl f ↦ rw f refl
    | inr f ↦ rw f (get_value-assign_other k j v db h)
  ])
]
  where
    same_key : (i : Str) → j ≡ i → get_value k ((i, v) ∷ db) ≡ get_value k ((i, w) ∷ db)
    same_key i e = let other : str_eq k i ≡ false = rw e at h in rw other refl

-- `emplace`: a value that is there already stays.
unfoldable pub emplace_value : Str → Str → Table → Table
emplace_value k v db = elim (get_value k db) [ none ↦ (k, v) ∷ db | some w ↦ db ]

abbrev pub NoKey : Str → Table → Type 0
NoKey k = All (λ p. str_eq k p.0 ≡ false)

-- No key stands twice.
abbrev pub IsMap : Table → Type 0
IsMap [] = Unit
IsMap ((k, v) ∷ db) = NoKey k db × IsMap db

pub get_value-NoKey : (k : Str) (db : Table) → NoKey k db → get_value k db ≡ none
unfolding get_value
get_value-NoKey k [] h = refl
get_value-NoKey k ((j, v) ∷ db) (a, h) = rw a (get_value-NoKey k db h)

pub NoKey-get_value : (k : Str) (db : Table) → get_value k db ≡ none → NoKey k db
unfolding get_value
NoKey-get_value k [] h = tt
NoKey-get_value k ((j, v) ∷ db) h = elim (Bool-cases (str_eq k j)) [
  | inl e ↦ (let found : some v ≡ none = rw e at h in cc)
  | inr e ↦ (e, NoKey-get_value k db (rw e at h))
]

pub emplace_value_new : (k v : Str) (db : Table) → NoKey k db → emplace_value k v db ≡ (k, v) ∷ db
unfolding emplace_value
emplace_value_new k v db h = rw (emplace_value, get_value-NoKey k db h) refl

NoKey-assign :
    (k j v : Str) (db : Table) → str_eq k j ≡ false → NoKey k db → NoKey k (assign j v db)
unfolding assign
NoKey-assign k j v [] ne h = (ne, tt)
NoKey-assign k j v ((i, w) ∷ db) ne (a, h) = elim (Bool-cases (str_eq j i)) [
  | inl e ↦ rw e (a, h)
  | inr e ↦ rw e (a, NoKey-assign k j v db ne h)
]

str_eq-sym : (s t : Str) → str_eq s t ≡ false → str_eq t s ≡ false
str_eq-sym s t h = elim (Bool-cases (str_eq t s)) [
  | inr e ↦ e
  | inl e ↦
      (let same : t ≡ s = (str_eq_iff t s).0 e in
        let yes_eq : str_eq s t ≡ true = rw same (str_eq_refl s) in cc)
]

pub assign-IsMap : (k v : Str) (db : Table) → IsMap db → IsMap (assign k v db)
unfolding assign
assign-IsMap k v [] m = (tt, tt)
assign-IsMap k v ((j, w) ∷ db) (o, m) = elim (Bool-cases (str_eq k j)) [
  | inl e ↦ rw e (o, m)
  | inr e ↦ rw e (NoKey-assign j k v db (str_eq-sym k j e) o, assign-IsMap k v db m)
]

NoKey-erase_key : (k j : Str) (db : Table) → NoKey k db → NoKey k (erase_key j db)
unfolding erase_key
NoKey-erase_key k j [] h = tt
NoKey-erase_key k j ((i, w) ∷ db) (a, h) = elim (Bool-cases (str_eq j i)) [
  | inl e ↦ rw e (NoKey-erase_key k j db h)
  | inr e ↦ rw e (a, NoKey-erase_key k j db h)
]

pub erase_key-IsMap : (k : Str) (db : Table) → IsMap db → IsMap (erase_key k db)
unfolding erase_key
erase_key-IsMap k [] m = tt
erase_key-IsMap k ((j, w) ∷ db) (o, m) = elim (Bool-cases (str_eq k j)) [
  | inl e ↦ rw e (erase_key-IsMap k db m)
  | inr e ↦ rw e (NoKey-erase_key j k db o, erase_key-IsMap k db m)
]

-- The first value that is there.
abbrev pub first_value : Option Str → Option Str → Option Str
first_value none o = o
first_value (some v) o = some v

emplace_value_old : (k v w : Str) (db : Table) → get_value k db ≡ some w → emplace_value k v db ≡ db
unfolding emplace_value
emplace_value_old k v w db h = rw (emplace_value, h) refl

pub emplace_value-IsMap : (k v : Str) (db : Table) → IsMap db → IsMap (emplace_value k v db)
emplace_value-IsMap k v db m = elim (Option-cases (get_value k db)) [
  | inl e ↦
      (let o = NoKey-get_value k db e in subst IsMap (sym (emplace_value_new k v db o)) (o, m))
  | inr (w, e) ↦ subst IsMap (sym (emplace_value_old k v w db e)) m
]

pub get_value-emplace_value :
    (k j v : Str) (db : Table)
    → get_value k (emplace_value j v db) ≡ first_value (get_value k db) (get_value k ((j, v) ∷ []))
unfolding get_value
get_value-emplace_value k j v db = elim (Option-cases (get_value j db)) [
  | inl e ↦ rw (emplace_value_new j v db (NoKey-get_value j db e)) (elim (Bool-cases (str_eq k j)) [
    | inr f ↦ rw f (by_first (get_value k db))
    | inl f ↦
        let same : k ≡ j = (str_eq_iff k j).0 f in
        let none_there : get_value k db ≡ none = rw same e in rw (f, none_there) refl
  ])
  | inr (w, e) ↦ rw (emplace_value_old j v w db e) (elim (Bool-cases (str_eq k j)) [
    | inr f ↦ rw f (by_first (get_value k db))
    | inl f ↦
        let same : k ≡ j = (str_eq_iff k j).0 f in
        let there : get_value k db ≡ some w = rw same e in rw (f, there) refl
  ])
]
  where
    by_first : (o : Option Str) → o ≡ first_value o none
    by_first none = refl
    by_first (some x) = refl
