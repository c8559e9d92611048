-- ===== src/Config/Pairs.antt =====
-- The table that is made of the names and values of a configuration file.
use draft.Base.{
  ◌≡◌, refl, ap, sym, ◌∙◌, inl, inr, true, false, Option, none, some, List, [], ◌∷◌, Str, str_eq,
  Bool-cases,
}
use draft.Config.{ConfigParser, put_pairs, conf_good, parse, find}
use draft.Table.{
  Table, get_value, emplace_value, IsMap, first_value, get_value-emplace_value, emplace_value-IsMap,
}

-- The names and the values in turn.
abbrev pub options_of : Table → List Str
options_of [] = []
options_of ((k, v) ∷ db) = k ∷ v ∷ options_of db

first_value_assoc :
    (a b c : Option Str) → first_value (first_value a b) c ≡ first_value a (first_value b c)
first_value_assoc none b c = refl
first_value_assoc (some v) b c = refl

get_value-cons :
    (k j v : Str) (db : Table)
    → get_value k ((j, v) ∷ db) ≡ first_value (get_value k ((j, v) ∷ [])) (get_value k db)
unfolding get_value
get_value-cons k j v db = elim (Bool-cases (str_eq k j)) [ inl e ↦ rw e refl | inr e ↦ rw e refl ]

abbrev pub Puts : Table → Table → Option Table → Type 0
Puts db t none = ⊥
Puts db t (some u) =
    IsMap u × ((k : Str) → get_value k u ≡ first_value (get_value k t) (get_value k db))

pub put_pairs-options_of : (db t : Table) → IsMap t → Puts db t (put_pairs (options_of db) t)
unfolding put_pairs
put_pairs-options_of [] t m = (m, λ k. unfold get_value in by_first (get_value k t))
  where
    by_first : (o : Option Str) → o ≡ first_value o none
    by_first none = refl
    by_first (some x) = refl
put_pairs-options_of ((j, v) ∷ db) t m =
    widen (put_pairs (options_of db) (emplace_value j v t))
      (put_pairs-options_of db (emplace_value j v t) (emplace_value-IsMap j v t m))
  where
    widen : (r : Option Table) → Puts db (emplace_value j v t) r → Puts ((j, v) ∷ db) t r
    widen none p = p
    widen (some u) (n, same) = (
      n,
      λ k.
          same k
          ∙ ap (λ o. first_value o (get_value k db)) (get_value-emplace_value k j v t)
          ∙ first_value_assoc (get_value k t) (get_value k ((j, v) ∷ [])) (get_value k db)
          ∙ ap (first_value (get_value k t)) (sym (get_value-cons k j v db)),
    )

-- A file of names and values, read by a new parser: the result is good, no name stands twice in the
-- table, and `find` gives the first value of a name in the file, or nothing where the name is not there.
pub find-parse :
    (kvs : Table)
    → (c : ConfigParser) × (parse (some (options_of kvs)) (record { inited = false; config_ = [] })
        ≡ some (c, conf_good))
      × IsMap c.config_
      × ((k : Str) → find k c ≡ get_value k kvs)
unfolding parse find
find-parse kvs = found (put_pairs (options_of kvs) []) refl (put_pairs-options_of kvs [] tt)
  where
    found :
        (r : Option Table)
        → put_pairs (options_of kvs) [] ≡ r
        → Puts kvs [] r
        → (c : ConfigParser) × (parse
              (some (options_of kvs))
              (record { inited = false; config_ = [] })
            ≡ some (c, conf_good))
          × IsMap c.config_
          × ((k : Str) → find k c ≡ get_value k kvs)
    found none q p = absurd p
    found (some u) q (m, same) = (
      record { inited = true; config_ = u },
      rw q refl,
      m,
      λ k. same k ∙ unfold get_value in refl,
    )
