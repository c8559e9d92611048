-- ===== src/Command/Tests.antt =====
-- Runs of the command parser.
use draft.Base.{◌≡◌, refl, [], ◌++◌, ◌∷◌, codes, Str}
use draft.Command.{Command, Parser, set, good, need_more, parse, fresh, do_parse, is_blank, is_eol}
use draft.Command.Roundtrip.{IsSendable, done, line, parse-line, parse-cut}
use draft.Command.Shape.{IsComplete, parse-IsComplete}

parse_set :
    (parse fresh (codes "set k a b" ++ 13 ∷ 10 ∷ [])).0.cmd
    ≡ record { key = codes "k"; value = codes "a b"; type = set }
unfolding parse do_parse is_blank is_eol
parse_set = refl

abbrev store_k : Command
store_k = record { key = codes "k"; value = codes "a b"; type = set }

store_k-IsSendable : IsSendable store_k
unfolding is_blank is_eol
store_k-IsSendable = (((refl, refl), tt), (refl, refl, (refl, (refl, tt))))

parse-line_example : parse fresh (line store_k ++ codes "get") ≡ done store_k (codes "get")
parse-line_example = parse-line store_k (codes "get") store_k-IsSendable

abbrev get_k : Str
get_k = codes "get k" ++ 13 ∷ 10 ∷ codes "del"

parse-cut_example :
    (p : Parser) × (parse fresh (codes "set k") ≡ (p, need_more, []))
    × (parse p ((codes " a b" ++ 13 ∷ 10 ∷ []) ++ codes "get") ≡ done store_k (codes "get"))
parse-cut_example =
    parse-cut store_k (codes "set k") (codes " a b" ++ 13 ∷ 10 ∷ []) (codes "get")
      store_k-IsSendable refl (λ e. cc)

get_k_parsed : parse fresh get_k ≡ ((parse fresh get_k).0, good, codes "del")
unfolding parse do_parse is_blank is_eol
get_k_parsed = refl

parse-IsComplete_example : IsComplete (parse fresh get_k).0.cmd
parse-IsComplete_example = parse-IsComplete get_k (codes "del") (parse fresh get_k).0 get_k_parsed
