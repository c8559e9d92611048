-- ===== src/Queue/Tests.antt =====
-- Two items through a queue.
use draft.Base.{ℕ, ◌≡◌, refl, List, [], ◌∷◌, ◌++◌}
use draft.Queue.{Queue, empty_queue, push, pop, try_pop}
use draft.Queue.Fifo.{Run, pushes, pops, fails, stays, Run-que}

abbrev three : List ℕ
three = 3 ∷ []

abbrev three_four : List ℕ
three_four = 3 ∷ 4 ∷ []

abbrev four : Queue ℕ
four = record { que = 4 ∷ [] }

abbrev nothing : Queue ℕ
nothing = empty_queue

two_calls : Run nothing four three_four three
unfolding push pop try_pop
two_calls = fails refl (pushes 3 (pushes 4 (pops 3 refl stays)))

Run-que_example : nothing.que ++ three_four ≡ three ++ four.que
Run-que_example = Run-que nothing four three_four three two_calls
