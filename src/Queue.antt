-- ===== src/Queue.antt =====
-- raft/concurrent_queue.hpp: a queue that threads share. Each operation holds the mutex from its first
-- look at the queue to its last, so that the calls of all threads stand in one order.
pub mod Fifo
mod Tests
use draft.Base.{ℕ, ◌≡◌, Bool, true, false, Option, none, some, List, [], ◌∷◌, ◌++◌, length}

-- The items from the front to the back.
pub record Queue {ℓ} (A : Type ℓ) : Type ℓ where
  pub que : List A

module _ {ℓ} {A : Type ℓ} where
  abbrev pub empty_queue : Queue A
  empty_queue = record { que = [] }

  unfoldable pub push : A → Queue A → Queue A
  push t q = record { que = q.que ++ t ∷ [] }

  -- Both forms of `pop`; `none` is a thread that waits for `notify_one`.
  unfoldable pub pop : Queue A → Option (A × Queue A)
  pop q = elim q.que [ [] ↦ none | ◌∷◌ t ts ↦ some (t, record { que = ts }) ]

  -- The result tells whether the item was given its value.
  unfoldable pub try_pop : Queue A → Bool × Option A × Queue A
  try_pop q = elim (pop q) [ none ↦ (false, none, q) | some (t, rest) ↦ (true, some t, rest) ]

  unfoldable pub size : Queue A → ℕ
  size q = length q.que

  unfoldable pub is_empty : Queue A → Bool
  is_empty q = elim q.que [ [] ↦ true | _ ↦ false ]
