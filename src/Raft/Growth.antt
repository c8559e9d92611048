-- ===== src/Raft/Growth.antt =====
-- How a leader's log may change: `append` of `raft_impl` writes one entry behind the last.
use draft.Base.{ℕ, ◌+◌, ◌≡◌, ◌∙◌, sym, subst, ◌⊎◌, inl, inr, Bool, true, some, [], ◌∷◌, Str}
use draft.Log.{EntryLogger, last_entry_index, append as log_append}
use draft.Log.Entry.{make_entry as log_make_entry}
use draft.Log.Room.{Os, RcErrno}

pub data Written : EntryLogger → EntryLogger → Type 0 where
  appended :
      {l l' : EntryLogger}
      → (os : Os) (text : Str) (last term : ℕ) (cfg : Bool) (rc : RcErrno)
      → last_entry_index l ≡ some last
      → log_append os (log_make_entry l.cfg_entry_index text (last + 1) term cfg ∷ []) true l
        ≡ some (l', rc)
      → Written l l'
  in_turn : {l m n : EntryLogger} → Written l m → Written m n → Written l n

-- The log is the same, or entries were written behind it.
abbrev pub Grows : EntryLogger → EntryLogger → Type 0
Grows l l' = (l' ≡ l) ⊎ Written l l'

pub Grows-trans : (l m n : EntryLogger) → Grows l m → Grows m n → Grows l n
Grows-trans l m n (inl e) (inl f) = inl (f ∙ e)
Grows-trans l m n (inl e) (inr w) = inr (subst (λ k. Written k n) e w)
Grows-trans l m n (inr v) (inl f) = inr (subst (Written l) (sym f) v)
Grows-trans l m n (inr v) (inr w) = inr (in_turn v w)
