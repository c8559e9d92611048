-- ===== src/Log/Copy.antt =====
-- `copy` of the states, with the growth of their file.
use draft.Base.{
  ℕ, zero, suc, ◌+◌, ◌-◌, ◌≤◌, ◌<◌, ◌≡◌, refl, ap, ◌∙◌, ◌⊎◌, inl, inr, false, ◌&&◌, Option, some,
  [], ◌∷◌, Str, length, ltb, leb, arith, Bool-cases,
}
use draft.Log.Entry.{States, make_states, align, default_stat_size}
use draft.Log.Room.{
  Os, RcErrno, rc_good, is_good, page_size, grown, grow_stat_until, grown_more, Grows,
}
use draft.Log.{EntryLogger, copy_states}

-- On a states file of a page at least, and with fuel for the text, the loop of `copy` ends: with an error
-- of the system, or with room for the text. The file never shrinks.
pub grow_stat_until-Grows :
    (os : Os) (len fuel size : ℕ)
    → page_size ≤ size
    → 0 < fuel
    → 32 + len + 1 < size + fuel
    → Grows os (31 + len) size (grow_stat_until os fuel len size)
unfolding grow_stat_until
grow_stat_until-Grows os len zero size p z f = absurd (omega arith)
grow_stat_until-Grows os len (suc fuel) size p z f =
    elim (Bool-cases (leb 32 size && ltb (size - 32) len)) [
      | inl lacks ↦ elim (Bool-cases (is_good (os.remap (grown size)))) [
        | inl ok ↦
            let (n, rc, e, le, room) =
              grow_stat_until-Grows os len fuel (grown size) (omega (arith, grown_more size p))
                (ground arith) (ground (arith, grown_more size p)) in
            (n, rc, rw (lacks, ok) e, omega (arith, grown_more size p), room)
        | inr bad ↦
            (size, os.remap (grown size), rw (lacks, bad), omega arith, inr (grown size, refl, bad))
      ]
      | inr fits ↦ (size, rc_good, rw fits, omega arith, inl (refl, ground arith))
    ]

-- The configuration that `copy` leaves in the states.
abbrev pub config_or : Str → Str → Str
config_or old [] = old
config_or old (c ∷ text) = c ∷ text

-- Only the states change, and their file.
pub record SameEntries (l l' : EntryLogger) : Type 0 where
  pub cells : l'.cells ≡ l.cells
  pub infos : l'.infos ≡ l.infos
  pub payload_size : l'.payload_size ≡ l.payload_size
  pub cfg_entry_index : l'.cfg_entry_index ≡ l.cfg_entry_index
  pub ldbs_size : l'.ldbs_size ≡ l.ldbs_size
  pub stat_le : l.stat_size ≤ l'.stat_size

-- The code is one of an error that the system gave for a call.
abbrev pub Refused : Os → RcErrno → Type 0
Refused os rc = (is_good rc ≡ false) × ((n : ℕ) × ((rc ≡ os.remap n) ⊎ (rc ≡ os.sync n)))

-- The states are those of the call, or the file could not grow and they are as they were.
abbrev pub Copies : Os → EntryLogger → Str → ℕ → ℕ → Option (EntryLogger × RcErrno) → Type 0
Copies os l text index term result =
    (l' : EntryLogger) × (rc : RcErrno) × (result ≡ some (l', rc))
    × SameEntries l l'
    × (((l'.stat.last_index ≡ index)
          × (l'.stat.last_term ≡ term)
          × (l'.stat.last_config ≡ config_or l.stat.last_config text))
        ⊎ (Refused os rc × (l'.stat ≡ l.stat)))

-- With a states file of a page at least, the copy of the states ends: they hold the index, the term and the
-- text, or the old text where there is no new one; or the system refuses to grow the file and the states
-- stay. The entries stay.
pub copy_states-Copies :
    (os : Os) (l : EntryLogger) (text : Str) (index term : ℕ)
    → page_size ≤ l.stat_size
    → Copies os l text index term (copy_states os (make_states text) index term l)
unfolding copy_states make_states
copy_states-Copies os l [] index term p = (
  _,
  os.sync l.stat.size,
  refl,
  record {
    cells = refl;
    infos = refl;
    payload_size = refl;
    cfg_entry_index = refl;
    ldbs_size = refl;
    stat_le = omega arith;
  },
  inl (refl, refl, refl),
)
copy_states-Copies os l (c ∷ text) index term p =
    let stored : States = record {
      size = align (default_stat_size + length (c ∷ text));
      last_index = index;
      last_term = term;
      last_config = c ∷ text;
    } in
    let (n, rc, e, le, out) =
      grow_stat_until-Grows os (length (c ∷ text)) (suc (suc (length (c ∷ text)))) l.stat_size p
        (omega arith) (omega arith) in
    elim out [
      | inl (good, room) ↦ (
        record l { stat_size = n; stat = stored },
        os.sync stored.size,
        rw (e, good) refl,
        record {
          cells = refl;
          infos = refl;
          payload_size = refl;
          cfg_entry_index = refl;
          ldbs_size = refl;
          stat_le = le;
        },
        inl (refl, refl, refl),
      )
      | inr (k, q, bad) ↦
          let no' : is_good rc ≡ false = ap is_good q ∙ bad in
          (
            record l { stat_size = n },
            rc,
            rw (e, no') refl,
            record {
              cells = refl;
              infos = refl;
              payload_size = refl;
              cfg_entry_index = refl;
              ldbs_size = refl;
              stat_le = le;
            },
            inr ((no', (k, inl q)), refl),
          )
    ]
