-- ===== src/Log/Chop.antt =====
-- `chop` on a well-formed log.
use draft.Base.{
  ℕ, zero, suc, ◌+◌, ◌-◌, ◌≤◌, ◌<◌, ◌≡◌, refl, ap, ◌∙◌, inl, inr, Bool, true, false, Option, some,
  List, [], ◌∷◌, length, take, ◌==◌, if◌then◌else◌, arith, Bool-cases, length-take,
}
use draft.Log.Entry.{LogEntry, sentry}
use draft.Log.Memory.{Cells, put_end}
use draft.Log.Room.{Os, RcErrno, rc_good, rc_oor}
use draft.Log.{EntryLogger, chop, sizes}
use draft.Log.View.{Rep, Laid, Counts, Chain, infos_of, Laid-put_end, Ends-put_end, get_elem?-lt}
use draft.Log.Lookup.{in_list, out_of_range_lem, info_at_lem}
use draft.Log.Rewind.{rewind-Chain, Chain-take}

take-infos_of :
    (n off : ℕ) (es : List LogEntry) → take n (infos_of off es) ≡ infos_of off (take n es)
take-infos_of zero off es = refl
take-infos_of (suc n) off [] = refl
take-infos_of (suc n) off (e ∷ es) = rw (take-infos_of n (off + e.size) es)

Laid-take : (m : Cells) (n off : ℕ) (es : List LogEntry) → Laid m off es → Laid m off (take n es)
Laid-take m zero off es l = tt
Laid-take m (suc n) off [] l = tt
Laid-take m (suc n) off (e ∷ es) l = (l.0, l.1, Laid-take m n (off + e.size) es l.2)

Counts-take : (n k : ℕ) (es : List LogEntry) → Counts k es → Counts k (take n es)
Counts-take zero k es c = tt
Counts-take (suc n) k [] c = tt
Counts-take (suc n) k (e ∷ es) c = (c.0, Counts-take n (suc k) es c.1)

sizes-take-le : (n : ℕ) (es : List LogEntry) → sizes (take n es) ≤ sizes es
unfolding sizes
sizes-take-le zero es = omega arith
sizes-take-le (suc n) [] = omega arith
sizes-take-le (suc n) (e ∷ es) = omega (arith, sizes-take-le n es)

-- What `chop` leaves of a log when it succeeds.
abbrev pub Chopped :
    EntryLogger → List LogEntry → ℕ → Option (EntryLogger × RcErrno) → RcErrno → Type 0
Chopped l es index result rc =
    (l' : EntryLogger) × (result ≡ some (l', rc))
    × Rep l' (take (index - l.stat.last_index - 1) es)
    × (l'.stat ≡ l.stat)
    × (l'.cfg_entry_index ≤ l.cfg_entry_index)
    × (l'.stat_size ≡ l.stat_size)

-- The log behind its first `n` records, the sentry among them, with `c` for its configuration entry.
abbrev cut : EntryLogger → List LogEntry → ℕ → ℕ → EntryLogger
cut l es n c = record l {
  cells = put_end l.cells (sizes (take n (sentry ∷ es)));
  infos = take n l.infos;
  payload_size = sizes (take n (sentry ∷ es));
  cfg_entry_index = c;
}

cut-Rep :
    (l : EntryLogger) (es : List LogEntry) (n k c : ℕ)
    → Rep l es
    → n ≡ suc k
    → k ≤ length es
    → Chain l.stat.last_index (take k es) c
    → c ≤ l.stat.last_index + k
    → Rep (cut l es n c) (take k es)
cut-Rep l es n k c r q h ch cle = rw q (record {
  infos = ap (take (suc k)) r.infos ∙ take-infos_of (suc k) 0 (sentry ∷ es);
  laid =
      Laid-put_end l.cells _ 0 (sentry ∷ take k es) (omega arith)
        (Laid-take l.cells (suc k) 0 (sentry ∷ es) r.laid);
  payload = refl;
  ends = Ends-put_end l.cells _;
  counts = Counts-take k (suc l.stat.last_index) es r.counts;
  chain = ch;
  cfg_le = omega (arith, length-take k es);
  paged = r.paged;
  room = omega (arith, r.room, r.payload, sizes-take-le (suc k) (sentry ∷ es));
})

module _ (os : Os) (l : EntryLogger) (es : List LogEntry) (index : ℕ) (sync : Bool)
    (r : Rep l es) where
  -- On a well-formed log, an index that is 0 or not in the list is refused and nothing changes.
  pub chop_out_of_range :
      in_list l.stat.last_index es index ≡ false → chop os index sync l ≡ some (l, rc_oor)
  unfolding chop
  chop_out_of_range h =
      rw (out_of_range_lem l es r index)
        (rw h (elim (Bool-cases (index == 0)) [ inl z ↦ rw z | inr p ↦ rw p ]))

  -- On a well-formed log, `chop` at an index in the list ends, reads nothing outside the log, and keeps
  -- exactly the entries before the index; the log stays well-formed and the states stay as they are.
  pub chop-Chopped :
      l.stat.last_index < index
      → index ≤ l.stat.last_index + length es
      → Chopped l es index (chop os index sync l) (if sync then os.sync 8 else rc_good)
  unfolding chop
  chop-Chopped above upto =
      let (e, g) = get_elem?-lt es (index - l.stat.last_index - 1) (omega arith) in
      let (c, q, lt, le, ch, _) =
        rewind-Chain l es r index (suc l.cfg_entry_index) l.cfg_entry_index above (omega arith)
          r.chain in
      let n : index - l.stat.last_index ≡ suc (index - l.stat.last_index - 1) = omega arith in
      let inside : in_list l.stat.last_index es index ≡ true = ground arith in
      let off_zero : (index == 0) ≡ false = ground arith in
      (
        cut l es (index - l.stat.last_index) c,
        rw (out_of_range_lem l es r index)
            (rw (inside, off_zero) (rw q (rw (info_at_lem l es r index e above g)))),
        cut-Rep l es (index - l.stat.last_index) (index - l.stat.last_index - 1) c r n (omega arith)
            (Chain-take index ch lt) (omega arith),
        refl,
        le,
        refl,
      )
