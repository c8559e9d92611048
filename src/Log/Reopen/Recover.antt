-- ===== src/Log/Reopen/Recover.antt =====
-- What `init` makes of the files of a log.
use draft.Base.{
  ℕ, zero, suc, ◌+◌, ◌≤◌, ◌<◌, ◌≡◌, refl, sym, ap, subst, ◌∙◌, Bool, true, false, ◌⊎◌, inl, inr,
  Option, some, List, [], ◌∷◌, ◌++◌, append_assoc, append-nil, length, ◌==◌, if◌then◌else◌, arith,
}
use native.Mathlib.Nat.{add_assoc, add-zero, zero-add}
use draft.Log.Entry.{LogEntry, sentry}
use draft.Log.Memory.{Cells, put_entry}
use draft.Log.Room.{Os, RcErrno, rc_good, rc_mmap_new_file, page_size}
use draft.Log.{EntryLogger, sizes, append}
use draft.Log.View.{Rep, Laid, Ends, infos_of, stop}
use draft.Log.Chains.{last_cfg, IsBatch, PointsBack}
use draft.Log.Append.{append-Appends}
use draft.Log.Reopen.{Files, read_infos, blank, no_states, init, init_stat}

-- The logger behind the records of `es`, read from `l.payload_size` on.
abbrev read_upto : EntryLogger → List LogEntry → EntryLogger
read_upto l es = record l {
  infos = l.infos ++ infos_of l.payload_size es;
  payload_size = l.payload_size + sizes es;
  cfg_entry_index = last_cfg l.cfg_entry_index es;
}

abbrev read_one : EntryLogger → LogEntry → EntryLogger
read_one l e = record l {
  infos = l.infos ++ record { index = e.index; amount = l.payload_size } ∷ [];
  payload_size = l.payload_size + e.size;
  cfg_entry_index = if e.cfg then e.index else l.cfg_entry_index;
}

read_upto-nil : (l : EntryLogger) → read_upto l [] ≡ l
unfolding sizes last_cfg
read_upto-nil l = rw (append-nil, add-zero) refl

read_upto-cons :
    (l : EntryLogger) (e : LogEntry) (es : List LogEntry)
    → read_upto (read_one l e) es ≡ read_upto l (e ∷ es)
unfolding sizes last_cfg
read_upto-cons l e es =
    rw
      (
        append_assoc l.infos (record { index = e.index; amount = l.payload_size } ∷ [])
            (infos_of (l.payload_size + e.size) es),
        add_assoc l.payload_size e.size (sizes es),
      )
      refl

pub sized_on : (n : ℕ) → 8 ≤ n → (n == 0) ≡ false
sized_on n h = ground arith

pub sizes-cons :
    (off : ℕ) (e : LogEntry) (es : List LogEntry) → off + sizes (e ∷ es) ≡ off + e.size + sizes es
unfolding sizes
sizes-cons off e es = omega arith

-- The loop ends at the end marker with the index table of the records before it.
read_infos-Laid :
    (fuel : ℕ) (l : EntryLogger) (es : List LogEntry)
    → length es < fuel
    → Laid l.cells l.payload_size es
    → Ends l.cells (l.payload_size + sizes es)
    → read_infos fuel l.payload_size l ≡ some (read_upto l es)
unfolding read_infos
read_infos-Laid zero l es h laid ends = absurd (omega arith)
read_infos-Laid (suc fuel) l [] h laid (e, at, z) =
    let here : l.cells l.payload_size ≡ some e = unfold sizes in (rw add-zero at at) in
    let zeroed : (e.size == 0) ≡ true = ground (arith, z) in
    rw here (rw zeroed (ap some (sym (read_upto-nil l))))
read_infos-Laid (suc fuel) l (e ∷ es) h (at, size, laid) ends = rw at (
    rw (sized_on e.size size) (
      read_infos-Laid fuel (read_one l e) es (omega arith) laid
        (subst (Ends l.cells) (sizes-cons l.payload_size e es) ends)
      ∙ ap some (read_upto-cons l e es)))

pub Laid-length : (m : Cells) (off : ℕ) (es : List LogEntry) → Laid m off es → length es ≤ sizes es
unfolding sizes
Laid-length m off [] l = omega arith
Laid-length m off (e ∷ es) (at, size, l) = omega (arith, Laid-length m (off + e.size) es l)

-- What a logger leaves on disk.
abbrev pub saved : EntryLogger → Files
saved l = record {
  ldbs_rc = rc_good;
  ldbs_cells = l.cells;
  ldbs_size = l.ldbs_size;
  stat_rc = rc_good;
  stat = l.stat;
  stat_size = l.stat_size;
}

-- Reading the files of a well-formed log, whose index of the configuration entry is that of the last
-- one in the list, gives the logger back: the same index table, payload and states. The loop ends and
-- reads nothing behind the end marker.
pub init-saved :
    (l : EntryLogger) (es : List LogEntry)
    → Rep l es
    → l.cfg_entry_index ≡ last_cfg 0 es
    → init (saved l) ≡ some (l, rc_good)
unfolding init init_stat last_cfg
init-saved l es r c =
    let opened : EntryLogger = record blank { cells = l.cells } in
    let ends : Ends l.cells (0 + sizes (sentry ∷ es)) =
      rw zero-add (subst (Ends l.cells) r.payload r.ends) in
    let short : length (sentry ∷ es) < suc l.ldbs_size =
      omega (arith, Laid-length l.cells 0 (sentry ∷ es) r.laid, r.payload, r.room) in
    rw (read_infos-Laid (suc l.ldbs_size) opened (sentry ∷ es) short r.laid ends)
      (rw (← r.payload, ← c, ← r.infos, zero-add) refl)

-- On the first boot `init` makes a well-formed log without entries, with index 0 and term 0 in its
-- states. The new file is of a page at least, and zeros stand behind the place of the sentry.
pub init-Rep :
    (f : Files)
    → f.ldbs_rc ≡ rc_mmap_new_file
    → f.stat_rc ≡ rc_mmap_new_file
    → page_size ≤ f.ldbs_size
    → Ends f.ldbs_cells 40
    → (l : EntryLogger) × (init f ≡ some (l, rc_good)) × Rep l [] × (l.stat ≡ no_states)
init-Rep f new new_stat paged (e, at, z) =
    let m = put_entry f.ldbs_cells 0 sentry in
    let opened : EntryLogger = record blank { cells = m } in
    let sentry_laid : Laid m 0 (sentry ∷ []) = unfold put_entry in (refl, omega arith, tt) in
    let at' : m 40 ≡ some e = unfold put_entry in ground (arith, at) in
    let read : read_infos (suc f.ldbs_size) 0 opened ≡ some (read_upto opened (sentry ∷ [])) =
      read_infos-Laid (suc f.ldbs_size) opened (sentry ∷ []) (omega (arith, paged)) sentry_laid
        (unfold sizes in (e, at', z)) in
    let l : EntryLogger = record (read_upto opened (sentry ∷ [])) {
      ldbs_size = f.ldbs_size;
      stat_size = f.stat_size;
    } in
    (
      l,
      unfold init in unfold init_stat in rw (new, new_stat) (rw read refl),
      record {
        infos = refl;
        laid = sentry_laid;
        payload = unfold sizes in refl;
        ends = unfold sizes in (e, at', z);
        counts = tt;
        chain = stop {i = last_cfg 0 (sentry ∷ [])} (unfold last_cfg in omega arith);
        cfg_le = unfold last_cfg in omega arith;
        paged = paged;
        room = unfold sizes in omega (arith, paged);
      },
      refl,
    )

last_cfg-append :
    (c : ℕ) (xs ys : List LogEntry) → last_cfg c (xs ++ ys) ≡ last_cfg (last_cfg c xs) ys
unfolding last_cfg
last_cfg-append c [] ys = refl
last_cfg-append c (e ∷ xs) ys = last_cfg-append (if e.cfg then e.index else c) xs ys

-- What is left when the program ends after an `append` and `init` reads the files again.
abbrev pub Durable : List LogEntry → List LogEntry → Option (EntryLogger × RcErrno) → Type 0
Durable es entries result =
    (l : EntryLogger) × (rc : RcErrno) × (result ≡ some (l, rc))
    × (init (saved l) ≡ some (l, rc_good))
    × (Rep l (es ++ entries) ⊎ Rep l es)

-- On a well-formed log, whose index of the configuration entry is that of the last one in the list,
-- `append` of entries whose indices count on and whose configuration entries point back ends, and
-- `init` of the files that it leaves gives the same logger: a well-formed log of the old entries with the
-- new ones behind them, or of the old ones.
pub init-append :
    (os : Os) (l : EntryLogger) (es entries : List LogEntry) (sync : Bool)
    → Rep l es
    → l.cfg_entry_index ≡ last_cfg 0 es
    → IsBatch (suc l.stat.last_index + length es) entries
    → PointsBack l.stat.last_index es entries
    → Durable es entries (append os entries sync l)
init-append os l es entries sync r c b p =
    let (l', rc, q, st, out) = append-Appends os l es entries sync r b p in
    elim out [
      | inl (rep, cfg) ↦ (
        l',
        rc,
        q,
        init-saved l' (es ++ entries) rep
            (cfg ∙ ap (λ n. last_cfg n entries) c ∙ sym (last_cfg-append 0 es entries)),
        inl rep,
      )
      | inr (n, e, bad, rep, cfg) ↦ (l', rc, q, init-saved l' es rep (cfg ∙ c), inr rep)
    ]
