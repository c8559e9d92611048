-- ===== src/Log/Append.antt =====
-- `append` on a well-formed log.
use native.Mathlib.Nat.{add_assoc, add-zero, zero-add}
use draft.Base.{
  ℕ, suc, ◌+◌, ◌≤◌, ◌<◌, ◌≡◌, refl, ap, sym, ◌∙◌, ◌⊎◌, inl, inr, Bool, false, Option, some, List,
  [], ◌∷◌, ◌++◌, length, take, if◌then◌else◌, arith, ==_refl, length-append, append_assoc,
  append-nil,
}
use draft.Log.Entry.{LogEntry, States, sentry}
use draft.Log.Memory.{Cells, put_entry, put_end}
use draft.Log.Room.{Os, RcErrno, rc_good, is_good, grow_until-Grows}
use draft.Log.{EntryLogger, LogEntryInfo, sizes, place, finish, append_at, append}
use draft.Log.View.{
  Rep, Open, Laid, Chain, Laid-put_entry, Laid-put_end, Ends-put_end, sizes-append, infos_of-append,
}
use draft.Log.Chains.{
  IsBatch, last_cfg, PointsBack, Counts-append, Chain-append, entry_at-middle, Chain-last_cfg,
}
use draft.Log.Lookup.{last_of, back-Open, last_entry-Open, Rep-Open}

Laid-snoc :
    (m : Cells) (off : ℕ) (es : List LogEntry) (e : LogEntry)
    → Laid m off es
    → m (off + sizes es) ≡ some e
    → 8 ≤ e.size
    → Laid m off (es ++ e ∷ [])
unfolding sizes
Laid-snoc m off [] e l h s = (rw add-zero at h, s, tt)
Laid-snoc m off (x ∷ es) e l h s =
    (l.0, l.1, Laid-snoc m (off + x.size) es e l.2 (rw (add_assoc off x.size (sizes es)) h) s)

sizes-snoc : (xs : List LogEntry) (e : LogEntry) → sizes xs + e.size ≡ sizes (xs ++ e ∷ [])
unfolding sizes
sizes-snoc xs e = omega (arith, sizes-append xs (e ∷ []))

-- One round of the loop.
abbrev placed : EntryLogger → ℕ → LogEntry → EntryLogger
placed l p e = record l {
  cells = put_entry l.cells p e;
  infos = l.infos ++ record { index = e.index; amount = p } ∷ [];
  cfg_entry_index = if e.cfg then e.index else l.cfg_entry_index;
}

placed-Open :
    (l : EntryLogger) (es : List LogEntry) (e : LogEntry)
    → Open l es
    → 8 ≤ e.size
    → Open (placed l (sizes (sentry ∷ es)) e) (es ++ e ∷ [])
placed-Open l es e o s = record {
  infos =
      ap
        (λ (is : List LogEntryInfo).
          is ++ record { index = e.index; amount = sizes (sentry ∷ es) } ∷ [])
        o.infos
      ∙ sym (infos_of-append 0 (sentry ∷ es) (e ∷ []) ∙ rw (zero-add (sizes (sentry ∷ es))));
  laid =
      Laid-snoc _ 0 (sentry ∷ es) e
        (Laid-put_entry l.cells (sizes (sentry ∷ es)) e 0 (sentry ∷ es) (omega arith) o.laid)
        (rw zero-add (unfold put_entry in rw (==_refl (sizes (sentry ∷ es))))) s;
}

-- The loop keeps the fields that it does not name.
record Same (l m : EntryLogger) : Type 0 where
  payload_size : m.payload_size ≡ l.payload_size
  ldbs_size : m.ldbs_size ≡ l.ldbs_size
  stat_size : m.stat_size ≡ l.stat_size
  stat : m.stat ≡ l.stat

place-Same :
    (pos : ℕ) (tail : LogEntry) (entries : List LogEntry) (l : EntryLogger)
    → Same l (place pos tail entries l)
unfolding place
place-Same pos tail [] l = record {
  payload_size = refl;
  ldbs_size = refl;
  stat_size = refl;
  stat = refl;
}
place-Same pos tail (e ∷ entries) l =
    let s = place-Same (pos + tail.size) e entries (placed l (pos + tail.size) e) in
    record {
      payload_size = s.payload_size;
      ldbs_size = s.ldbs_size;
      stat_size = s.stat_size;
      stat = s.stat;
    }

place-cfg :
    (pos : ℕ) (tail : LogEntry) (entries : List LogEntry) (l : EntryLogger)
    → (place pos tail entries l).cfg_entry_index ≡ last_cfg l.cfg_entry_index entries
unfolding place last_cfg
place-cfg pos tail [] l = refl
place-cfg pos tail (e ∷ entries) l =
    place-cfg (pos + tail.size) e entries (placed l (pos + tail.size) e)

place-Open :
    (n pos : ℕ) (tail : LogEntry) (entries es : List LogEntry) (l : EntryLogger)
    → Open l es
    → pos + tail.size ≡ sizes (sentry ∷ es)
    → IsBatch n entries
    → Open (place pos tail entries l) (es ++ entries)
unfolding place
place-Open n pos tail [] es l o p b = rw append-nil o
place-Open n pos tail (e ∷ entries) es l o p b = rw p (
    rw (← append_assoc es (e ∷ []) entries) (
      place-Open (suc n) (sizes (sentry ∷ es)) e entries (es ++ e ∷ [])
        (placed l (sizes (sentry ∷ es)) e) (placed-Open l es e o b.0) (sizes-snoc (sentry ∷ es) e)
        b.2))

pub sizes-last_of :
    (d : LogEntry) (es : List LogEntry)
    → sizes (take (length es) (d ∷ es)) + (last_of d es).size ≡ sizes (d ∷ es)
unfolding sizes
sizes-last_of d [] = omega arith
sizes-last_of d (e ∷ es) = omega (arith, sizes-last_of e es)

module _ (os : Os) (l : EntryLogger) (es entries : List LogEntry) (sync : Bool) (r : Rep l es)
    (b : IsBatch (suc l.stat.last_index + length es) entries)
    (p : PointsBack l.stat.last_index es entries) where
  -- The log after the loop, with `tail` the last record before it.
  written : EntryLogger
  written = place (sizes (take (length es) (sentry ∷ es))) (last_of sentry es) entries l

  written-Open : Open written (es ++ entries)
  unfolding written
  written-Open =
      place-Open _ _ (last_of sentry es) entries es l (Rep-Open l es r) (sizes-last_of sentry es) b

  written-Same : Same l written
  unfolding written
  written-Same = place-Same _ (last_of sentry es) entries l

  -- The file after `append_at`.
  closed : EntryLogger
  closed = record written {
    cells = put_end written.cells (sizes (sentry ∷ (es ++ entries)));
    payload_size = written.payload_size + sizes entries;
  }

  same_base : written.stat.last_index ≡ l.stat.last_index
  same_base = ap (λ (s : States). s.last_index) written-Same.stat

  written_cfg : written.cfg_entry_index ≡ last_cfg l.cfg_entry_index entries
  unfolding written
  written_cfg = place-cfg _ (last_of sentry es) entries l

  written-Chain :
      Chain l.stat.last_index (es ++ entries) (last_cfg l.cfg_entry_index entries)
      × (last_cfg l.cfg_entry_index entries < suc l.stat.last_index + length es + length entries)
  written-Chain =
      Chain-last_cfg l.stat.last_index es (es ++ entries) (λ i c. Chain-append entries c)
        (suc l.stat.last_index + length es) entries l.cfg_entry_index (omega arith)
        (λ k e h. entry_at-middle l.stat.last_index _ es entries k e refl h) b p
        (omega (arith, r.cfg_le)) (Chain-append entries r.chain)

  closed_payload : written.payload_size + sizes entries ≡ sizes (sentry ∷ (es ++ entries))
  closed_payload =
      omega (arith, written-Same.payload_size, r.payload, sizes-append (sentry ∷ es) entries)

  append_at-closed :
      append_at os (sizes entries) entries sync l
      ≡ some (closed, if sync then os.sync (sizes entries + 8) else rc_good)
  unfolding append_at finish closed written
  append_at-closed =
      let o = Rep-Open l es r in
      rw (back-Open l es o) (
        rw (last_entry-Open l es o) (
          rw (back-Open written (es ++ entries) written-Open) (
            rw (last_entry-Open written (es ++ entries) written-Open)
              (rw (sizes-last_of sentry (es ++ entries))))))

  closed-Rep : l.payload_size + sizes entries + 8 ≤ l.ldbs_size → Rep closed (es ++ entries)
  unfolding closed
  closed-Rep room = record {
    infos = written-Open.infos;
    laid =
        Laid-put_end written.cells _ 0 (sentry ∷ (es ++ entries)) (omega arith) written-Open.laid;
    payload = closed_payload;
    ends = rw closed_payload (Ends-put_end _ _);
    counts = rw same_base (Counts-append (suc l.stat.last_index) es entries r.counts b);
    chain = rw (same_base, written_cfg) written-Chain.0;
    cfg_le = rw (same_base, written_cfg) (omega (arith, written-Chain.1, length-append es entries));
    paged = rw written-Same.ldbs_size r.paged;
    room = rw (written-Same.ldbs_size, written-Same.payload_size) room;
  }

Rep-grow :
    (l : EntryLogger) (es : List LogEntry) (n : ℕ)
    → Rep l es
    → l.ldbs_size ≤ n
    → Rep (record l { ldbs_size = n }) es
Rep-grow l es n r h = record {
  infos = r.infos;
  laid = r.laid;
  payload = r.payload;
  ends = r.ends;
  counts = r.counts;
  chain = r.chain;
  cfg_le = r.cfg_le;
  paged = omega (arith, r.paged);
  room = omega (arith, r.room);
}

-- The entries stand behind the log, or the file could not grow and the log is what it was.
abbrev pub Appends :
    Os → EntryLogger → List LogEntry → List LogEntry → Option (EntryLogger × RcErrno) → Type 0
Appends os l es entries result =
    (l' : EntryLogger) × (rc : RcErrno) × (result ≡ some (l', rc))
    × (l'.stat ≡ l.stat)
    × ((Rep l' (es ++ entries) × (l'.cfg_entry_index ≡ last_cfg l.cfg_entry_index entries))
        ⊎ ((n : ℕ) × (rc ≡ os.remap n)
            × (is_good (os.remap n) ≡ false)
            × Rep l' es
            × (l'.cfg_entry_index ≡ l.cfg_entry_index)))

-- On a well-formed log, entries whose indices count on and whose configuration entries point back
-- are appended: the call ends, it never reads outside the log, and it leaves a well-formed log with
-- the entries behind the old ones, and with the index of the last configuration entry; or, where the
-- system refuses to grow the file, with the old entries and the old index of it.
pub append-Appends :
    (os : Os) (l : EntryLogger) (es entries : List LogEntry) (sync : Bool)
    → Rep l es
    → IsBatch (suc l.stat.last_index + length es) entries
    → PointsBack l.stat.last_index es entries
    → Appends os l es entries (append os entries sync l)
unfolding append
append-Appends os l es entries sync r b p =
    let (n, rc, e, le, out) =
      grow_until-Grows os l.payload_size (sizes entries) (suc (suc (sizes entries))) l.ldbs_size
        r.paged r.room (omega arith) (omega (arith, r.room)) in
    let g : EntryLogger = record l { ldbs_size = n } in
    let rg : Rep g es = Rep-grow l es n r le in
    elim out [
      | inl (good, room) ↦ (
        closed os g es entries sync rg b p,
        if sync then os.sync (sizes entries + 8) else rc_good,
        rw (e, good) (append_at-closed os g es entries sync rg b p),
        unfold closed in (written-Same os g es entries sync rg b p).stat,
        inl (
          closed-Rep os g es entries sync rg b p (omega (arith, room)),
          unfold closed in written_cfg os g es entries sync rg b p,
        ),
      )
      | inr (k, q, bad) ↦ (
        g,
        rc,
        (let no : is_good rc ≡ false = ap is_good q ∙ bad in rw (e, no)),
        refl,
        inr (k, q, bad, rg, refl),
      )
    ]
