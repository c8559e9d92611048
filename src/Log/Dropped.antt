-- ===== src/Log/Dropped.antt =====
-- What `drop` promises, and the parts of a well-formed log that it leaves.
use draft.Base.{
  ℕ, zero, suc, ◌+◌, ◌-◌, ◌≤◌, ◌≡◌, refl, sym, subst, ◌∙◌, ◌⊎◌, Option, some, List, [], ◌∷◌, Str,
  length, get_elem?, drop, ◌==◌, if◌then◌else◌, none, arith,
}
use draft.Log.Entry.{LogEntry, States, sentry, str}
use draft.Log.Room.{Os, RcErrno}
use draft.Log.{EntryLogger}
use draft.Log.View.{Rep, Laid, Ends, Chain, stop, entry_at}
use draft.Log.Rewind.{Back}
use draft.Log.Copy.{Refused, SameEntries, config_or}

-- The text of the configuration entry at an index of the list, none at 0 and where no entry is.
abbrev pub config_text : ℕ → List LogEntry → ℕ → Str
config_text base es c =
    if c == 0 then [] else elim (entry_at base es c) [ none ↦ [] | some e ↦ str e ]

-- The last configuration entry up to the index: the first one there on the way back from the last one of
-- the log.
abbrev pub LastCfg : EntryLogger → List LogEntry → ℕ → ℕ → Type 0
LastCfg l es index c = Back l.stat.last_index es (λ i. i ≤ index) l.cfg_entry_index c

-- The log behind `drop`: without the entries up to the index, and with the index and the term of the last
-- of them in the states, and the text of the last configuration entry among them, or the old text where
-- none is left there; or a file could not grow or be saved, and the states
-- are the old ones.
abbrev pub Dropped : Os → EntryLogger → List LogEntry → ℕ → Option (EntryLogger × RcErrno) → Type 0
Dropped os l es index result =
    (l' : EntryLogger) × (rc : RcErrno) × (result ≡ some (l', rc))
    × ((Rep l' (drop (index - l.stat.last_index) es)
          × (l'.stat.last_index ≡ index)
          × ((e : LogEntry) × (get_elem? es (index - l.stat.last_index - 1) ≡ some e)
              × (l'.stat.last_term ≡ e.term))
          × ((c : ℕ) × (c ≤ index)
              × LastCfg l es index c
              × (l'.stat.last_config
                  ≡ config_or l.stat.last_config (config_text l.stat.last_index es c))))
        ⊎ (Refused os rc × (l'.stat ≡ l.stat)))

pub Rep-SameEntries :
    (l l' : EntryLogger) (es : List LogEntry)
    → SameEntries l l'
    → Rep (record l { stat = l'.stat; stat_size = l'.stat_size }) es
    → Rep l' es
Rep-SameEntries l l' es s r = record {
  infos = s.infos ∙ r.infos;
  laid = subst (λ m. Laid m 0 (sentry ∷ es)) (sym s.cells) r.laid;
  payload = s.payload_size ∙ r.payload;
  ends =
      subst (λ n. Ends l'.cells n) (sym s.payload_size)
        (subst (λ m. Ends m l.payload_size) (sym s.cells) r.ends);
  counts = r.counts;
  chain = subst (Chain l'.stat.last_index es) (sym s.cfg_entry_index) r.chain;
  cfg_le = omega (arith, s.cfg_entry_index, r.cfg_le);
  paged = omega (arith, s.ldbs_size, r.paged);
  room = omega (arith, s.ldbs_size, s.payload_size, r.room);
}

pub Rep-cfg :
    (l : EntryLogger) (es : List LogEntry) (c : ℕ)
    → Rep l es
    → Chain l.stat.last_index es c
    → c ≤ l.stat.last_index + length es
    → Rep (record l { cfg_entry_index = c }) es
Rep-cfg l es c r ch le = record {
  infos = r.infos;
  laid = r.laid;
  payload = r.payload;
  ends = r.ends;
  counts = r.counts;
  chain = ch;
  cfg_le = le;
  paged = r.paged;
  room = r.room;
}

-- An empty log may start at any base that is not below its configuration index.
pub Rep-restart :
    (l : EntryLogger) (stat : States) (stat_size : ℕ)
    → Rep l []
    → l.cfg_entry_index ≤ stat.last_index
    → Rep (record l { stat = stat; stat_size = stat_size }) []
Rep-restart l stat stat_size r le = record {
  infos = r.infos;
  laid = r.laid;
  payload = r.payload;
  ends = r.ends;
  counts = tt;
  chain = stop le;
  cfg_le = omega (arith, le);
  paged = r.paged;
  room = r.room;
}

pub drop-all : (k : ℕ) (es : List LogEntry) → length es ≤ k → drop k es ≡ []
drop-all zero [] h = refl
drop-all zero (e ∷ es) h = absurd (omega arith)
drop-all (suc k) [] h = refl
drop-all (suc k) (e ∷ es) h = drop-all k es (omega arith)
