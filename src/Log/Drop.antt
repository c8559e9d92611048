-- ===== src/Log/Drop.antt =====
-- `drop` on a well-formed log.
use draft.Base.{
  ℕ, suc, ◌+◌, ◌-◌, ◌≤◌, ◌<◌, ◌≡◌, refl, ap, sym, subst, ◌∙◌, inl, inr, Bool, true, false, Option,
  some, List, [], Str, length, get_elem?, take, drop, leb, ◌==◌, if◌then◌else◌, none, arith,
  Bool-cases,
}
use draft.Log.Entry.{LogEntry, States, sentry, make_states, str}
use draft.Log.Room.{Os, RcErrno, rc_good, is_good, page_size}
use draft.Log.{
  EntryLogger, lookup, copy_states, cfg_text, drop_all, drop_some, drop_upto, bytes_moved, ◌>>=◌,
}
use draft.Log.View.{Rep, Chain, stop, get_elem?-lt}
use draft.Log.Lookup.{
  in_list, out_of_range_lem, lookup-list, lookup-entry_at, back-Open, Rep-Open, last_of,
  last_of-index_pos,
}
use draft.Log.Rewind.{Chain-drop, last_cfg_upto-Chain}
use draft.Log.Chop.{chop-Chopped}
use draft.Log.Copy.{Copies, Refused, copy_states-Copies, config_or}
use draft.Log.Shift.{shifted, shift_down-shifted, shifted-Rep}
use draft.Log.Dropped.{
  config_text, LastCfg, Dropped, Rep-SameEntries, Rep-cfg, Rep-restart, drop-all,
}

module _ (os : Os) (l : EntryLogger) (es : List LogEntry) (r : Rep l es)
    (paged : page_size ≤ l.stat_size) (index : ℕ) (sync : Bool) (above : l.stat.last_index < index)
    (upto : index ≤ l.stat.last_index + length es) where
  -- What `drop` leaves of the index of the configuration entry.
  kept_cfg : ℕ
  kept_cfg = if leb l.cfg_entry_index index then 0 else l.cfg_entry_index

  kept_cfg-Chain : Chain l.stat.last_index es kept_cfg × (kept_cfg ≤ l.stat.last_index + length es)
  unfolding kept_cfg
  kept_cfg-Chain = elim (Bool-cases (leb l.cfg_entry_index index)) [
    | inl le ↦ rw le (stop (omega arith), omega arith)
    | inr gt ↦ rw gt (r.chain, r.cfg_le)
  ]

  kept_cfg-Chain-drop : Chain index (drop (index - l.stat.last_index) es) kept_cfg
  kept_cfg-Chain-drop = Chain-drop index (omega (arith, above)) kept_cfg-Chain.0

  opened : EntryLogger
  opened = record l { cfg_entry_index = kept_cfg }

  opened-Rep : Rep opened es
  unfolding opened
  opened-Rep = Rep-cfg l es kept_cfg r kept_cfg-Chain.0 kept_cfg-Chain.1

  -- The states are copied to a log `m` that has the entries that stay.
  copied-Dropped :
      (m : EntryLogger) (text : Str) (e : LogEntry) (c : ℕ) (copy : Option (EntryLogger × RcErrno))
      → get_elem? es (index - l.stat.last_index - 1) ≡ some e
      → c ≤ index
      → LastCfg l es index c
      → text ≡ config_text l.stat.last_index es c
      → m.stat ≡ l.stat
      → ((stat : States) (size : ℕ)
          → stat.last_index ≡ index
          → Rep (record m { stat = stat; stat_size = size }) (drop (index - l.stat.last_index) es))
      → Copies os m text index e.term copy
      → Dropped os l es index copy
  copied-Dropped m text e c copy h le ch is st rep (l3, rc, q, same, inl (i, t, config)) = (
    l3,
    rc,
    q,
    inl (
      Rep-SameEntries m l3 (drop (index - l.stat.last_index) es) same (rep l3.stat l3.stat_size i),
      i,
      (e, h, t),
      (
        c,
        le,
        ch,
        config
            ∙ ap (λ (x : States). config_or x.last_config text) st
            ∙ ap (config_or l.stat.last_config) is,
      ),
    ),
  )
  copied-Dropped m text e c copy h le ch is st rep (l3, rc, q, same, inr (bad, stay)) =
      (l3, rc, q, inr (bad, stay ∙ st))

  synced-Refused :
      (synced : Bool)
      → is_good (if synced then os.sync 8 else rc_good) ≡ false
      → Refused os (if synced then os.sync 8 else rc_good)
  synced-Refused true bad = (bad, (8, inr refl))
  synced-Refused false bad = absurd (cc)

  ended-Dropped :
      (copy : Option (EntryLogger × RcErrno)) (end : EntryLogger → RcErrno)
      → Dropped os l es index copy
      → Dropped os l es index
          (do (l3, rc) ← copy; if is_good rc then some (l3, end l3) else some (l3, rc))
  ended-Dropped copy end (l3, rc, q, inr (why, st)) =
      (l3, rc, rw q (rw (why.0) refl), inr (why, st))
  ended-Dropped copy end (l3, rc, q, inl h) = elim (Bool-cases (is_good rc)) [
    | inl good ↦ (l3, end l3, rw q (rw good refl), inl h)
    | inr bad ↦ (l3, rc, rw q (rw bad refl), inl h)
  ]

  drop_all-Dropped :
      (text : Str) (e : LogEntry) (c : ℕ)
      → index ≡ l.stat.last_index + length es
      → get_elem? es (index - l.stat.last_index - 1) ≡ some e
      → c ≤ index
      → LastCfg l es index c
      → text ≡ config_text l.stat.last_index es c
      → Dropped os l es index (drop_all os index e.term text sync opened)
  unfolding drop_all opened
  drop_all-Dropped text e c last h le ch is =
      let (l2, q, rep, st, cle, size) =
        chop-Chopped os opened es (l.stat.last_index + 1) sync opened-Rep (omega arith)
          (omega (arith, above)) in
      let none_left : l.stat.last_index + 1 - l.stat.last_index - 1 ≡ 0 = omega arith in
      let rep' : Rep l2 [] = subst (λ n. Rep l2 (take n es)) none_left rep in
      let small : l2.cfg_entry_index ≤ index = omega (arith, cle, kept_cfg-Chain.1) in
      let rc = if sync then os.sync 8 else rc_good in
      elim (Bool-cases (is_good rc)) [
        | inr bad ↦ (l2, rc, rw q (rw bad refl), inr (synced-Refused sync bad, st))
        | inl good ↦ rw q (
            rw good (
              copied-Dropped l2 text e c _ h le ch is st
                (λ stat stat_size at.
                  subst (Rep (record l2 { stat = stat; stat_size = stat_size }))
                    (sym (drop-all (index - l.stat.last_index) es (omega arith)))
                    (Rep-restart l2 stat stat_size rep' (omega (arith, at, small))))
                (copy_states-Copies os l2 text index e.term (omega (arith, size, paged)))))
      ]

  drop_some-Dropped :
      (text : Str) (e : LogEntry) (c : ℕ)
      → index < l.stat.last_index + length es
      → get_elem? es (index - l.stat.last_index - 1) ≡ some e
      → c ≤ index
      → LastCfg l es index c
      → text ≡ config_text l.stat.last_index es c
      → Dropped os l es index (drop_some os index e.term text sync opened)
  unfolding drop_some opened
  drop_some-Dropped text e c more h le ch is =
      let k = index - l.stat.last_index in
      let m = shifted opened es k in
      rw
        (shift_down-shifted opened es k opened-Rep (omega (arith, above)) index
          (omega (arith, above)))
        (ended-Dropped (copy_states os (make_states text) index e.term m)
          (λ l3. if sync then os.sync (bytes_moved l3 + 8) else rc_good)
          (copied-Dropped m text e c _ h le ch is refl
            (λ stat size at.
              shifted-Rep opened es k opened-Rep (omega (arith, above)) index kept_cfg size stat
                (omega (arith, above)) at kept_cfg-Chain-drop kept_cfg-Chain.1)
            (copy_states-Copies os m text index e.term paged)))

  -- On a well-formed log whose states file has a page at least, `drop` at an index in the list ends and
  -- reads nothing outside the log. It leaves a well-formed log of exactly the entries behind the index,
  -- whose states have the index, the term of the entry there, and the text of the last configuration
  -- entry up to the index, which is the first one there on the way back over the configuration entries,
  -- or the old text where that way leaves the log first or the text is empty; or the system refuses
  -- to grow or to save a file, and the call fails with its error and the old states.
  pub drop_upto-Dropped : Dropped os l es index (drop_upto os index sync l)
  unfolding drop_upto opened kept_cfg
  drop_upto-Dropped =
      let (e, h) = get_elem?-lt es (index - l.stat.last_index - 1) (omega (arith, above, upto)) in
      let (c, q, le, _, _, ch) =
        last_cfg_upto-Chain l es r index (suc l.cfg_entry_index) l.cfg_entry_index above
          (omega arith) r.chain in
      let is : cfg_text l c ≡ config_text l.stat.last_index es c =
        ap (λ (o : Option LogEntry). if c == 0 then [] else elim o [ none ↦ [] | some x ↦ str x ])
          (lookup-entry_at l es r c) in
      let inside : in_list l.stat.last_index es index ≡ true = ground (arith, above, upto) in
      let off_zero : (index == 0) ≡ false = ground (arith, above) in
      let found : lookup opened index ≡ some e = lookup-list opened es opened-Rep index above ∙ h in
      let last : (last_of sentry es).index ≡ l.stat.last_index + length es =
        last_of-index_pos l.stat.last_index es r.counts (omega (arith, above, upto)) in
      rw (out_of_range_lem l es r index) (
        rw (inside, off_zero)
          (rw q (
            rw found (
              rw (back-Open opened es (Rep-Open opened es opened-Rep))
                (elim (Bool-cases (index == (last_of sentry es).index)) [
                  | inl eq ↦
                      rw eq (drop_all-Dropped (cfg_text l c) e c (ground (arith, last)) h le ch is)
                  | inr ne ↦
                      rw ne (
                        drop_some-Dropped (cfg_text l c) e c (ground (arith, last, upto)) h le ch
                          is)
                ])))))
