-- ===== src/Log/Room.antt =====
-- Growing the mapped files: `grow_ldbs`, `grow_stat` and the loops that call them.
use draft.Base.{
  ℕ, zero, suc, ◌+◌, ◌-◌, ◌*◌, ◌/◌, ◌≤◌, ◌<◌, ◌≡◌, refl, ◌⊎◌, inl, inr, Bool, true, false, ◌&&◌,
  Option, none, some, ltb, leb, arith, if◌then◌else◌, Bool-cases,
}

-- `rc_errno` of raft/mapped_file.hpp.
pub data RcErrno : Type 0 where
  rc_not_leader rc_conf_error rc_mmap_new_file rc_mmap_not_mapped rc_mmap_already_mapped : RcErrno
  rc_mmap_invalid_file rc_mmap_error rc_oor rc_oom rc_error rc_good : RcErrno

abbrev pub is_good : RcErrno → Bool
is_good rc_good = true
is_good _ = false

pub is_good→≡ : (rc : RcErrno) → is_good rc ≡ true → rc ≡ rc_good
is_good→≡ rc_good h = refl
is_good→≡ _ h = cc

-- What the system answers when a file is remapped to a size, and when a range is synced.
pub record Os : Type 0 where
  pub remap : ℕ → RcErrno
  pub sync : ℕ → RcErrno

abbrev pub page_size : ℕ
page_size = 4096

-- `(n + page_size - 1) & ~(page_size - 1)`
abbrev pub page_align : ℕ → ℕ
page_align n = (n + (page_size - 1)) / page_size * page_size

-- The size that `grow_ldbs` and `grow_stat` ask for: the factor is 1.25.
unfoldable pub grown : ℕ → ℕ
grown size = page_align (size * 5 / 4)

-- `ldbs_size - payload_size_ - log_end_marker_size <= size_bytes`, without a sign: where the subtraction
-- wraps the left side is larger than any size of entries.
unfoldable pub lacks_room : ℕ → ℕ → ℕ → Bool
lacks_room payload size_bytes ldbs = leb (payload + 8) ldbs && leb (ldbs - payload - 8) size_bytes

-- The loop of `append`: the size of the file when it ends, and its result.
unfoldable pub grow_until : Os → ℕ → ℕ → ℕ → ℕ → Option (ℕ × RcErrno)
unfolding lacks_room
grow_until os zero payload size_bytes ldbs = none
grow_until os (suc fuel) payload size_bytes ldbs =
    let rc = os.remap (grown ldbs) in
    let rest = grow_until os fuel payload size_bytes (grown ldbs) in
    let more = if is_good rc then rest else some (ldbs, rc) in
    if lacks_room payload size_bytes ldbs then more else some (ldbs, rc_good)

-- The loop of `copy`.
unfoldable pub grow_stat_until : Os → ℕ → ℕ → ℕ → Option (ℕ × RcErrno)
grow_stat_until os zero last_len size = none
grow_stat_until os (suc fuel) last_len size =
    let rc = os.remap (grown size) in
    let rest = grow_stat_until os fuel last_len (grown size) in
    let more = if is_good rc then rest else some (size, rc) in
    if leb 32 size && ltb (size - 32) last_len then more else some (size, rc_good)

pub grown_more : (n : ℕ) → page_size ≤ n → n < grown n
unfolding grown
grown_more n h = omega arith

-- What a loop of growth hands back: the file never shrinks; it has the room, or a remap failed.
abbrev pub Grows : Os → ℕ → ℕ → Option (ℕ × RcErrno) → Type 0
Grows os needed ldbs r =
    (size : ℕ) × (rc : RcErrno) × (r ≡ some (size, rc))
    × (ldbs ≤ size)
    × (((rc ≡ rc_good) × (needed < size))
        ⊎ ((n : ℕ) × (rc ≡ os.remap n) × (is_good (os.remap n) ≡ false)))

module _ (os : Os) (payload size_bytes : ℕ) where
  -- On a file of a page at least that holds the payload and an end marker, and with fuel for the bytes
  -- that are asked for, the loop ends: with an error of the system, or with more room than is asked for.
  -- The file never shrinks.
  pub grow_until-Grows :
      (fuel ldbs : ℕ)
      → page_size ≤ ldbs
      → payload + 8 ≤ ldbs
      → 0 < fuel
      → payload + 8 + size_bytes + 1 < ldbs + fuel
      → Grows os (payload + 8 + size_bytes) ldbs (grow_until os fuel payload size_bytes ldbs)
  unfolding grow_until
  grow_until-Grows zero ldbs p r z f = absurd (omega arith)
  grow_until-Grows (suc fuel) ldbs p r z f =
      elim (Bool-cases (lacks_room payload size_bytes ldbs)) [
        | inl lacks ↦
            let tight : ldbs ≤ payload + 8 + size_bytes = unfold lacks_room in ground arith in
            elim (Bool-cases (is_good (os.remap (grown ldbs)))) [
              | inl ok ↦
                  let (n, rc, e, le, room) =
                    grow_until-Grows fuel (grown ldbs) (omega (arith, grown_more ldbs p))
                      (omega (arith, grown_more ldbs p)) (omega arith)
                      (omega (arith, grown_more ldbs p)) in
                  (n, rc, rw (lacks, ok) e, omega (arith, grown_more ldbs p), room)
              | inr bad ↦ (
                ldbs,
                os.remap (grown ldbs),
                rw (lacks, bad),
                omega arith,
                inr (grown ldbs, refl, bad),
              )
            ]
        | inr fits ↦
            (ldbs, rc_good, rw fits, omega arith, inl (refl, unfold lacks_room in ground arith))
      ]
