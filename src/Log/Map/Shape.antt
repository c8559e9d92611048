-- ===== src/Log/Map/Shape.antt =====
-- The sizes of a mapped file, and its states behind each call.
use draft.Base.{
  ℕ, ◌+◌, ◌-◌, ◌%◌, ◌≤◌, ◌<◌, ◌≡◌, refl, subst, sym, ◌⊎◌, inl, inr, Bool, true, false, not, ◌&&◌,
  Option, none, some, ◌==◌, arith, if◌then◌else◌, Bool-cases,
}
use draft.Log.Room.{
  RcErrno, is_good, page_align, page_size, rc_good, rc_mmap_new_file, rc_mmap_not_mapped,
  rc_mmap_error, rc_mmap_invalid_file, rc_mmap_already_mapped, rc_oom,
}
use draft.Log.Map.{
  Kernel, MappedFile, Opened, fd, no_entry, failed, Placed, at_addr, no_memory, map_failed,
  open_file_result, sized, map_placed, map_file, open_or_create, size_of, map_opened, remap_placed,
  unmap, resize, remap, sync_range, left_of, no_fd,
}

-- A whole number of pages, one at least.
abbrev pub IsPaged : ℕ → Type 0
IsPaged n = (n % page_size ≡ 0) × (page_size ≤ n)

abbrev pub IsUsable : MappedFile → Type 0
IsUsable f = (f.mapped ≡ true) × IsPaged f.size_

-- `map` and `remap` hand back a good result for a usable file only.
abbrev pub is_mapped_result : RcErrno → Bool
is_mapped_result rc_good = true
is_mapped_result rc_mmap_new_file = true
is_mapped_result _ = false

page_align-Paged : (n : ℕ) → page_align n % page_size ≡ 0
page_align-Paged n = omega arith

page_align-IsPaged : (n : ℕ) → 0 < n → IsPaged (page_align n)
page_align-IsPaged n h = (omega arith, omega arith)

page_align_zero : (n : ℕ) → (page_align n == 0) ≡ false → IsPaged (page_align n)
page_align_zero n h = (omega arith, ground arith)

-- The size that `map` starts from: none, as the logs have it, or whole pages.
abbrev pub StartsPaged : MappedFile → Type 0
StartsPaged f = (0 < f.length) × ((f.size_ ≡ 0) ⊎ IsPaged f.size_)

abbrev OpenedWell : Option (MappedFile × Bool) → Type 0
OpenedWell none = Unit
OpenedWell (some (g, created)) = StartsPaged g × (g.mapped ≡ false)

page_align_idle : (n : ℕ) → (n ≡ 0) ⊎ IsPaged n → (page_align n ≡ 0) ⊎ IsPaged (page_align n)
page_align_idle n (inl z) = inl (omega (arith, z))
page_align_idle n (inr p) = inr (omega (arith, p.0, p.1), omega (arith, p.0, p.1))

open_or_create-StartsPaged :
    (o c : Opened) (f : MappedFile)
    → StartsPaged f
    → f.mapped ≡ false
    → OpenedWell (open_or_create o c f)
unfolding open_or_create
open_or_create-StartsPaged (fd d) c f s m = (s, m)
open_or_create-StartsPaged failed c f s m = (s, m)
open_or_create-StartsPaged no_entry (fd d) f s m = ((s.0, page_align_idle f.size_ s.1), m)
open_or_create-StartsPaged no_entry no_entry f s m = tt
open_or_create-StartsPaged no_entry failed f s m = tt

open_file_result-StartsPaged :
    (k : Kernel) (d : Option ℕ) (f : MappedFile)
    → StartsPaged f
    → f.mapped ≡ false
    → OpenedWell (open_file_result k d f)
unfolding open_file_result
open_file_result-StartsPaged k none f s m =
    open_or_create-StartsPaged k.open_file k.create_file f s m
open_file_result-StartsPaged k (some d) f s m = (s, m)

abbrev SizedWell : Option MappedFile → Type 0
SizedWell none = Unit
SizedWell (some g) = IsPaged g.size_ × (g.mapped ≡ false)

size_of-IsPaged :
    (d n : Option ℕ) (f : MappedFile) → 0 < f.length → f.mapped ≡ false → SizedWell (size_of d n f)
unfolding size_of
size_of-IsPaged none n f h m = tt
size_of-IsPaged (some d) none f h m = tt
size_of-IsPaged (some d) (some n) f h m = elim (Bool-cases (page_align n == 0)) [
  | inl e ↦ rw e (page_align-IsPaged f.length h, m)
  | inr e ↦ rw e (page_align_zero n e, m)
]

sized-IsPaged :
    (k : Kernel) (f : MappedFile) → StartsPaged f → f.mapped ≡ false → SizedWell (sized k f)
unfolding sized
sized-IsPaged k f s m = elim (Bool-cases (f.size_ == 0)) [
  | inr n ↦ rw n (elim s.1 [ inl z ↦ absurd (ground arith) | inr p ↦ (p, m) ])
  | inl z ↦ rw z (size_of-IsPaged f.fd_ k.fstat f s.0 m)
]

-- The file is usable and the result says so, or it is not mapped and the result is an error.
abbrev pub Answers : MappedFile × RcErrno → Type 0
Answers (g, rc) =
    (IsUsable g × (is_mapped_result rc ≡ true))
    ⊎ ((g.mapped ≡ false) × (is_mapped_result rc ≡ false))

map_placed-Answers :
    (p : Placed) (created : Bool) (f : MappedFile)
    → IsPaged f.size_
    → f.mapped ≡ false
    → Answers (map_placed p created f)
unfolding map_placed
map_placed-Answers (at_addr a) true f s m = inl ((refl, s), refl)
map_placed-Answers (at_addr a) false f s m = inl ((refl, s), refl)
map_placed-Answers no_memory created f s m = inr (m, refl)
map_placed-Answers map_failed created f s m = inr (m, refl)

map_sized-Answers :
    (k : Kernel) (created : Bool) (f : MappedFile) (g : Option MappedFile)
    → f.mapped ≡ false
    → SizedWell g
    → Answers
        (elim g [ none ↦ (f, rc_mmap_error) | some f2 ↦ map_placed (k.mmap f2.size_) created f2 ])
map_sized-Answers k created f none m w = inr (m, refl)
map_sized-Answers k created f (some f2) m w =
    map_placed-Answers (k.mmap f2.size_) created f2 w.0 w.1

map_opened-Answers :
    (k : Kernel) (f : MappedFile) (o : Option (MappedFile × Bool))
    → f.mapped ≡ false
    → OpenedWell o
    → Answers (map_opened k f o)
unfolding map_opened
map_opened-Answers k f none m w = inr (m, refl)
map_opened-Answers k f (some (f1, created)) m w =
    map_sized-Answers k created f1 (sized k f1) w.1 (sized-IsPaged k f1 w.0 w.1)

-- `map` of a file that is not mapped, whose size is unknown or whole pages: it is mapped with whole
-- pages, one at least, and the result is RC_GOOD or RC_MMAP_NEW_FILE; or it stays unmapped and the
-- result is an error.
pub map_file-Answers :
    (k : Kernel) (f : MappedFile) → StartsPaged f → f.mapped ≡ false → Answers (map_file k f)
unfolding map_file
map_file-Answers k f s m =
    subst
      (λ b. Answers (
        if b
        then (f, rc_mmap_already_mapped)
        else if not f.has_name && no_fd f.fd_
        then (f, rc_mmap_invalid_file)
        else map_opened k f (open_file_result k f.fd_ f)))
      (sym m)
      (elim (Bool-cases (not f.has_name && no_fd f.fd_)) [
        | inl h ↦ rw h (inr (m, refl))
        | inr h ↦ rw h (
            map_opened-Answers k f (open_file_result k f.fd_ f) m
              (open_file_result-StartsPaged k f.fd_ f s m))
      ])

-- A file behind `remap` to `n` bytes: usable, with the pages that `n` bytes need and no more; or not mapped,
-- of the old size, and each further call fails with RC_MMAP_NOT_MAPPED.
abbrev pub Remapped : MappedFile → ℕ → MappedFile × RcErrno → Type 0
Remapped f n (g, rc) =
    ((rc ≡ rc_good)
      × IsUsable g
      × (g.size_ ≡ page_align n)
      × (n ≤ g.size_)
      × (g.size_ < n + page_size))
    ⊎ ((is_good rc ≡ false)
        × (g.size_ ≡ f.size_)
        × ((k : Kernel) → (m : ℕ) → remap k m g ≡ (g, rc_mmap_not_mapped))
        × ((k : Kernel) → (a m : ℕ) → sync_range k a m g ≡ rc_mmap_not_mapped))

unmapped-Remapped :
    (f g : MappedFile) (n : ℕ) (rc : RcErrno)
    → g.mapped ≡ false
    → g.size_ ≡ f.size_
    → is_good rc ≡ false
    → Remapped f n (g, rc)
unfolding remap sync_range
unmapped-Remapped f g n rc m s e = inr (e, s, (λ k n. rw m refl), (λ k a n. rw m refl))

remap_placed-Remapped :
    (p : Placed) (f g : MappedFile) (n : ℕ)
    → 0 < n
    → g.mapped ≡ false
    → g.size_ ≡ f.size_
    → Remapped f n (remap_placed p (page_align n) g)
unfolding remap_placed
remap_placed-Remapped (at_addr a) f g n h m s =
    inl (refl, (refl, page_align-IsPaged n h), refl, omega arith, omega arith)
remap_placed-Remapped no_memory f g n h m s = unmapped-Remapped f g n rc_oom m s refl
remap_placed-Remapped map_failed f g n h m s = unmapped-Remapped f g n rc_mmap_error m s refl

-- `remap` of a usable file to `n` bytes, `n` not 0: the file is usable and has the pages that `n` bytes
-- need and no more; or the call fails, the size is the old one, and each later `remap` and `sync_range`
-- fails with RC_MMAP_NOT_MAPPED.
pub remap-Remapped :
    (k : Kernel) (f : MappedFile) (n : ℕ) → IsUsable f → 0 < n → Remapped f n (remap k n f)
unfolding remap unmap resize
remap-Remapped k f n u h =
    let unmapped : MappedFile = record f { mapped = false } in
    rw u.0 (elim (Bool-cases (k.ftruncate (page_align n))) [
      | inr e ↦ rw e (unmapped-Remapped f unmapped n rc_mmap_error refl refl refl)
      | inl e ↦ rw e (remap_placed-Remapped (k.mmap (page_align n)) f unmapped n h refl refl)
    ])

-- The bytes that are synced: whole from the start of a page, and all that are asked for.
pub sync_range_pages :
    (addr length : ℕ)
    → ((addr - left_of addr) % page_size ≡ 0)
      × (addr - left_of addr ≤ addr)
      × (addr + length ≡ (addr - left_of addr) + (length + left_of addr))
sync_range_pages addr length = (omega arith, omega arith, omega arith)
