-- ===== src/Log/Map.antt =====
-- raft/mapped_file.hpp: a file that is mapped into memory, with what the system answers.
--
-- The file is named by its path, as the logs name theirs; `HAVE_MREMAP` is not defined. The address and
-- the bytes are not kept here: the log's records are in draft.Log.Memory.
pub mod Shape
mod Tests
use draft.Base.{
  ℕ, ◌+◌, ◌/◌, ◌*◌, ◌%◌, ◌-◌, Bool, true, false, not, ◌&&◌, Option, none, some, ◌==◌, if◌then◌else◌,
}
use draft.Log.Room.{
  RcErrno, is_good, page_align, page_size, rc_good, rc_mmap_already_mapped, rc_mmap_error,
  rc_mmap_invalid_file, rc_mmap_new_file, rc_mmap_not_mapped, rc_oom,
}

-- What `open` answers: a descriptor, no such file, or another error.
pub data Opened : Type 0 where
  fd : ℕ → Opened
  no_entry : Opened
  failed : Opened

-- What `mmap` answers.
pub data Placed : Type 0 where
  at_addr : ℕ → Placed
  no_memory : Placed
  map_failed : Placed

-- The answers of the system to one call of an operation. The answer of `fstat` is the size of the file.
pub record Kernel : Type 0 where
  pub open_file : Opened
  pub create_file : Opened
  pub fstat : Option ℕ
  pub ftruncate : ℕ → Bool
  pub mmap : ℕ → Placed
  pub munmap : Bool
  pub msync : ℕ → ℕ → Bool
  pub madvise : Bool

pub record MappedFile : Type 0 where
  pub has_name : Bool
  pub fd_ : Option ℕ
  pub size_ : ℕ
  pub length : ℕ
  pub mapped : Bool
  pub addr_ : ℕ

-- The constructor, from a path.
abbrev pub mapped_file : Bool → ℕ → ℕ → MappedFile
mapped_file named size length = record {
  has_name = named;
  fd_ = none;
  size_ = size;
  length = length;
  mapped = false;
  addr_ = 0;
}

abbrev pub no_fd : Option ℕ → Bool
no_fd none = true
no_fd (some d) = false

-- The calls of `open`: the descriptor and the size, and whether the file is new; or an error.
unfoldable pub open_or_create : Opened → Opened → MappedFile → Option (MappedFile × Bool)
open_or_create (fd d) created f = some (record f { fd_ = some d }, false)
open_or_create failed created f = some (f, false)
open_or_create no_entry (fd d) f =
    some (record f { fd_ = some d; size_ = page_align f.size_ }, true)
open_or_create no_entry _ f = none

unfoldable pub open_file_result : Kernel → Option ℕ → MappedFile → Option (MappedFile × Bool)
open_file_result k none f = open_or_create k.open_file k.create_file f
open_file_result k (some d) f = some (f, false)

-- The size of a file that has none yet: the size on disk, or `length` where that is 0. `fstat` fails
-- without a descriptor.
unfoldable pub size_of : Option ℕ → Option ℕ → MappedFile → Option MappedFile
size_of none _ f = none
size_of (some d) none f = none
size_of (some d) (some n) f =
    some (record f { size_ = if page_align n == 0 then page_align f.length else page_align n })

unfoldable pub sized : Kernel → MappedFile → Option MappedFile
sized k f = if f.size_ == 0 then size_of f.fd_ k.fstat f else some f

unfoldable pub map_placed : Placed → Bool → MappedFile → MappedFile × RcErrno
map_placed (at_addr a) created f =
    (record f { mapped = true; addr_ = a }, if created then rc_mmap_new_file else rc_good)
map_placed _ created f = (f, rc_mmap_error)

-- `map` behind its first guard and `open`.
unfoldable pub map_opened : Kernel → MappedFile → Option (MappedFile × Bool) → MappedFile × RcErrno
map_opened k f none = (f, rc_mmap_invalid_file)
map_opened k f (some (f1, created)) = elim (sized k f1) [
  | none ↦ (f1, rc_mmap_error)
  | some f2 ↦ map_placed (k.mmap f2.size_) created f2
]

unfoldable pub map_file : Kernel → MappedFile → MappedFile × RcErrno
map_file k f =
    if f.mapped
    then (f, rc_mmap_already_mapped)
    else if not f.has_name && no_fd f.fd_
    then (f, rc_mmap_invalid_file)
    else map_opened k f (open_file_result k f.fd_ f)

unfoldable pub unmap : Kernel → MappedFile → MappedFile × RcErrno
unmap k f =
    if not f.mapped
    then (f, rc_good)
    else if k.munmap
    then (record f { mapped = false }, rc_good)
    else (f, rc_mmap_error)

-- The end of `remap`.
unfoldable pub remap_placed : Placed → ℕ → MappedFile → MappedFile × RcErrno
remap_placed (at_addr a) new_size f =
    (record f { mapped = true; addr_ = a; size_ = new_size }, rc_good)
remap_placed no_memory new_size f = (f, rc_oom)
remap_placed map_failed new_size f = (f, rc_mmap_error)

-- `remap` behind its call of `unmap`.
unfoldable pub resize : Kernel → ℕ → MappedFile → MappedFile × RcErrno
resize k new_size f =
    if k.ftruncate new_size then remap_placed (k.mmap new_size) new_size f else (f, rc_mmap_error)

-- `mapped` is cleared before `unmap` is called.
unfoldable pub remap : Kernel → ℕ → MappedFile → MappedFile × RcErrno
remap k new_size f =
    if not f.mapped
    then (f, rc_mmap_not_mapped)
    else (let (f1, rc) = unmap k (record f { mapped = false }) in
        if is_good rc then resize k (page_align new_size) f1 else (f1, rc))

-- `addr & (page_size - 1)`
abbrev pub left_of : ℕ → ℕ
left_of addr = addr % page_size

unfoldable pub sync_range : Kernel → ℕ → ℕ → MappedFile → RcErrno
sync_range k addr length f =
    if not f.mapped
    then rc_mmap_not_mapped
    else if k.msync (addr - left_of addr) (length + left_of addr)
    then rc_good
    else rc_mmap_error

unfoldable pub sync_all : Kernel → MappedFile → RcErrno
sync_all k f = sync_range k f.addr_ f.size_ f

unfoldable pub advise : Kernel → MappedFile → RcErrno
advise k f =
    if not f.mapped then rc_mmap_not_mapped else if k.madvise then rc_good else rc_mmap_error
