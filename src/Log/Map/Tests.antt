-- ===== src/Log/Map/Tests.antt =====
-- The states file of a first boot, mapped and then made larger.
use draft.Base.{◌≡◌, refl, inl, true, some, ltb, arith}
use draft.Log.Map.{
  Kernel, MappedFile, mapped_file, fd, no_entry, at_addr, map_file, map_opened, open_file_result,
  open_or_create, sized, size_of, map_placed, remap,
}
use draft.Log.Map.Shape.{Answers, Remapped, map_file-Answers, remap-Remapped}

abbrev small_kernel : Kernel
small_kernel = record {
  open_file = no_entry;
  create_file = fd 3;
  fstat = some 0;
  ftruncate = λ n. ltb n 8193;
  mmap = λ n. at_addr 65536;
  munmap = true;
  msync = λ a n. true;
  madvise = true;
}

abbrev new_file : MappedFile
new_file = mapped_file true 0 32

map_file-Answers_example : Answers (map_file small_kernel new_file)
map_file-Answers_example = map_file-Answers small_kernel new_file (omega arith, inl refl) refl

abbrev one_page : MappedFile
one_page = record {
  has_name = true;
  fd_ = some 3;
  size_ = 4096;
  length = 32;
  mapped = true;
  addr_ = 65536;
}

new_file_mapped : (map_file small_kernel new_file).0 ≡ one_page
unfolding map_file map_opened open_file_result open_or_create sized size_of map_placed
new_file_mapped = refl

remap-Remapped_example : Remapped one_page 5120 (remap small_kernel 5120 one_page)
remap-Remapped_example =
    remap-Remapped small_kernel one_page 5120 (refl, (refl, omega arith)) (omega arith)
