-- ===== src/Mmap/Tests.antt =====
-- Concrete address spaces and calls on them (kernel/src/syscall/memory.rs).
use kontsnor_os.Prelude.{
  true, false, List, ◌++◌, ◌≤◌, ◌<◌, ◌+◌, ℕ, ◌≡◌, ◌∙◌, ◌==◌, refl, [], ◌∷◌, Option, none, some,
  arith, if◌then◌else◌,
}
use kontsnor_os.Prelude.Word.{ℤ, pos, negsuc}
use kontsnor_os.Mmap.{
  user_end, contains, MappedRegion, AddressSpace, region_at, sys_munmap, sys_mprotect,
}
use kontsnor_os.Mmap.Regions.{info, view, Valid, ValidSpace, view-out}
use kontsnor_os.Mmap.Calls.{Unmaps, sys_munmap-Unmaps}
use kontsnor_os.Mmap.Guard.{Protects, sys_mprotect-Protects}
use kontsnor_os.Mmap.Place.{MapFile, sys_mmap, search_free, rounds}
use kontsnor_os.Mmap.Place.Free.{Valid-sound}
use kontsnor_os.Mmap.Place.First.{IsFirst, search-IsFirst}
use kontsnor_os.Mmap.Place.Map.{file_of, whole_pages, Maps, sys_mmap-Maps}
use kontsnor_os.Mmap.Remap.{sys_mremap}
use kontsnor_os.Mmap.Remap.Limit.{sys_mremap_far}
use kontsnor_os.Mmap.Remap.Inplace.{Extends, sys_mremap-Extends}
use kontsnor_os.Mmap.Remap.Move.{sys_mremap-clash}
use kontsnor_os.Mmap.Run.{mmap, munmap, mprotect, run, run-ValidSpace}

-- A private mapping of a file, or of none
abbrev mapping : (start len : ℕ) → Option ℕ → MappedRegion
mapping start len inode = record {
  start = start;
  len = len;
  inode = inode;
  offset = 0;
  is_shared = false;
  prot = 3;
  pathname = none;
  is_stack = false;
}

abbrev low_mapping : MappedRegion
low_mapping = mapping 0x10000000 0x1000 none

abbrev next_mapping : MappedRegion
next_mapping = mapping 0x10001000 0x2000 (some 7)

-- A mapping where the search begins, as a hint may have put it there
abbrev base_mapping : MappedRegion
base_mapping = mapping 0x500000000000 0x3000 none

abbrev three : AddressSpace
three = record {
  brk = 0x600000;
  mmap_bump = 0x500000000000;
  mmap_regions = low_mapping ∷ next_mapping ∷ base_mapping ∷ [];
}

three-ValidSpace : ValidSpace three
unfolding region_at
three-ValidSpace = (
  (
    (omega arith, refl, refl, omega arith),
    (λ a c.
        view-out a next_mapping (base_mapping ∷ []) (ground (arith, c))
        ∙ view-out a base_mapping [] (ground (arith, c))),
    (
      (omega arith, refl, refl, omega arith),
      (λ a c. view-out a base_mapping [] (ground (arith, c))),
      ((omega arith, refl, refl, omega arith), (λ a c. refl), tt),
    ),
  ),
  refl,
  omega arith,
)

abbrev one_file : ℤ → Option MapFile
one_file (pos n) =
    if n == 3 then some (record { inode = 9; is_dev_zero = false; path = none }) else none
one_file (negsuc n) = none

sys_munmap-Unmaps_example :
    let (result, space') = sys_munmap 0x10000000 0x2000 three in
    Unmaps 0x10000000 0x2000 three result space'
sys_munmap-Unmaps_example = sys_munmap-Unmaps 0x10000000 0x2000 three three-ValidSpace

sys_mprotect-Protects_example :
    let (result, space') = sys_mprotect 0x10000000 0x2000 1 three in
    Protects 0x10000000 0x2000 1 three result space'
sys_mprotect-Protects_example = sys_mprotect-Protects 0x10000000 0x2000 1 three three-ValidSpace

sys_mmap-Maps_example :
    let (result, space') = sys_mmap one_file 0 5000 3 2 (pos 3) 0 three in
    Maps (file_of one_file 2 (pos 3)) (whole_pages 5000) 3 2 0 three result space'
sys_mmap-Maps_example = sys_mmap-Maps one_file 0 5000 3 2 (pos 3) 0 three three-ValidSpace

search-IsFirst_example :
    IsFirst three.mmap_bump 0x2000 three (search_free (rounds three) three.mmap_bump 0x2000 three)
search-IsFirst_example =
    search-IsFirst 0x2000 three (Valid-sound three.mmap_regions three-ValidSpace.0) (omega arith)
      refl

run-ValidSpace_example : ValidSpace (
    run one_file
      (mmap 0 5000 3 2 (pos 3) 0 ∷ munmap 0x10000000 1 ∷ mprotect 0x10001000 0x1000 0 ∷ [])
      three)
run-ValidSpace_example =
    run-ValidSpace one_file
      (mmap 0 5000 3 2 (pos 3) 0 ∷ munmap 0x10000000 1 ∷ mprotect 0x10001000 0x1000 0 ∷ []) three
      three-ValidSpace

sys_mremap-Extends_example :
    let (result, space') = sys_mremap 0x10001000 0x2000 0x3000 3 0x20000000 three in
    Extends 0x10001000 (whole_pages 0x3000) next_mapping three result space'
sys_mremap-Extends_example =
    sys_mremap-Extends 0x10001000 0x2000 0x3000 3 0x20000000 three next_mapping three-ValidSpace
      refl (omega arith) (omega arith) (omega arith) refl refl

base_view : view 0x500000000000 three.mmap_regions ≡ some (info 0x500000000000 base_mapping)
unfolding region_at
base_view = refl

sys_mremap-clash_example :
    let (result, space') = sys_mremap 0x10000000 0x1000 0x2000 1 0 three in
    (result ≡ pos 0x500000000000)
    × ((before : List MappedRegion) × (m : MappedRegion) × (space'.mmap_regions
          ≡ before ++ (m ∷ []))
        × (contains 0x500000000000 m ≡ true)
        × (view 0x500000000000 before ≡ some (info 0x500000000000 base_mapping)))
    × ¬ Valid space'.mmap_regions
sys_mremap-clash_example =
    sys_mremap-clash 0x10000000 0x1000 0x2000 1 0 three low_mapping three-ValidSpace refl
      (omega arith) (omega arith) (omega arith) (omega arith) (refl, refl, refl) refl
      (info 0x500000000000 base_mapping) base_view refl

sys_mremap_far_example :
    let (result, space') = sys_mremap 0x500000000000 0x3000 0x400000000000 0 0 three in
    (result ≡ pos 0x500000000000)
    × ((a : ℕ)
        → user_end ≤ a
        → a < 0x500000000000 + whole_pages 0x400000000000
        → view a space'.mmap_regions ≡ some (info a base_mapping))
    × ¬ Valid space'.mmap_regions
sys_mremap_far_example =
    sys_mremap_far 0x500000000000 0x3000 0x400000000000 0 0 three base_mapping three-ValidSpace refl
      (omega arith) (omega arith) (omega arith) (omega arith) refl refl
