-- ===== src/Mmap.antt =====
-- The mapped regions of a task: `AddressSpace` of kernel/src/process/task.rs and the calls of
-- kernel/src/syscall/memory.rs that map, unmap, protect and move them. What the calls do to page
-- tables, to the page cache and to the registry of shared mappings is left out; a call that drops the
-- lock of the address space between its steps is taken as one step, and the calling task is there.
pub mod Regions
pub mod Unmap
pub mod Protect
pub mod Place
pub mod Remap
pub mod Covered
pub mod Calls
pub mod Guard
pub mod Run
pub mod Tests
use kontsnor_os.Prelude.{
  ℕ, zero, suc, ◌+◌, ◌-◌, ◌*◌, ◌/◌, ◌%◌, ◌^◌, min, max, Bool, true, false, List, [], ◌∷◌, ◌++◌,
  Option, none, some, ltb, leb, ◌==◌, ◌&&◌, ◌||◌, not, if◌then◌else◌, length,
}
use kontsnor_os.Prelude.Word.{ℤ, pos, negsuc, wrapping_add64}
use kontsnor_os.Errno.{SyscallResult, Errno, into, einval, ebadf, eexist, enomem, efault}

-- `inode` is the number that an inode goes by here.
pub record MappedRegion : Type 0 where
  pub start : ℕ
  pub len : ℕ
  pub inode : Option ℕ
  pub offset : ℕ
  pub is_shared : Bool
  pub prot : ℕ
  pub pathname : Option (List ℕ)
  pub is_stack : Bool

pub record AddressSpace : Type 0 where
  pub brk : ℕ
  pub mmap_bump : ℕ
  pub mmap_regions : List MappedRegion

-- The end of the addresses of a user, and where the ranges begin that the search finds.
abbrev pub user_end : ℕ
user_end = 0x00007fffffffffff

abbrev pub mmap_base : ℕ
mmap_base = 0x0000500000000000

abbrev pub end_of : MappedRegion → ℕ
end_of r = wrapping_add64 r.start r.len

-- `length.checked_add(4095)`, and the bits below a page cleared
abbrev pub align_up : ℕ → Option ℕ
align_up size = if ltb (size + 4095) (2 ^ 64) then some ((size + 4095) / 4096 * 4096) else none

-- The part of a region before an address, and that from an address on.
abbrev pub left_part : MappedRegion → ℕ → MappedRegion
left_part r at = record r { len = at - r.start }

abbrev pub right_part : MappedRegion → ℕ → MappedRegion
right_part r at = record r {
  start = at;
  len = end_of r - at;
  offset = wrapping_add64 r.offset (at - r.start);
}

-- The loop of `unmap_range`, which ends at a region that the range cuts in two.
pub unmap_regions : (unmap_start unmap_end : ℕ) → List MappedRegion → List MappedRegion
unmap_regions s e [] = []
unmap_regions s e (r ∷ rs) =
    let rest = unmap_regions s e rs in
    if leb (end_of r) s || leb e r.start
    then r ∷ rest
    else if leb s r.start && leb (end_of r) e
    then rest
    else if ltb r.start s && ltb e (end_of r)
    then left_part r s ∷ right_part r e ∷ rs
    else if ltb r.start s
    then left_part r s ∷ rest
    else right_part r e ∷ rest

pub unmap_range : (unmap_start unmap_end : ℕ) → AddressSpace → AddressSpace
unmap_range s e space =
    if leb e s then space else record space { mmap_regions = unmap_regions s e space.mmap_regions }

abbrev pub add_region : MappedRegion → AddressSpace → AddressSpace
add_region r space = record space { mmap_regions = space.mmap_regions ++ (r ∷ []) }

-- The new bump address after `munmap`: behind the last region of the area for mappings.
pub highest_remaining : List MappedRegion → ℕ
highest_remaining [] = mmap_base
highest_remaining (r ∷ rs) =
    let rest = highest_remaining rs in
    if leb mmap_base r.start && ltb r.start 0x0000700000000000 then max (end_of r) rest else rest

abbrev pub lower_bump : (addr unmap_end : ℕ) → AddressSpace → AddressSpace
lower_bump addr unmap_end space =
    if leb space.mmap_bump unmap_end && ltb addr 0x0000700000000000
    then record space { mmap_bump = max mmap_base (highest_remaining space.mmap_regions) }
    else space

-- A range of pages that begins at `addr`: its length and whether it may be asked for.
abbrev pub range_ok : (addr aligned_len : ℕ) → Bool
range_ok addr aligned_len = ltb (addr + aligned_len) (2 ^ 64) && leb (addr + aligned_len) user_end

pub sys_munmap : (addr size : ℕ) → AddressSpace → SyscallResult × AddressSpace
sys_munmap addr size space =
    let answer : SyscallResult × AddressSpace = elim (align_up size) [
      | none ↦ (into einval, space)
      | some aligned_len ↦
          if range_ok addr aligned_len
          then (
            pos 0,
            lower_bump addr (addr + aligned_len) (unmap_range addr (addr + aligned_len) space),
          )
          else (into einval, space)
    ] in
    if (size == 0) || not (addr % 4096 == 0) then (into einval, space) else answer

-- The test for the region of an address
abbrev pub contains : (addr : ℕ) → MappedRegion → Bool
contains addr r = leb r.start addr && ltb addr (end_of r)

-- `iter().find` with this test
pub region_at : (addr : ℕ) → List MappedRegion → Option MappedRegion
region_at addr [] = none
region_at addr (r ∷ rs) = let rest = region_at addr rs in if contains addr r then some r else rest

abbrev pub is_covered : (addr : ℕ) → List MappedRegion → Bool
is_covered addr [] = false
is_covered addr (r ∷ rs) = contains addr r || is_covered addr rs

-- The loop over the pages of a range
pub all_covered : (pages addr : ℕ) → List MappedRegion → Bool
all_covered zero addr regions = true
all_covered (suc n) addr regions = is_covered addr regions && all_covered n (addr + 4096) regions

-- The part of a region within a range, with another protection
abbrev pub middle_part : MappedRegion → (from to new_prot : ℕ) → MappedRegion
middle_part r s e new_prot =
    let from = max r.start s in
    record r {
      start = from;
      len = min (end_of r) e - from;
      offset = wrapping_add64 r.offset (from - r.start);
      prot = new_prot;
    }

-- The loop that splits the regions of a range and sets the protection of their parts within it
pub protect_regions : (from to new_prot : ℕ) → List MappedRegion → List MappedRegion
protect_regions s e new_prot [] = []
protect_regions s e new_prot (r ∷ rs) =
    let rest = protect_regions s e new_prot rs in
    let middle = middle_part r s e new_prot in
    let right = if ltb e (end_of r) then right_part r e ∷ rest else rest in
    if leb (end_of r) s || leb e r.start
    then r ∷ rest
    else if ltb r.start s
    then left_part r s ∷ middle ∷ right
    else middle ∷ right

pub sys_mprotect : (addr size prot : ℕ) → AddressSpace → SyscallResult × AddressSpace
sys_mprotect addr size prot space =
    let answer : SyscallResult × AddressSpace = elim (align_up size) [
      | none ↦ (into einval, space)
      | some aligned_len ↦
          if not (range_ok addr aligned_len)
          then (into einval, space)
          else if all_covered (aligned_len / 4096) addr space.mmap_regions
          then (
            pos 0,
            record space {
              mmap_regions = protect_regions addr (addr + aligned_len) prot space.mmap_regions;
            },
          )
          else (into enomem, space)
    ] in
    if (size == 0) || not (addr % 4096 == 0) then (into einval, space) else answer
