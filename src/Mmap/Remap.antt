-- ===== src/Mmap/Remap.antt =====
-- Resizing and moving a mapping: `sys_mremap` of kernel/src/syscall/memory.rs.
pub mod Grow
pub mod Inplace
pub mod Move
pub mod Limit
use Prim.Native.Nat.{bit_and}
use kontsnor_os.Prelude.{
  ℕ, ◌+◌, ◌-◌, ◌%◌, ◌^◌, Bool, true, false, List, [], ◌∷◌, Option, none, some, ltb, leb, ◌==◌, ◌&&◌,
  ◌||◌, not, if◌then◌else◌,
}
use kontsnor_os.Prelude.Word.{ℤ, pos, negsuc, as_i64, wrapping_add64}
use kontsnor_os.Errno.{SyscallResult, into, einval, enomem, efault}
use kontsnor_os.Mmap.{
  MappedRegion, AddressSpace, user_end, end_of, align_up, add_region, sys_munmap,
}

-- The test for the region that holds the whole old range
abbrev pub covers_old : (old_address old_len : ℕ) → MappedRegion → Bool
covers_old old_address old_len r =
    leb r.start old_address && leb (wrapping_add64 old_address old_len) (end_of r)

-- `can_grow_inplace`
abbrev pub can_grow_inplace : (old_address old_len new_len : ℕ) → List MappedRegion → Bool
can_grow_inplace old_address old_len new_len [] = true
can_grow_inplace old_address old_len new_len (r ∷ rs) =
    let free =
      leb (end_of r) (wrapping_add64 old_address old_len)
      || leb (wrapping_add64 old_address new_len) r.start in
    (covers_old old_address old_len r || free) && can_grow_inplace old_address old_len new_len rs

-- The region found, as the loop finds it
abbrev pub covering : (old_address old_len : ℕ) → List MappedRegion → Option MappedRegion
covering old_address old_len [] = none
covering old_address old_len (r ∷ rs) =
    let rest = covering old_address old_len rs in
    if covers_old old_address old_len r then some r else rest

-- The region after the growth
abbrev pub grown : (old_address new_len : ℕ) → MappedRegion → MappedRegion
grown old_address new_len r =
    let new_region_len = wrapping_add64 (old_address - r.start) new_len in
    if ltb (end_of r) (wrapping_add64 r.start new_region_len)
    then record r { len = new_region_len }
    else r

abbrev pub grow_regions : (old_address old_len new_len : ℕ) → List MappedRegion → List MappedRegion
grow_regions old_address old_len new_len [] = []
grow_regions old_address old_len new_len (r ∷ rs) =
    let rest = grow_regions old_address old_len new_len rs in
    if covers_old old_address old_len r then grown old_address new_len r ∷ rs else r ∷ rest

-- The growth in place, of the region found
abbrev pub grow_inplace :
    (old_address old_len new_len : ℕ) → MappedRegion → AddressSpace → AddressSpace
grow_inplace old_address old_len new_len r space =
    let r' = grown old_address new_len r in
    let bump =
      if ltb (end_of r) (end_of r') && (end_of r == space.mmap_bump)
      then end_of r'
      else space.mmap_bump in
    record space {
      mmap_bump = bump;
      mmap_regions = grow_regions old_address old_len new_len space.mmap_regions;
    }

-- The region at its new address
abbrev pub moved_region : (target_addr old_address new_len : ℕ) → MappedRegion → MappedRegion
moved_region target_addr old_address new_len r = record r {
  start = target_addr;
  len = new_len;
  offset = wrapping_add64 r.offset (old_address - r.start);
}

-- From the search for the old region on
pub move_to :
    (target_addr old_address old_len new_len : ℕ) → AddressSpace → SyscallResult × AddressSpace
move_to target_addr old_address old_len new_len space =
    elim (covering old_address old_len space.mmap_regions) [
      | none ↦ (into efault, space)
      | some r ↦ (
        as_i64 target_addr,
        add_region (moved_region target_addr old_address new_len r)
            (sys_munmap old_address old_len space).1,
      )
    ]

-- MREMAP_FIXED
pub move_fixed :
    (new_address old_address old_len new_len : ℕ) → AddressSpace → SyscallResult × AddressSpace
move_fixed new_address old_address old_len new_len space =
    let apart =
      leb (wrapping_add64 new_address new_len) old_address
      || leb (wrapping_add64 old_address old_len) new_address in
    let answer : SyscallResult × AddressSpace =
      let (result, space') = sys_munmap new_address new_len space in
      elim result [
        | negsuc e ↦ (negsuc e, space')
        | pos n ↦ move_to new_address old_address old_len new_len space'
      ] in
    if not (new_address % 4096 == 0) || not apart then (into einval, space) else answer

-- To the bump address
pub move_to_bump : (old_address old_len new_len : ℕ) → AddressSpace → SyscallResult × AddressSpace
move_to_bump old_address old_len new_len space =
    let next_bump = space.mmap_bump + new_len in
    if not (ltb next_bump (2 ^ 64)) || ltb user_end next_bump
    then (into enomem, space)
    else move_to space.mmap_bump old_address old_len new_len
        (record space { mmap_bump = next_bump })

pub move_mapping :
    (old_address old_len new_len flags new_address : ℕ)
    → AddressSpace
    → SyscallResult × AddressSpace
move_mapping old_address old_len new_len flags new_address space =
    if bit_and flags 1 == 0
    then (into enomem, space)
    else if not (bit_and flags 2 == 0)
    then move_fixed new_address old_address old_len new_len space
    else move_to_bump old_address old_len new_len space

-- The growth, in place or with a move
pub grow :
    (old_address old_len new_len flags new_address : ℕ)
    → AddressSpace
    → SyscallResult × AddressSpace
grow old_address old_len new_len flags new_address space =
    let moved = move_mapping old_address old_len new_len flags new_address space in
    let inplace : SyscallResult × AddressSpace =
      elim (covering old_address old_len space.mmap_regions) [
        | none ↦ moved
        | some r ↦ (as_i64 old_address, grow_inplace old_address old_len new_len r space)
      ] in
    if can_grow_inplace old_address old_len new_len space.mmap_regions then inplace else moved

pub shrink : (old_address old_len new_len : ℕ) → AddressSpace → SyscallResult × AddressSpace
shrink old_address old_len new_len space =
    let (result, space') =
      sys_munmap (wrapping_add64 old_address new_len) (old_len - new_len) space in
    elim result [ negsuc e ↦ (negsuc e, space') | pos n ↦ (as_i64 old_address, space') ]

pub resize :
    (old_address old_len new_len flags new_address : ℕ)
    → AddressSpace
    → SyscallResult × AddressSpace
resize old_address old_len new_len flags new_address space =
    if (old_len == 0) || (new_len == 0)
    then (into einval, space)
    else if ltb new_len old_len
    then shrink old_address old_len new_len space
    else if ltb old_len new_len
    then grow old_address old_len new_len flags new_address space
    else (as_i64 old_address, space)

pub sys_mremap :
    (old_address old_size new_size flags new_address : ℕ)
    → AddressSpace
    → SyscallResult × AddressSpace
sys_mremap old_address old_size new_size flags new_address space =
    let of_old : Option ℕ → SyscallResult × AddressSpace = λ aligned_old. elim aligned_old [
      | none ↦ (into einval, space)
      | some old_len ↦ elim (align_up new_size) [
        | none ↦ (into einval, space)
        | some new_len ↦ resize old_address old_len new_len flags new_address space
      ]
    ] in
    if not (old_address % 4096 == 0) then (into einval, space) else of_old (align_up old_size)
