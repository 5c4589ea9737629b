-- ===== src/Mmap/Place.antt =====
-- Finding room for a mapping and adding it: `sys_mmap` of kernel/src/syscall/memory.rs.
pub mod Free
pub mod First
pub mod Modes
pub mod Map
use Prim.Native.Nat.{bit_and}
use kontsnor_os.Prelude.{
  ℕ, zero, suc, ◌+◌, ◌-◌, ◌*◌, ◌/◌, ◌%◌, ◌^◌, min, max, Bool, true, false, List, [], ◌∷◌, ◌++◌,
  Option, none, some, ltb, leb, ◌==◌, ◌&&◌, ◌||◌, not, if◌then◌else◌, length,
}
use kontsnor_os.Prelude.Word.{ℤ, pos, negsuc, wrapping_add64}
use kontsnor_os.Errno.{SyscallResult, Errno, into, einval, ebadf, eexist, enomem}
use kontsnor_os.Mmap.{
  MappedRegion, AddressSpace, user_end, end_of, align_up, unmap_range, add_region,
}

-- The test for a region in the way of a range
abbrev pub overlaps : (addr end_addr : ℕ) → MappedRegion → Bool
overlaps addr end_addr r = ltb addr (min (r.start + r.len) (2 ^ 64 - 1)) && ltb r.start end_addr

abbrev pub any_overlap : (addr end_addr : ℕ) → List MappedRegion → Bool
any_overlap addr end_addr [] = false
any_overlap addr end_addr (r ∷ rs) = overlaps addr end_addr r || any_overlap addr end_addr rs

-- The largest end of the regions in the way; 0 says that there is none, the end of such a region
-- being larger.
pub last_overlap : (addr end_addr : ℕ) → List MappedRegion → ℕ
last_overlap addr end_addr [] = 0
last_overlap addr end_addr (r ∷ rs) =
    let rest = last_overlap addr end_addr rs in
    if overlaps addr end_addr r then max (min (r.start + r.len) (2 ^ 64 - 1)) rest else rest

-- The end of the addresses that the search offers.
abbrev pub search_end : ℕ
search_end = 0x00007fff00000000

-- What the search for a free range ends with; `out_of_rounds` is no case of the source.
pub data Search : Type 0 where
  found : ℕ → Search
  no_room : Search
  out_of_rounds : Search

-- The loop over candidates, from the bump address on.
pub search_free : (fuel candidate aligned_len : ℕ) → AddressSpace → Search
search_free zero candidate aligned_len space = out_of_rounds
search_free (suc fuel) candidate aligned_len space =
    let candidate_end = candidate + aligned_len in
    let in_the_way =
      if ltb candidate space.brk
      then space.brk
      else last_overlap candidate candidate_end space.mmap_regions in
    let rest = search_free fuel (wrapping_add64 in_the_way 4095 / 4096 * 4096) aligned_len space in
    if not (ltb candidate_end (2 ^ 64))
    then no_room
    else if ltb search_end candidate_end
    then no_room
    else if in_the_way == 0
    then found candidate
    else rest

-- Each round passes the break or a region for good.
abbrev pub rounds : AddressSpace → ℕ
rounds space = length space.mmap_regions + 2

-- What `mmap` needs to know of a file: its inode's number, whether it is /dev/zero, and its path.
pub record MapFile : Type 0 where
  pub inode : ℕ
  pub is_dev_zero : Bool
  pub path : Option (List ℕ)

-- The three ways to find the address: the new address space, or an error.
pub data Placed : Type 0 where
  placed_at : (addr : ℕ) → AddressSpace → Placed
  refused : Errno → Placed

abbrev pub raise_bump : ℕ → AddressSpace → AddressSpace
raise_bump end_addr space =
    if ltb space.mmap_bump end_addr then record space { mmap_bump = end_addr } else space

-- The checks of an address that must be taken as it is
abbrev pub fixed_ok : (addr aligned_len : ℕ) → Bool
fixed_ok addr aligned_len =
    ((addr % 4096 == 0) && not (addr == 0))
    && (ltb (addr + aligned_len) (2 ^ 64) && leb (addr + aligned_len) user_end)

-- MAP_FIXED_NOREPLACE
pub place_noreplace : (addr aligned_len : ℕ) → AddressSpace → Placed
place_noreplace addr aligned_len space =
    if not (fixed_ok addr aligned_len)
    then refused einval
    else if ltb addr space.brk || any_overlap addr (addr + aligned_len) space.mmap_regions
    then refused eexist
    else placed_at addr (raise_bump (addr + aligned_len) space)

-- MAP_FIXED
pub place_fixed : (addr aligned_len : ℕ) → AddressSpace → Placed
place_fixed addr aligned_len space =
    if not (fixed_ok addr aligned_len)
    then refused einval
    else placed_at addr
        (unmap_range addr (addr + aligned_len) (raise_bump (addr + aligned_len) space))

abbrev pub hint_ok : (addr aligned_len : ℕ) → AddressSpace → Bool
hint_ok addr aligned_len space =
    let end_addr = min (addr + aligned_len) (2 ^ 64 - 1) in
    (not (addr == 0) && (addr % 4096 == 0))
    && (leb end_addr user_end
        && not (ltb addr space.brk || any_overlap addr end_addr space.mmap_regions))

-- What the search has found becomes the mapping.
pub place_found : (aligned_len : ℕ) → AddressSpace → Search → Placed
place_found aligned_len space (found candidate) =
    placed_at candidate (record space { mmap_bump = candidate + aligned_len })
place_found aligned_len space no_room = refused enomem
place_found aligned_len space out_of_rounds = refused enomem

-- The address is a hint.
pub place_free : (addr aligned_len : ℕ) → AddressSpace → Placed
place_free addr aligned_len space =
    let searched =
      place_found aligned_len space
        (search_free (rounds space) space.mmap_bump aligned_len space) in
    if hint_ok addr aligned_len space then placed_at addr space else searched

pub place : (addr aligned_len flags : ℕ) → AddressSpace → Placed
place addr aligned_len flags space =
    if not (bit_and flags 0x100000 == 0)
    then place_noreplace addr aligned_len space
    else if not (bit_and flags 0x10 == 0)
    then place_fixed addr aligned_len space
    else place_free addr aligned_len space

-- The region that `mmap` adds
abbrev pub new_region : (start len : ℕ) → Option MapFile → (offset prot flags : ℕ) → MappedRegion
new_region start len file offset prot flags = record {
  start = start;
  len = len;
  inode = elim file [ none ↦ none | some f ↦ some f.inode ];
  offset = offset;
  is_shared = not (bit_and flags 1 == 0);
  prot = prot;
  pathname = elim file [ none ↦ none | some f ↦ f.path ];
  is_stack = false;
}

-- The end of `sys_mmap`, for an aligned length
pub map_placed :
    Option MapFile
    → (aligned_len prot flags offset : ℕ) → AddressSpace
    → Placed
    → SyscallResult × AddressSpace
map_placed file aligned_len prot flags offset space (refused e) = (into e, space)
map_placed file aligned_len prot flags offset space (placed_at at space') =
    (pos at, add_region (new_region at aligned_len file offset prot flags) space')

-- The file that stays, /dev/zero being mapped as no file.
abbrev pub backing : Option MapFile → Option MapFile
backing none = none
backing (some f) = if f.is_dev_zero then none else some f

abbrev pub is_minus_one : ℤ → Bool
is_minus_one (negsuc zero) = true
is_minus_one _ = false

-- `sys_mmap`, once the file is known
pub map_file :
    Option MapFile → (addr size prot flags offset : ℕ) → AddressSpace → SyscallResult × AddressSpace
map_file file addr size prot flags offset space = elim (align_up size) [
  | none ↦ (into einval, space)
  | some aligned_len ↦
      map_placed (backing file) aligned_len prot flags offset space
        (place addr aligned_len flags space)
]

-- `prot` and `flags` are the bits of an `i32`, and `offset` those of an `i64`. The task's files are an
-- argument.
pub sys_mmap :
    (get_file_desc : ℤ → Option MapFile)
    → (addr size prot flags : ℕ) (fd : ℤ) (offset : ℕ) → AddressSpace
    → SyscallResult × AddressSpace
sys_mmap get_file_desc addr size prot flags fd offset space =
    let is_anon = not (bit_and flags 0x20 == 0) || is_minus_one fd in
    let of_file : SyscallResult × AddressSpace = elim (get_file_desc fd) [
      | none ↦ (into ebadf, space)
      | some f ↦ map_file (some f) addr size prot flags offset space
    ] in
    if size == 0
    then (into einval, space)
    else if is_anon
    then map_file none addr size prot flags offset space
    else of_file
