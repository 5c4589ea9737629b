-- ===== src/Mmap/Place/Map.antt =====
-- What `sys_mmap` of kernel/src/syscall/memory.rs maps.
use kontsnor_os.Prelude.{
  ℕ, ◌+◌, ◌-◌, ◌*◌, ◌/◌, ◌%◌, ◌^◌, ◌≤◌, ◌<◌, ◌≡◌, refl, sym, ap, ◌∙◌, true, false, Bool-cases, inl,
  inr, Option, none, some, ltb, ◌==◌, ◌||◌, not, if◌then◌else◌, arith,
}
use Prim.Native.Nat.{bit_and}
use kontsnor_os.Prelude.Word.{is_neg, ℤ, pos, negsuc, wrapping_add64}
use kontsnor_os.Errno.{SyscallResult, into, ebadf}
use kontsnor_os.Mmap.{AddressSpace, user_end, contains, region_at}
use kontsnor_os.Mmap.Regions.{PageInfo, info, view, ValidSpace, add_region-ValidSpace}
use kontsnor_os.Mmap.Unmap.{in_range}
use kontsnor_os.Mmap.Place.{
  Placed, placed_at, refused, place, MapFile, new_region, map_placed, backing, is_minus_one,
  map_file, sys_mmap,
}
use kontsnor_os.Mmap.Place.Modes.{may_replace, IsFree, IsPlaced, place-IsPlaced}

-- The file of a call, none for an anonymous mapping.
abbrev pub file_of : (get_file_desc : ℤ → Option MapFile) → (flags : ℕ) (fd : ℤ) → Option MapFile
file_of get_file_desc flags fd =
    if not (bit_and flags 0x20 == 0) || is_minus_one fd then none else get_file_desc fd

-- The page of an address of the new mapping. /dev/zero backs no page.
abbrev pub file_page : Option MapFile → (at prot flags offset a : ℕ) → PageInfo
file_page file at prot flags offset a = record {
  inode = elim file [ none ↦ none | some f ↦ if f.is_dev_zero then none else some f.inode ];
  offset = wrapping_add64 offset (a - at);
  is_shared = not (bit_and flags 1 == 0);
  prot = prot;
  pathname = elim file [ none ↦ none | some f ↦ if f.is_dev_zero then none else f.path ];
  is_stack = false;
}

-- An error changes nothing. An address begins a range of user pages that are now those of the file; all
-- other pages are what they were, the space is valid again, and only a call that may replace mappings
-- has taken the address of one.
abbrev pub Maps :
    Option MapFile
    → (len prot flags offset : ℕ) → AddressSpace
    → SyscallResult
    → AddressSpace
    → Type 0
Maps file len prot flags offset space (negsuc e) space' = space' ≡ space
Maps file len prot flags offset space (pos at) space' =
    (at % 4096 ≡ 0)
    × (at + len ≤ user_end)
    × (space'.brk ≡ space.brk)
    × ValidSpace space'
    × ((a : ℕ)
        → view a space'.mmap_regions ≡ (
            if in_range at (at + len) a
            then some (file_page file at prot flags offset a)
            else view a space.mmap_regions))
    × (may_replace flags ≡ false → IsFree at (at + len) space.mmap_regions)

refused-Maps :
    (file : Option MapFile) (len prot flags offset : ℕ) (space : AddressSpace)
    (result : SyscallResult)
    → is_neg result ≡ true
    → Maps file len prot flags offset space result space
refused-Maps file len prot flags offset space (negsuc e) neg = refl
refused-Maps file len prot flags offset space (pos n) neg = absurd (false_true neg)
  where
    false_true : false ≡ true → ⊥
    false_true e = cc

new_info :
    (file : Option MapFile) (at len prot flags offset a : ℕ)
    → info a (new_region at len (backing file) offset prot flags)
      ≡ file_page file at prot flags offset a
new_info none at len prot flags offset a = refl
new_info (some f) at len prot flags offset a = elim (Bool-cases f.is_dev_zero) [
  | inl z ↦ rw z refl
  | inr z ↦ rw z refl
]

module _ (file : Option MapFile) (len prot flags offset : ℕ) (some_len : 0 < len)
    (pages : len % 4096 ≡ 0) (space : AddressSpace) where
  map_placed-Maps :
      (p : Placed)
      → IsPlaced len (may_replace flags) space p
      → let (result, space') = map_placed (backing file) len prot flags offset space p in
        Maps file len prot flags offset space result space'
  unfolding map_placed region_at
  map_placed-Maps (refused e) h = refused-Maps file len prot flags offset space (into e) h
  map_placed-Maps (placed_at at space') (page, low, same, valid, cleared, free) =
      let r = new_region at len (backing file) offset prot flags in
      let holds : (a : ℕ) → contains a r ≡ in_range at (at + len) a = λ a. ground (arith, low) in
      let (valid', views) =
        add_region-ValidSpace r space' (some_len, page, pages, low) valid
          (λ a c. cleared a ∙ (rw (sym (holds a) ∙ c) refl)) in
      (
        page,
        low,
        same,
        valid',
        (λ a. views a ∙ elim (Bool-cases (in_range at (at + len) a)) [
          | inl c ↦ rw (holds a ∙ c, c) (ap some (new_info file at len prot flags offset a))
          | inr c ↦ rw (holds a ∙ c, c) (cleared a ∙ (rw c refl))
        ]),
        free,
      )

-- The length in whole pages
abbrev pub whole_pages : ℕ → ℕ
whole_pages size = (size + 4095) / 4096 * 4096

map_file-Maps :
    (file : Option MapFile) (addr size prot flags offset : ℕ) (space : AddressSpace)
    → 0 < size
    → ValidSpace space
    → let (result, space') = map_file file addr size prot flags offset space in
      Maps file (whole_pages size) prot flags offset space result space'
unfolding map_file
map_file-Maps file addr size prot flags offset space some_size valid =
    elim (Bool-cases (ltb (size + 4095) (2 ^ 64))) [
      | inl l ↦
          let len = whole_pages size in
          let some_len : 0 < len = omega (arith, some_size) in
          let pages : len % 4096 ≡ 0 = omega arith in
          rw (l, map_file)
            (map_placed-Maps file len prot flags offset some_len pages space
              (place addr len flags space)
              (place-IsPlaced len some_len pages space valid addr flags))
      | inr l ↦ rw (l, map_file) refl
    ]

-- `sys_mmap` in a valid space either answers with an error and changes nothing, or answers with the
-- address of a range of whole user pages. Then each address of the range shows the page of the file, or a
-- page of no file for an anonymous mapping or /dev/zero, all other addresses show what they showed, the
-- space is valid and its break the same, and unless MAP_FIXED stands without MAP_FIXED_NOREPLACE the
-- range was free.
pub sys_mmap-Maps :
    (get_file_desc : ℤ → Option MapFile) (addr size prot flags : ℕ) (fd : ℤ) (offset : ℕ)
    (space : AddressSpace)
    → ValidSpace space
    → let (result, space') = sys_mmap get_file_desc addr size prot flags fd offset space in
      Maps (file_of get_file_desc flags fd) (whole_pages size) prot flags offset space result space'
unfolding sys_mmap
sys_mmap-Maps get_file_desc addr size prot flags fd offset space valid =
    elim (Bool-cases (size == 0)) [
      | inl z ↦ rw z refl
      | inr z ↦
          let some_size : 0 < size = ground (arith, z) in
          elim (Bool-cases (not (bit_and flags 0x20 == 0) || is_minus_one fd)) [
            | inl anon ↦
                rw (z, anon) (map_file-Maps none addr size prot flags offset space some_size valid)
            | inr anon ↦ rw (z, anon) (of_file (get_file_desc fd) some_size)
          ]
    ]
  where
    of_file :
        (file : Option MapFile)
        → 0 < size
        → let answer : SyscallResult × AddressSpace = elim file [
          | none ↦ (into ebadf, space)
          | some f ↦ map_file (some f) addr size prot flags offset space
        ] in
          Maps file (whole_pages size) prot flags offset space answer.0 answer.1
    of_file none some_size = refl
    of_file (some f) some_size =
        map_file-Maps (some f) addr size prot flags offset space some_size valid
