-- ===== src/Mmap/Guard.antt =====
-- What `sys_mprotect` of kernel/src/syscall/memory.rs does to the pages of a space.
use kontsnor_os.Prelude.{
  ℕ, ◌+◌, ◌*◌, ◌/◌, ◌%◌, ◌^◌, ◌<◌, ◌≡◌, refl, sym, ◌∙◌, true, false, Bool-cases, inl, inr, none,
  some, ltb, ◌==◌, ◌||◌, not, if◌then◌else◌, arith,
}
use mathlib.Core.Path.{subst}
use kontsnor_os.Prelude.Word.{pos, negsuc}
use kontsnor_os.Errno.{SyscallResult, into, einval, enomem}
use kontsnor_os.Mmap.{AddressSpace, range_ok, all_covered, sys_mprotect, protect_regions}
use kontsnor_os.Mmap.Regions.{view, bind, ValidSpace}
use kontsnor_os.Mmap.Place.Free.{Valid-sound}
use kontsnor_os.Mmap.Covered.{all_covered-true, all_covered-false}
use kontsnor_os.Mmap.Unmap.{in_range}
use kontsnor_os.Mmap.Protect.{reprotect, protect_regions-view, protect_regions-Valid}
use kontsnor_os.Mmap.Place.Map.{whole_pages}
use kontsnor_os.Mmap.Calls.{allowed}

-- What `mprotect` does: it asks for a range whose every address is mapped, and changes the protection
-- there; else it changes nothing.
abbrev pub Protects : (addr size prot : ℕ) → AddressSpace → SyscallResult → AddressSpace → Type 0
Protects addr size prot space (pos n) space' =
    (n ≡ 0)
    × (allowed addr size ≡ true)
    × ((a : ℕ)
        → in_range addr (addr + whole_pages size) a ≡ true
        → ¬ view a space.mmap_regions ≡ none)
    × (space'.brk ≡ space.brk)
    × ValidSpace space'
    × ((a : ℕ)
        → view a space'.mmap_regions
          ≡ bind (view a space.mmap_regions)
              (λ i. some (reprotect addr (addr + whole_pages size) prot a i)))
Protects addr size prot space (negsuc e) space' =
    (space' ≡ space)
    × (negsuc e ≡ (if allowed addr size then into enomem else into einval))
    × (allowed addr size ≡ true
        → (a : ℕ) × (in_range addr (addr + whole_pages size) a ≡ true)
          × (view a space.mmap_regions ≡ none))

sys_mprotect-allowed :
    (addr size prot : ℕ) (space : AddressSpace)
    → allowed addr size ≡ true
    → sys_mprotect addr size prot space ≡ (
        if all_covered (whole_pages size / 4096) addr space.mmap_regions
        then (
          pos 0,
          record space {
            mmap_regions = protect_regions addr (addr + whole_pages size) prot space.mmap_regions;
          },
        )
        else (into enomem, space))
unfolding sys_mprotect
sys_mprotect-allowed addr size prot space ok =
    let z : (size == 0) || not (addr % 4096 == 0) ≡ false = ground (arith, ok) in
    let l : ltb (size + 4095) (2 ^ 64) ≡ true = ground (arith, ok) in
    let r : not (range_ok addr (whole_pages size)) ≡ false = ground (arith, ok) in
    rw (z, l, r, sys_mprotect) refl

sys_mprotect-refused :
    (addr size prot : ℕ) (space : AddressSpace)
    → allowed addr size ≡ false
    → sys_mprotect addr size prot space ≡ (into einval, space)
unfolding sys_mprotect
sys_mprotect-refused addr size prot space nay =
    elim (Bool-cases ((size == 0) || not (addr % 4096 == 0))) [
      | inl z ↦ rw z refl
      | inr z ↦ elim (Bool-cases (ltb (size + 4095) (2 ^ 64))) [
        | inr l ↦ rw (z, l, sys_mprotect) refl
        | inl l ↦
            let r : not (range_ok addr (whole_pages size)) ≡ true = ground (arith, nay, z) in
            rw (z, l, r, sys_mprotect) refl
      ]
    ]

-- `sys_mprotect` in a valid space answers 0 only for a range that may be asked for and whose every address
-- is mapped; then the addresses of the range show the new protection and else what they showed, and all
-- others are the same. It answers EINVAL for a range that may not be asked for and ENOMEM for one with an
-- address that is not mapped, and then changes nothing.
pub sys_mprotect-Protects :
    (addr size prot : ℕ) (space : AddressSpace)
    → ValidSpace space
    → let (result, space') = sys_mprotect addr size prot space in
      Protects addr size prot space result space'
sys_mprotect-Protects addr size prot space (valid, page_b, low) =
    elim (Bool-cases (allowed addr size)) [
      | inr nay ↦
          subst (λ answer. Protects addr size prot space answer.0 answer.1)
            (sym (sys_mprotect-refused addr size prot space nay))
            (refl, (rw nay refl), λ ok. absurd (false_true (sym nay ∙ ok)))
      | inl ok ↦
          let e = addr + whole_pages size in
          let lt : addr < e = ground (arith, ok) in
          let page : addr % 4096 ≡ 0 = ground (arith, ok) in
          let page_e : e % 4096 ≡ 0 = omega (arith, page) in
          let pages : addr + whole_pages size / 4096 * 4096 ≡ e = omega arith in
          let sound = Valid-sound space.mmap_regions valid in
          subst (λ answer. Protects addr size prot space answer.0 answer.1)
            (sym (sys_mprotect-allowed addr size prot space ok))
            (elim (Bool-cases (all_covered (whole_pages size / 4096) addr space.mmap_regions)) [
              | inl c ↦ rw c (
                refl,
                ok,
                (λ a i.
                    all_covered-true (whole_pages size / 4096) addr space.mmap_regions sound page c
                      a (subst (λ x. in_range addr x a ≡ true) (sym pages) i)),
                refl,
                (
                  protect_regions-Valid addr e prot lt page page_e space.mmap_regions valid,
                  page_b,
                  low,
                ),
                protect_regions-view addr e prot lt page page_e space.mmap_regions valid,
              )
              | inr c ↦
                  let (a, i, gap) =
                    all_covered-false (whole_pages size / 4096) addr space.mmap_regions c in
                  rw c (
                    refl,
                    (rw ok refl),
                    λ x. (a, subst (λ x. in_range addr x a ≡ true) pages i, gap),
                  )
            ])
    ]
  where
    false_true : false ≡ true → ⊥
    false_true e = cc
