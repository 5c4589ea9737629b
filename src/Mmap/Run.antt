-- ===== src/Mmap/Run.antt =====
-- Sequences of the calls that map, unmap and protect (kernel/src/syscall/memory.rs).
use kontsnor_os.Prelude.{ℕ, sym, List, [], ◌∷◌, Option}
use mathlib.Core.Path.{subst}
use kontsnor_os.Prelude.Word.{ℤ, pos, negsuc}
use kontsnor_os.Errno.{SyscallResult}
use kontsnor_os.Mmap.{AddressSpace, sys_munmap, sys_mprotect}
use kontsnor_os.Mmap.Regions.{ValidSpace}
use kontsnor_os.Mmap.Calls.{sys_munmap-Unmaps}
use kontsnor_os.Mmap.Guard.{Protects, sys_mprotect-Protects}
use kontsnor_os.Mmap.Place.{MapFile, sys_mmap}
use kontsnor_os.Mmap.Place.Map.{file_of, whole_pages, Maps, sys_mmap-Maps}

pub data MemoryCall : Type 0 where
  mmap : (addr size prot flags : ℕ) (fd : ℤ) (offset : ℕ) → MemoryCall
  munmap : (addr size : ℕ) → MemoryCall
  mprotect : (addr size prot : ℕ) → MemoryCall

module _ (get_file_desc : ℤ → Option MapFile) where
  abbrev pub call : MemoryCall → AddressSpace → SyscallResult × AddressSpace
  call (mmap addr size prot flags fd offset) space =
      sys_mmap get_file_desc addr size prot flags fd offset space
  call (munmap addr size) space = sys_munmap addr size space
  call (mprotect addr size prot) space = sys_mprotect addr size prot space

  abbrev pub run : List MemoryCall → AddressSpace → AddressSpace
  run [] space = space
  run (c ∷ cs) space = run cs (call c space).1

  call-ValidSpace :
      (c : MemoryCall) (space : AddressSpace) → ValidSpace space → ValidSpace (call c space).1
  call-ValidSpace (mmap addr size prot flags fd offset) space valid =
      let (result, space') = sys_mmap get_file_desc addr size prot flags fd offset space in
      of_maps (file_of get_file_desc flags fd) (whole_pages size) prot flags offset space result
        space' valid (sys_mmap-Maps get_file_desc addr size prot flags fd offset space valid)
    where
      of_maps :
          (file : Option MapFile) (len prot flags offset : ℕ) (before : AddressSpace)
          (result : SyscallResult) (after : AddressSpace)
          → ValidSpace before
          → Maps file len prot flags offset before result after
          → ValidSpace after
      of_maps file len prot flags offset before (negsuc e) after v same =
          subst ValidSpace (sym same) v
      of_maps file len prot flags offset before (pos at) after v (page, low, brk, v', views, free) =
          v'
  call-ValidSpace (munmap addr size) space valid = (sys_munmap-Unmaps addr size space valid).2
  call-ValidSpace (mprotect addr size prot) space valid =
      let (result, space') = sys_mprotect addr size prot space in
      of_protects result space' valid (sys_mprotect-Protects addr size prot space valid)
    where
      of_protects :
          (result : SyscallResult) (after : AddressSpace)
          → ValidSpace space
          → Protects addr size prot space result after
          → ValidSpace after
      of_protects (negsuc e) after v (same, is, gap) = subst ValidSpace (sym same) v
      of_protects (pos n) after v (zero_n, ok, mapped, brk, v', views) = v'

  -- Any sequence of `sys_mmap`, `sys_munmap` and `sys_mprotect` leads from a valid space to a valid space:
  -- its regions are whole user pages, one at least, and no two hold the same address, the bump address
  -- begins a page, and the break is a user's address.
  pub run-ValidSpace :
      (cs : List MemoryCall) (space : AddressSpace) → ValidSpace space → ValidSpace (run cs space)
  run-ValidSpace [] space valid = valid
  run-ValidSpace (c ∷ cs) space valid =
      run-ValidSpace cs (call c space).1 (call-ValidSpace c space valid)
