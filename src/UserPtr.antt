-- ===== src/UserPtr.antt =====
-- Pointers from user space: kernel/src/syscall/validation.rs. Whether a page is mapped, or can be
-- faulted in, is what `ensure_page_mapped` finds in the page tables of the machine; here it is
-- the function `mapped` of the memory, and a word of user memory is `word` at its address.
pub mod Range
mod Tests
use kontsnor_os.Prelude.{
  ℕ, zero, suc, ◌+◌, ◌-◌, ◌*◌, ◌/◌, ◌%◌, ◌^◌, Bool, true, false, List, [], ◌∷◌, ltb, ◌==◌, ◌&&◌,
  if◌then◌else◌,
}

pub record UserMemory : Type 0 where
  pub mapped : ℕ → Bool
  pub word : ℕ → ℕ

abbrev pub page_size : ℕ
page_size = 4096

-- `x & !(page_size - 1)`
abbrev pub page_of : ℕ → ℕ
page_of x = x - x % page_size

-- The highest address of the user half.
abbrev pub user_limit : ℕ
user_limit = 0x0000_7fff_ffff_ffff

-- The loop over the pages from `curr` on, `n` of them.
unfoldable pub all_mapped : UserMemory → ℕ → ℕ → Bool
all_mapped m zero curr = true
all_mapped m (suc n) curr = m.mapped curr && all_mapped m n (curr + page_size)

-- The test of the pages that [start, end) touches.
unfoldable pub pages_mapped : UserMemory → ℕ → ℕ → Bool
unfolding all_mapped
pages_mapped m start end =
    let end_page = page_of (end + page_size - 1) in
    all_mapped m ((end_page - page_of start) / page_size) (page_of start)

-- `validate_user_ptr`; an end beyond 64 bits is the failed `checked_add`.
unfoldable pub validate_user_ptr : UserMemory → ℕ → ℕ → Bool
validate_user_ptr m ptr size =
    let end = ptr + size in
    if ptr == 0
    then false
    else if ltb (2 ^ 64 - 1) end
    then false
    else if ltb user_limit end
    then false
    else if size == 0
    then true
    else pages_mapped m ptr end

-- `validate_user_ptr_write`, where `true` is `Ok(())`: no test of write permission is made.
unfoldable pub validate_user_ptr_write : UserMemory → ℕ → ℕ → Bool
validate_user_ptr_write m ptr size =
    let end = ptr + size in
    if ptr == 0
    then false
    else if ltb (2 ^ 64 - 1) end
    then false
    else if ltb user_limit end
    then false
    else if size == 0
    then true
    else pages_mapped m ptr end

-- `validate_user_ptr_read`
unfoldable pub validate_user_ptr_read : UserMemory → ℕ → ℕ → Bool
validate_user_ptr_read m ptr size = if validate_user_ptr m ptr size then true else false
