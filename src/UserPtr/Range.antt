-- ===== src/UserPtr/Range.antt =====
-- What a validated pointer of kernel/src/syscall/validation.rs guarantees.
use kontsnor_os.Prelude.{ℕ, zero, suc, ◌+◌, ◌-◌, ◌*◌, ◌/◌, ◌≤◌, ◌<◌, ◌≡◌, true, arith, ap, ◌∙◌}
use kontsnor_os.UserPtr.{
  UserMemory, page_size, page_of, user_limit, all_mapped, pages_mapped, validate_user_ptr_write,
}

all_mapped_sound :
    (m : UserMemory) (n i curr : ℕ)
    → all_mapped m n curr ≡ true
    → i < n
    → m.mapped (curr + i * page_size) ≡ true
unfolding all_mapped
all_mapped_sound m zero i curr h lt = absurd (omega arith)
all_mapped_sound m (suc n) zero curr h lt =
    let e : curr ≡ curr + 0 * page_size = omega arith in rw (← e) (ground arith)
all_mapped_sound m (suc n) (suc i) curr h lt =
    let rest : all_mapped m n (curr + page_size) ≡ true = ground arith in
    ap m.mapped (omega arith) ∙ all_mapped_sound m n i (curr + page_size) rest (omega arith)

pages_mapped_sound :
    (m : UserMemory) (start end a : ℕ)
    → pages_mapped m start end ≡ true
    → start ≤ a
    → a < end
    → m.mapped (page_of a) ≡ true
unfolding pages_mapped
pages_mapped_sound m start end a h from below =
    ap m.mapped (omega arith)
    ∙ all_mapped_sound m _ ((page_of a - page_of start) / page_size) (page_of start) h (omega arith)

-- Every byte of a range that `validate_user_ptr_write` accepts lies in the user half, on a page
-- that is mapped, and its address does not wrap.
pub validate_user_ptr_write_sound :
    (m : UserMemory) (ptr size a : ℕ)
    → validate_user_ptr_write m ptr size ≡ true
    → ptr ≤ a
    → a < ptr + size
    → (0 < ptr) × (a < user_limit) × (m.mapped (page_of a) ≡ true)
unfolding validate_user_ptr_write
validate_user_ptr_write_sound m ptr size a ok from below =
    ground (arith, pages_mapped_sound m ptr (ptr + size) a)
