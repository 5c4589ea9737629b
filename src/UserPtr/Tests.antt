-- ===== src/UserPtr/Tests.antt =====
-- The theorems on kernel/src/syscall/validation.rs at concrete inputs.
use kontsnor_os.Prelude.{◌<◌, ◌≡◌, refl, true, arith, ◌==◌, ◌||◌}
use kontsnor_os.UserPtr.{UserMemory, page_of, user_limit, validate_user_ptr_write, pages_mapped}
use kontsnor_os.UserPtr.Range.{validate_user_ptr_write_sound}

abbrev two_pages : UserMemory
two_pages = record { mapped = λ p. p == 8192 || p == 12288; word = λ a. 0 }

-- A range over the border of two pages.
validate_user_ptr_write_sound_example :
    (0 < 12280) × (12290 < user_limit) × (two_pages.mapped (page_of 12290) ≡ true)
unfolding validate_user_ptr_write pages_mapped
validate_user_ptr_write_sound_example =
    validate_user_ptr_write_sound two_pages 12280 16 12290 refl (omega arith) (omega arith)
