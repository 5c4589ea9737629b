-- ===== src/Circular.antt =====
-- Circular storage, which kernel/src/util/ring_buffer.rs and kernel/src/fs/pipe.rs share: slots
-- addressed by a counter modulo the capacity, block copies in two pieces, and the items between
-- two counters.
pub mod Window
pub mod Chunks
use kontsnor_os.Prelude.{ℕ, zero, suc, ◌+◌, ◌-◌, ◌%◌, List, [], ◌∷◌, ◌++◌, get_or, set, take, drop}

module _ {ℓ} {A : Type ℓ} where
  -- `dst[at..at + src.len()].copy_from_slice(src)`; what would lie beyond the end is lost.
  unfoldable pub copy_at : List A → ℕ → List A → List A
  copy_at [] i src = []
  copy_at (b ∷ bs) zero [] = b ∷ bs
  copy_at (b ∷ bs) zero (x ∷ xs) = x ∷ copy_at bs zero xs
  copy_at (b ∷ bs) (suc i) src = b ∷ copy_at bs i src

  -- `src[at..at + n]`
  abbrev pub slice : List A → ℕ → ℕ → List A
  slice src i n = take n (drop i src)

  module _ (d : A) (cap : ℕ) where
    -- The `n` items from counter `h` on; `d` stands where there is no slot.
    abbrev pub window : List A → ℕ → ℕ → List A
    window buf h zero = []
    window buf h (suc n) = get_or buf (h % cap) d ∷ window buf (h + 1) n

  module _ (cap : ℕ) where
    -- One item at a time, the independent description of a block write.
    pub write_each : List A → ℕ → List A → List A
    write_each buf h [] = buf
    write_each buf h (x ∷ xs) = write_each (set buf (h % cap) x) (h + 1) xs
