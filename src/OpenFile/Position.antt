-- ===== src/OpenFile/Position.antt =====
-- The position of an open file (kernel/src/fs/file.rs).
use Prim.Native.Nat.{bit_and}
use kontsnor_os.Prelude.{
  ℕ, ◌+◌, ◌%◌, ◌^◌, ◌<◌, ◌≡◌, refl, inl, inr, true, false, List, ltb, ◌==◌, Bool-cases, arith,
}
use kontsnor_os.Prelude.Word.{ℤ, pos, negsuc, as_i64, as_u64}
use kontsnor_os.Errno.{espipe, into, Result, ok, err}
use kontsnor_os.OpenFile.{
  InodeOps, OpenFile, is_regular, is_stream, is_writable, o_append, saturating_add, add_i64, write,
  seek_to, seek,
}

-- A signed 64-bit value.
unfoldable pub IsI64 : ℤ → Type 0
IsI64 (pos n) = n < 2 ^ 63
IsI64 (negsuc n) = n < 2 ^ 63

-- Either the offset is what the call returns, and not negative as a signed value, or nothing changed.
unfoldable pub IsSought : {I : Type 0} → OpenFile I → Result ℕ × OpenFile I → Type 0
IsSought f (ok n, f') = (n < 2 ^ 63) × (f' ≡ record f { offset = n })
IsSought f (err e, f') = f' ≡ f

as_i64-IsI64 : (w : ℕ) → w < 2 ^ 64 → IsI64 (as_i64 w)
unfolding IsI64
as_i64-IsI64 w h = elim (Bool-cases (ltb w (2 ^ 63))) [
  | inl e ↦ rw e (ground (arith, e))
  | inr e ↦ rw e (ground (arith, e, h))
]

module _ {I : Type 0} (ops : InodeOps I) where
  seek_to-IsSought : (o : ℤ) (f : OpenFile I) → IsI64 o → IsSought f (seek_to ops o f)
  unfolding IsI64 IsSought
  seek_to-IsSought (pos n) f h = (h, refl)
  seek_to-IsSought (negsuc n) f h = refl

  add_i64-IsI64 : (a b : ℤ) → IsI64 (add_i64 a b)
  add_i64-IsI64 a b = as_i64-IsI64 ((as_u64 a + as_u64 b) % 2 ^ 64) (omega arith)

  -- A seek by a 64-bit offset either returns the new position, which is below 2^63, and changes
  -- nothing but the position, or fails and changes nothing; on a pipe or a socket it fails with
  -- ESPIPE.
  pub seek-IsSought :
      (offset whence : ℤ) (f : OpenFile I)
      → IsI64 offset
      → IsSought f (seek ops offset whence f)
        × (is_stream (ops.file_type f.inode) ≡ true
            → seek ops offset whence f ≡ (err (into espipe), f))
  unfolding seek IsSought
  seek-IsSought offset whence f h = (whole, λ e. rw e)
    where
      by_whence :
          (w : ℤ) → is_stream (ops.file_type f.inode) ≡ false → IsSought f (seek ops offset w f)
      by_whence (negsuc n) s = rw s refl
      by_whence (pos n) s = elim (Bool-cases (n == 0)) [
        | inl e ↦ rw (s, e) (seek_to-IsSought offset f h)
        | inr e ↦ elim (Bool-cases (n == 1)) [
          | inl e1 ↦
              rw (s, e, e1)
                (seek_to-IsSought (add_i64 (as_i64 f.offset) offset) f
                  (add_i64-IsI64 (as_i64 f.offset) offset))
          | inr e1 ↦
              let size = as_i64 (ops.size f.inode) in
              elim (Bool-cases (n == 2)) [
                | inl e2 ↦
                    rw (s, e, e1, e2)
                      (seek_to-IsSought (add_i64 size offset) f (add_i64-IsI64 size offset))
                | inr e2 ↦ rw (s, e, e1, e2) refl
              ]
        ]
      ]

      whole : IsSought f (seek ops offset whence f)
      whole = elim (Bool-cases (is_stream (ops.file_type f.inode))) [
        | inl s ↦ rw s refl
        | inr s ↦ by_whence whence s
      ]

  -- A write to a regular file that is open for appending goes to the end of the file, wherever the
  -- position was, and leaves the position behind the bytes written, at most at 2^64 - 1.
  pub write_append :
      (data_in : List ℕ) (f : OpenFile I) (n : ℕ) (inode' : I)
      → is_writable f.flags ≡ true
      → (bit_and f.flags o_append == 0) ≡ false
      → is_regular (ops.file_type f.inode) ≡ true
      → ops.inode_write (ops.size f.inode) data_in f.inode ≡ (ok n, inode')
      → write ops data_in f
        ≡ (ok n, record f { inode = inode'; offset = saturating_add (ops.size f.inode) n })
  unfolding write
  write_append data_in f n inode' writable append regular done =
      rw (writable, append, regular, done)
