-- ===== src/OpenFile.antt =====
-- Reading, writing and seeking of an open file: `FileDescription` of kernel/src/fs/file.rs. The inode
-- is any type with the operations of `InodeOps`.
pub mod Position
use Prim.Native.Nat.{bit_and}
use kontsnor_os.Prelude.{
  ℕ, ◌+◌, ◌%◌, ◌^◌, min, Bool, true, false, List, ltb, ◌==◌, ◌||◌, not, if◌then◌else◌,
}
use kontsnor_os.Prelude.Word.{ℤ, pos, negsuc, is_neg, as_i64, as_u64, u64_max}
use kontsnor_os.Errno.{ebadf, einval, espipe, into, Result, ok, err}

pub data FileType : Type 0 where
  regular directory char_device block_device pipe symlink socket : FileType

-- What the calls below use of an inode; `size` and `file_type` are fields of its `Inode`.
pub record InodeOps (I : Type 0) : Type 0 where
  pub file_type : I → FileType
  pub size : I → ℕ
  pub inode_read : ℕ → List ℕ → I → Result ℕ × List ℕ × I
  pub inode_write : ℕ → List ℕ → I → Result ℕ × I

pub record OpenFile (I : Type 0) : Type 0 where
  pub inode : I
  pub offset : ℕ
  pub flags : ℕ

abbrev pub is_readable : ℕ → Bool
is_readable flags = let access = bit_and flags 3 in (access == 0) || (access == 2)

abbrev pub is_writable : ℕ → Bool
is_writable flags = let access = bit_and flags 3 in (access == 1) || (access == 2)

abbrev pub o_append : ℕ
o_append = 0x400

abbrev pub is_regular : FileType → Bool
is_regular regular = true
is_regular _ = false

-- A pipe or a socket.
abbrev pub is_stream : FileType → Bool
is_stream pipe = true
is_stream socket = true
is_stream _ = false

-- `u64::saturating_add`
abbrev pub saturating_add : ℕ → ℕ → ℕ
saturating_add a b = min (a + b) u64_max

-- The sum of two `i64`, as a release build wraps it (a debug build panics).
abbrev pub add_i64 : ℤ → ℤ → ℤ
add_i64 a b = as_i64 ((as_u64 a + as_u64 b) % 2 ^ 64)

module _ {I : Type 0} (ops : InodeOps I) where
  -- The count that a read or a write of the inode returns moves the offset on.
  abbrev pub advance : ℕ → Result ℕ → OpenFile I → OpenFile I
  advance from (ok n) f = record f { offset = saturating_add from n }
  advance from (err e) f = f

  pub read : List ℕ → OpenFile I → Result ℕ × List ℕ × OpenFile I
  read buf f =
      let seekable = is_regular (ops.file_type f.inode) in
      let at = if seekable then f.offset else 0 in
      let (r, buf', inode') = ops.inode_read at buf f.inode in
      let f' = record f { inode = inode' } in
      if not (is_readable f.flags)
      then (err (into ebadf), buf, f)
      else (r, buf', if seekable then advance at r f' else f')

  pub write : List ℕ → OpenFile I → Result ℕ × OpenFile I
  write data_in f =
      let seekable = is_regular (ops.file_type f.inode) in
      let append = not (bit_and f.flags o_append == 0) in
      let start = if append then ops.size f.inode else f.offset in
      let at = if seekable then start else 0 in
      let (r, inode') = ops.inode_write at data_in f.inode in
      let f' = record f { inode = inode' } in
      if not (is_writable f.flags)
      then (err (into ebadf), f)
      else (r, if seekable then advance at r (record f' { offset = start }) else f')

  -- The new offset, if it is not negative.
  abbrev pub seek_to : ℤ → OpenFile I → Result ℕ × OpenFile I
  seek_to (pos n) f = (ok n, record f { offset = n })
  seek_to (negsuc n) f = (err (into einval), f)

  pub seek : (offset : ℤ) → (whence : ℤ) → OpenFile I → Result ℕ × OpenFile I
  seek offset whence f =
      if is_stream (ops.file_type f.inode) then (err (into espipe), f) else (elim whence [
        | negsuc n ↦ (err (into einval), f)
        | pos n ↦
            if n == 0
            then seek_to offset f
            else if n == 1
            then seek_to (add_i64 (as_i64 f.offset) offset) f
            else if n == 2
            then seek_to (add_i64 (as_i64 (ops.size f.inode)) offset) f
            else (err (into einval), f)
      ])
