-- ===== src/Errno.antt =====
-- Error codes and results: `Errno` and `SyscallResult` of kernel/src/syscall/mod.rs, and the
-- `Result<usize, i32>` of the inode operations, whose error is the negative code.
use kontsnor_os.Prelude.Word.{ℤ, negsuc}

pub data Errno : Type 0 where
  eperm enoent esrch eintr eio enxio e2big ebadf echild eagain enomem eacces efault : Errno
  eexist exdev enotdir eisdir einval emfile efbig enospc espipe erofs enosys enotempty : Errno
  enoexec eloop enotsock edestaddrreq enetunreach eisconn enotconn econnrefused : Errno
  etimedout ebusy enodev enomsg eopnotsupp eafnosupport enokey : Errno

-- A system call returns a signed number.
abbrev pub SyscallResult : Type 0
SyscallResult = ℤ

-- `e as i64`: `negsuc n` is -(n + 1).
abbrev pub into : Errno → SyscallResult
into eperm = negsuc 0
into enoent = negsuc 1
into esrch = negsuc 2
into eintr = negsuc 3
into eio = negsuc 4
into enxio = negsuc 5
into e2big = negsuc 6
into ebadf = negsuc 8
into echild = negsuc 9
into eagain = negsuc 10
into enomem = negsuc 11
into eacces = negsuc 12
into efault = negsuc 13
into eexist = negsuc 16
into exdev = negsuc 17
into enotdir = negsuc 19
into eisdir = negsuc 20
into einval = negsuc 21
into emfile = negsuc 23
into efbig = negsuc 26
into enospc = negsuc 27
into espipe = negsuc 28
into erofs = negsuc 29
into enosys = negsuc 37
into enotempty = negsuc 38
into enoexec = negsuc 7
into eloop = negsuc 39
into enotsock = negsuc 87
into edestaddrreq = negsuc 88
into enetunreach = negsuc 100
into eisconn = negsuc 105
into enotconn = negsuc 106
into econnrefused = negsuc 110
into etimedout = negsuc 109
into ebusy = negsuc 15
into enodev = negsuc 18
into enomsg = negsuc 41
into eopnotsupp = negsuc 94
into eafnosupport = negsuc 96
into enokey = negsuc 125

pub data Result (A : Type 0) : Type 0 where
  ok : A → Result A
  err : ℤ → Result A
