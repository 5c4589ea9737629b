-- ===== src/Lib.antt =====
-- A verification library for KontsnorOS, a kernel in Rust: definitions that follow the source, and
-- theorems on them.
--
-- The files, and what they model (paths from the repository's root):
--   Circular: circular storage, which the ring buffer and the pipe share.
--   RingBuffer: kernel/src/util/ring_buffer.rs, with `push`, `pop`, `push_slice`, `pop_slice`.
--   Pipe: kernel/src/fs/pipe.rs, `PipeBuffer` and the calls of `PipeReader` and `PipeWriter`.
--   UserPtr: the pointer checks of kernel/src/syscall/validation.rs.
--   Errno: the error codes of kernel/src/syscall/mod.rs.
--   Tasks: the fields of `Task` (kernel/src/process/task.rs) that the calls below use, and the task
--     table of kernel/src/process/scheduler.rs.
--   Creds: kernel/src/syscall/process/creds.rs, users, groups, sessions and capabilities.
--   FdTable: kernel/src/process/fd.rs, the descriptor table, and the closing of descriptors in
--     kernel/src/syscall/process/lifecycle.rs.
--   EventFd: kernel/src/fs/eventfd.rs, `read`, `write` and `poll` of the event counter.
--   FilePath: kernel/src/fs/path.rs, normalizing, splitting and joining of paths.
--   OpenFile: `FileDescription` of kernel/src/fs/file.rs, its reads, writes and seeks over an inode.
--   Locks: the ticket lock of kernel/src/sync/spinlock.rs and the reader-writer lock of
--     kernel/src/sync/rwlock.rs, as relations of one atomic step: of a processor in the first,
--     and in the second of a call or a guard, of which a processor may have several.
--   Frames: kernel/src/memory/physical.rs, the allocator of physical frames, the caches of the
--     processors and the counts of users; the size of the bitmap is a parameter. A search has one
--     round more than there are frames, since each round passes at least one.
--   Tcp: headers and `process_segment` of kernel/src/net/tcp.rs and the read of a stream socket in
--     kernel/src/net/socket.rs; the loop over the queue has one round more than the queue has entries.
--   Ipv4: kernel/src/net/ipv4.rs, checksums, the building and parsing of packets, and the routing
--     table; an address is its octets, and in a route their number. The loop over blocks has as many
--     rounds as there are bytes, and the folding of a 32-bit sum has three, after which it is done.
--   Udp: kernel/src/net/udp.rs, the building, parsing and queueing of datagrams.
--   Mmap: kernel/src/syscall/memory.rs, `sys_mmap` (Mmap/Place), `sys_munmap` and `sys_mprotect`
--     (Mmap.antt) and `sys_mremap` (Mmap/Remap) on the regions of `AddressSpace`
--     (kernel/src/process/task.rs). The search for a free range has two rounds more than there are
--     regions, since each round passes the break or a region for good.
--   Futex: kernel/src/syscall/process/futex.rs, the queues of tasks that wait on a word of memory.
--   Prelude: shared names, machine words, bit masks and list lemmas.
--
-- Conventions. A number of the source is a natural number, with its wrap-around written out; an
-- `i32` or `i64` is an integer. A function that writes `*self` returns the new state beside its
-- result, and the locks of the source make each such function one step. A slice or a `Vec` is a
-- list. What other tasks do while a call sleeps is a list of wake-ups that the call takes: it has
-- as many rounds as the list has entries, and a theorem that a call returns says how many suffice.
-- The user memory and the answer of the page tables are parameters.
--
-- Not modelled: device drivers, page tables, interrupts and context switches (they act on the
-- machine), and the file systems and calls that the files above do not name.
pub mod Prelude
pub mod Circular
pub mod RingBuffer
pub mod Errno
pub mod Pipe
pub mod UserPtr
pub mod Tasks
pub mod Creds
pub mod FdTable
pub mod EventFd
pub mod FilePath
pub mod OpenFile
pub mod Locks
pub mod Frames
pub mod Tcp
pub mod Ipv4
pub mod Udp
pub mod Mmap
pub mod Futex
