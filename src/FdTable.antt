-- ===== src/FdTable.antt =====
-- The descriptor table of a task: kernel/src/process/fd.rs, `FdTable` of
-- kernel/src/process/task.rs, and the closing of descriptors in execve
-- (kernel/src/syscall/process/lifecycle.rs). An entry is the index of an open file description in
-- a store, so that entries can share one; `ref_count` is the count that the source keeps beside
-- the one of `Arc`.
pub mod Lowest
pub mod Hint
pub mod Opening
pub mod Calls
mod Sharing
mod Exec
mod Tests
use Prim.Native.Nat.{bit_and}
use kontsnor_os.Prelude.{
  ℕ, zero, suc, ◌+◌, ◌-◌, min, Bool, true, false, List, [], ◌∷◌, ◌++◌, Option, none, some, ltb, leb,
  ◌==◌, ◌&&◌, not, if◌then◌else◌, length, get_elem?, get_or, set, take, replicate,
}
use kontsnor_os.Prelude.Word.{ℤ, pos, negsuc, wrapping_add32}

-- `FileDescription`, but for the path, which the calls below do not read
pub record FileDescription : Type 0 where
  pub inode : ℕ
  pub offset : ℕ
  pub flags : ℕ
  pub ref_count : ℕ

pub record FdTable : Type 0 where
  pub entries : List (Option ℕ)
  pub cloexec : List Bool
  pub next_free_fd : ℕ

-- The running task's table and limit, and the store of open file descriptions.
pub record Files : Type 0 where
  pub table : FdTable
  pub rlimit : ℕ
  pub descs : List FileDescription

-- `Vec::resize`
abbrev pub resize {ℓ} : {A : Type ℓ} → List A → ℕ → A → List A
resize xs n v = take n xs ++ replicate (n - length xs) v

-- `entries[i].is_none()`, where `i` is in range.
abbrev pub slot_free : Option (Option ℕ) → Bool
slot_free none = false
slot_free (some none) = true
slot_free (some (some d)) = false

abbrev pub is_free : List (Option ℕ) → ℕ → Bool
is_free es i = slot_free (get_elem? es i)

-- The description that `fd` names.
abbrev pub slot_desc : Option (Option ℕ) → Option ℕ
slot_desc none = none
slot_desc (some slot) = slot

abbrev pub entry : List (Option ℕ) → ℕ → Option ℕ
entry es i = slot_desc (get_elem? es i)

pub data Scan : Type 0 where
  found : ℕ → Scan
  limit exhausted : Scan

-- `for i in i..i + n`
pub scan : List (Option ℕ) → (rlimit i n : ℕ) → Scan
scan es rlimit i zero = exhausted
scan es rlimit i (suc n) =
    let rest = scan es rlimit (i + 1) n in
    if leb rlimit i then limit else if is_free es i then found i else rest

-- A free slot `i` is taken.
pub place : FdTable → ℕ → ℕ → Bool → FdTable
place t i d flag =
    let flags = if leb (length t.cloexec) i then resize t.cloexec (i + 1) false else t.cloexec in
    record { entries = set t.entries i (some d); cloexec = set flags i flag; next_free_fd = i + 1 }

-- The table is made longer by one.
pub extend : FdTable → ℕ → Bool → FdTable
extend t d flag =
    let i = length t.entries in
    record {
      entries = t.entries ++ (some d ∷ []);
      cloexec = set (resize t.cloexec (i + 1) false) i flag;
      next_free_fd = i + 1;
    }

pub alloc_end : FdTable → ℕ → ℕ → Bool → Option (ℕ × FdTable)
alloc_end t rlimit d flag =
    let i = length t.entries in if ltb i rlimit then some (i, extend t d flag) else none

pub alloc_fallback : FdTable → ℕ → ℕ → Bool → Option (ℕ × FdTable)
alloc_fallback t rlimit d flag =
    elim (scan t.entries rlimit 0 (min t.next_free_fd (length t.entries))) [
      | found i ↦ some (i, place t i d flag)
      | limit ↦ none
      | exhausted ↦ alloc_end t rlimit d flag
    ]

-- The search that opening and duplicating share: from the hint, then below it, then at the end.
pub alloc_slot : FdTable → ℕ → ℕ → Bool → Option (ℕ × FdTable)
alloc_slot t rlimit d flag =
    elim (scan t.entries rlimit t.next_free_fd (length t.entries - t.next_free_fd)) [
      | found i ↦ some (i, place t i d flag)
      | limit ↦ none
      | exhausted ↦
          if ltb 0 t.next_free_fd then alloc_fallback t rlimit d flag else alloc_end t rlimit d flag
    ]

abbrev pub o_cloexec : ℕ
o_cloexec = 0x80000

-- `FileDescription::new`
abbrev pub new_desc : ℕ → ℕ → FileDescription
new_desc inode flags = record { inode = inode; offset = 0; flags = flags; ref_count = 1 }

-- `current_task_alloc_fd_with_flags_and_path`; if it fails, the new description is dropped.
pub alloc_fd : ℕ → ℕ → Files → Option ℕ × Files
alloc_fd inode flags f =
    let d = length f.descs in
    elim (alloc_slot f.table f.rlimit d (not (bit_and flags o_cloexec == 0))) [
      | none ↦ (none, f)
      | some (i, t) ↦
          (some i, record f { table = t; descs = f.descs ++ (new_desc inode flags ∷ []) })
    ]

-- A change of the description `d`.
pub update_desc : (FileDescription → FileDescription) → ℕ → Files → Files
update_desc change d f = elim (get_elem? f.descs d) [
  | none ↦ f
  | some x ↦ record f { descs = set f.descs d (change x) }
]

abbrev pub add_ref : FileDescription → FileDescription
add_ref x = record x { ref_count = wrapping_add32 x.ref_count 1 }

abbrev pub drop_ref : FileDescription → FileDescription
drop_ref x = record x { ref_count = x.ref_count - 1 }

-- `current_task_close_fd`, for an `fd` that is not negative: was it open?
pub close_fd : ℕ → Files → Bool × Files
close_fd fd f =
    let t = f.table in
    let closed = record t {
      entries = set t.entries fd none;
      cloexec = if ltb fd (length t.cloexec) then set t.cloexec fd false else t.cloexec;
      next_free_fd = if ltb fd t.next_free_fd then fd else t.next_free_fd;
    } in
    elim (entry t.entries fd) [
      | none ↦ (false, f)
      | some d ↦ (true, update_desc drop_ref d (record f { table = closed }))
    ]

-- `current_task_dup_fd`: the reference is counted before a slot is looked for.
pub dup_fd : ℕ → Files → Option ℕ × Files
dup_fd fd f = elim (entry f.table.entries fd) [
  | none ↦ (none, f)
  | some d ↦
      let counted = update_desc add_ref d f in
      elim (alloc_slot f.table f.rlimit d false) [
        | none ↦ (none, counted)
        | some (i, t) ↦ (some i, record counted { table = t })
      ]
]

-- The table with `newfd` made to name `d`.
pub install : FdTable → ℕ → ℕ → Bool → FdTable
install t newfd d flag =
    let es =
      if leb (length t.entries) newfd then resize t.entries (newfd + 1) none else t.entries in
    let cs =
      if leb (length t.cloexec) newfd then resize t.cloexec (newfd + 1) false else t.cloexec in
    record t { entries = set es newfd (some d); cloexec = set cs newfd flag }

abbrev pub drop_old : Option ℕ → Files → Files
drop_old none f = f
drop_old (some d) f = update_desc drop_ref d f

-- What `dup2` and `dup3` do once `newfd` is within the limit.
pub replace_fd : (oldfd newfd : ℕ) → Bool → Files → Option ℕ × Files
replace_fd oldfd newfd flag f = elim (entry f.table.entries oldfd) [
  | none ↦ (none, f)
  | some d ↦
      let counted = update_desc add_ref d f in
      (
        some newfd,
        drop_old (entry f.table.entries newfd)
            (record counted { table = install f.table newfd d flag }),
      )
]

-- `current_task_dup2_fd`, for numbers that are not negative
pub dup2_fd : (oldfd newfd : ℕ) → Files → Option ℕ × Files
dup2_fd oldfd newfd f =
    if leb f.rlimit newfd
    then (none, f)
    else if oldfd == newfd
    then (elim (entry f.table.entries oldfd) [ none ↦ none | some d ↦ some newfd ], f)
    else replace_fd oldfd newfd false f

-- `current_task_dup3_fd`, for numbers that are not negative
pub dup3_fd : (oldfd newfd : ℕ) → Bool → Files → Option ℕ × Files
dup3_fd oldfd newfd flag f =
    if oldfd == newfd
    then (none, f)
    else if leb f.rlimit newfd
    then (none, f)
    else replace_fd oldfd newfd flag f

-- `get_fd_offset` and `set_fd_offset`
pub get_fd_offset : ℕ → Files → Option ℕ
get_fd_offset fd f = elim (entry f.table.entries fd) [
  | none ↦ none
  | some d ↦ elim (get_elem? f.descs d) [ none ↦ none | some x ↦ some x.offset ]
]

pub set_fd_offset : ℕ → ℕ → Files → Option (Unit {0}) × Files
set_fd_offset fd offset f = elim (entry f.table.entries fd) [
  | none ↦ (none, f)
  | some d ↦ (some tt, update_desc (λ x. record x { offset = offset }) d f)
]

-- Closing on execve: one round of the loop over the table, and the loop from `i` on.
pub exec_close_one : ℕ → Files → Files
exec_close_one i f =
    let t = f.table in
    let closed = record f {
      table = record t { entries = set t.entries i none; cloexec = set t.cloexec i false };
    } in
    if get_or t.cloexec i false then drop_old (entry t.entries i) closed else f

pub exec_close : ℕ → ℕ → Files → Files
exec_close i zero f = f
exec_close i (suc n) f = exec_close (i + 1) n (exec_close_one i f)

-- A table that the task shares is copied: each description named in it is counted once more, and the hint
-- of the copy is 0.
pub exec_add_refs : List (Option ℕ) → Files → Files
exec_add_refs [] f = f
exec_add_refs (none ∷ es) f = exec_add_refs es f
exec_add_refs (some d ∷ es) f = exec_add_refs es (update_desc add_ref d f)

pub exec_unshare : (shared : Bool) → Files → Files
exec_unshare shared f =
    let copied = record (exec_add_refs f.table.entries f) {
      table = record f.table { next_free_fd = 0 };
    } in
    if shared then copied else f

-- What execve does to the descriptors; `shared` tells whether other tasks use the table.
pub exec_close_all : (shared : Bool) → Files → Files
unfolding exec_close
exec_close_all shared f =
    let own = exec_unshare shared f in exec_close 0 (length own.table.entries) own

-- A signed descriptor number: a negative one is refused.
unfoldable pub on_fd {ℓ} : {A : Type ℓ} → ℤ → A → (ℕ → A) → A
on_fd (pos n) refused call = call n
on_fd (negsuc n) refused call = refused
