-- ===== src/FdTable/Sharing.antt =====
-- Descriptors that name one open file description (`dup`, `dup2`, `close` of
-- kernel/src/process/fd.rs): they share its offset and are counted in it.
use kontsnor_os.Prelude.{
  ℕ, zero, suc, ◌+◌, ◌-◌, ◌≤◌, ◌<◌, ◌≡◌, refl, sym, ap, ◌∙◌, inl, inr, ◌≢◌, Bool, true, false, List,
  [], ◌∷◌, Option, none, some, ltb, leb, ◌==◌, Bool-cases, Option-cases, if◌then◌else◌, length,
  get_elem?, set, replicate, arith, length-append, length-set, length-replicate, get_elem?-set_self,
  get_elem?-append_left, get_elem?-beyond,
}
use kontsnor_os.FdTable.{
  FileDescription, FdTable, Files, resize, slot_desc, entry, close_fd, dup_fd, install, replace_fd,
  dup2_fd, update_desc, add_ref, drop_ref, drop_old, get_fd_offset, set_fd_offset,
}
use kontsnor_os.FdTable.Lowest.{first_free, first_free-length, alloc_slot-none}
use kontsnor_os.FdTable.Exec.{entry-set-none}
use kontsnor_os.FdTable.Hint.{IsHint, entry-set_self, entry-set_ne}
use kontsnor_os.FdTable.Calls.{resize-grow, update_desc-table, drop_old-table}

update_desc-some :
    (change : FileDescription → FileDescription) (d : ℕ) (f : Files) (x : FileDescription)
    → get_elem? f.descs d ≡ some x
    → update_desc change d f ≡ record f { descs = set f.descs d (change x) }
unfolding update_desc
update_desc-some change d f x e = rw (e, update_desc)

update_desc-length :
    (change : FileDescription → FileDescription) (d : ℕ) (f : Files)
    → length (update_desc change d f).descs ≡ length f.descs
unfolding update_desc
update_desc-length change d f = elim (Option-cases (get_elem? f.descs d)) [
  | inl e ↦ rw (e, update_desc)
  | inr (x, e) ↦ rw (e, update_desc) (length-set f.descs d (change x))
]

drop_old-length : (o : Option ℕ) (f : Files) → length (drop_old o f).descs ≡ length f.descs
drop_old-length none f = refl
drop_old-length (some d) f = update_desc-length drop_ref d f

get_elem?-inside {ℓ} :
    {A : Type ℓ} (xs : List A) (i : ℕ) → i < length xs → (x : A) × (get_elem? xs i ≡ some x)
get_elem?-inside [] i h = absurd (omega arith)
get_elem?-inside (x ∷ xs) zero h = (x, refl)
get_elem?-inside (x ∷ xs) (suc i) h = get_elem?-inside xs i (omega arith)

-- When the hint is right and no number below the limit is free, dup of an open descriptor fails, but
-- its description has been counted once more.
pub dup_fd_full :
    (f : Files) (fd d : ℕ) (x : FileDescription)
    → IsHint f.table
    → f.rlimit ≤ first_free f.table.entries
    → entry f.table.entries fd ≡ some d
    → get_elem? f.descs d ≡ some x
    → dup_fd fd f ≡ (none, record f { descs = set f.descs d (add_ref x) })
unfolding dup_fd IsHint
dup_fd_full f fd d x hint full names here =
    let le = first_free-length f.table.entries in
    let no = alloc_slot-none f.table f.rlimit d false full (omega (arith, hint, le)) in
    rw (names, no, dup_fd) (ap (λ g. (none, g)) (update_desc-some add_ref d f x here))

module _ (t : FdTable) (newfd d : ℕ) (flag : Bool) where
  install_self : entry (install t newfd d flag).entries newfd ≡ some d
  unfolding install
  install_self = elim (Bool-cases (leb (length t.entries) newfd)) [
    | inl long ↦
        let grown = resize-grow t.entries (newfd + 1) none (ground (arith, long)) in
        let empty : Option ℕ = none in
        let count = length-replicate (newfd + 1 - length t.entries) empty in
        let sum = length-append t.entries (replicate (newfd + 1 - length t.entries) none) in
        rw long (
          entry-set_self (resize t.entries (newfd + 1) none) newfd d
            (omega (arith, ap length grown, count, sum)))
    | inr short ↦ rw short (entry-set_self t.entries newfd d (ground (arith, short)))
  ]

  install_ne :
      (fd : ℕ)
      → fd ≢ newfd
      → fd < length t.entries
      → entry (install t newfd d flag).entries fd ≡ entry t.entries fd
  unfolding install
  install_ne fd ne inside = elim (Bool-cases (leb (length t.entries) newfd)) [
    | inl long ↦
        let grown = resize-grow t.entries (newfd + 1) none (ground (arith, long)) in
        rw long (
          entry-set_ne (resize t.entries (newfd + 1) none) newfd fd (some d) (λ e. ne (sym e))
          ∙ ap (λ es. entry es fd) grown
          ∙ ap slot_desc (
              get_elem?-append_left t.entries (replicate (newfd + 1 - length t.entries) none) fd
                inside))
    | inr short ↦ rw short (entry-set_ne t.entries newfd fd (some d) (λ e. ne (sym e)))
  ]

-- What dup2 leaves, where it succeeds.
module _ (f : Files) (oldfd newfd d : ℕ) (named : entry f.table.entries oldfd ≡ some d) where
  entry-inside : oldfd < length f.table.entries
  entry-inside = elim (Bool-cases (ltb oldfd (length f.table.entries))) [
    | inl l ↦ ground (arith, l)
    | inr l ↦
        let no = ap slot_desc (get_elem?-beyond f.table.entries oldfd (ground (arith, l))) in
        ground (arith, no, named)
  ]

  module _ (ne : oldfd ≢ newfd) (low : newfd < f.rlimit) where
    installed : Files
    installed = record (update_desc add_ref d f) { table = install f.table newfd d false }

    dup2_fd-installed :
        dup2_fd oldfd newfd f ≡ (some newfd, drop_old (entry f.table.entries newfd) installed)
    unfolding dup2_fd replace_fd installed
    dup2_fd-installed =
        let l : leb f.rlimit newfd ≡ false = ground (arith, low) in
        let n : (oldfd == newfd) ≡ false = ground (arith, ne) in
        rw (l, n, dup2_fd) (rw (named, replace_fd))

    dup2_fd-table : (dup2_fd oldfd newfd f).1.table ≡ install f.table newfd d false
    unfolding installed
    dup2_fd-table =
        ap (λ r. r.1.table) dup2_fd-installed
        ∙ drop_old-table (entry f.table.entries newfd) installed

    dup2_fd-length : length (dup2_fd oldfd newfd f).1.descs ≡ length f.descs
    unfolding installed
    dup2_fd-length =
        ap (λ r. length r.1.descs) dup2_fd-installed
        ∙ drop_old-length (entry f.table.entries newfd) installed
        ∙ update_desc-length add_ref d f

set_fd_offset-get :
    (f : Files) (a b d offset : ℕ)
    → entry f.table.entries a ≡ some d
    → entry f.table.entries b ≡ some d
    → d < length f.descs
    → get_fd_offset b (set_fd_offset a offset f).1 ≡ some offset
unfolding set_fd_offset get_fd_offset
set_fd_offset-get f a b d offset first second inside =
    let (x, e) = get_elem?-inside f.descs d inside in
    let moved = update_desc-some (λ x. record x { offset = offset }) d f x e in
    rw (first, set_fd_offset)
      (rw moved (
        rw (
          second,
          get_elem?-set_self f.descs d (record x { offset = offset }) inside,
          get_fd_offset,
        )))

-- When dup2 is given an open descriptor and another number below the limit, it returns that number,
-- which then shares the offset with the old descriptor: a position set through one is read through
-- the other, in both directions.
pub dup2_fd_shares :
    (f : Files) (oldfd newfd d offset : ℕ)
    → entry f.table.entries oldfd ≡ some d
    → d < length f.descs
    → oldfd ≢ newfd
    → newfd < f.rlimit
    → ((dup2_fd oldfd newfd f).0 ≡ some newfd)
      × (get_fd_offset newfd (set_fd_offset oldfd offset (dup2_fd oldfd newfd f).1).1 ≡ some offset)
      × (get_fd_offset oldfd (set_fd_offset newfd offset (dup2_fd oldfd newfd f).1).1 ≡ some offset)
dup2_fd_shares f oldfd newfd d offset named inside ne low =
    let g = (dup2_fd oldfd newfd f).1 in
    let table = dup2_fd-table f oldfd newfd d named ne low in
    let new : entry g.table.entries newfd ≡ some d =
      rw table (install_self f.table newfd d false) in
    let old : entry g.table.entries oldfd ≡ some d =
      rw table
        (install_ne f.table newfd d false oldfd ne (entry-inside f oldfd newfd d named) ∙ named) in
    let room : d < length g.descs =
      omega (arith, inside, dup2_fd-length f oldfd newfd d named ne low) in
    (
      ap (λ r. r.0) (dup2_fd-installed f oldfd newfd d named ne low),
      set_fd_offset-get g oldfd newfd d offset old new room,
      set_fd_offset-get g newfd oldfd d offset new old room,
    )

-- Closing an open descriptor succeeds; it then names nothing, and the others name what they did.
pub close_fd_lem :
    (f : Files) (fd d : ℕ)
    → entry f.table.entries fd ≡ some d
    → ((close_fd fd f).0 ≡ true)
      × (entry (close_fd fd f).1.table.entries fd ≡ none)
      × ((other : ℕ)
          → other ≢ fd
          → entry (close_fd fd f).1.table.entries other ≡ entry f.table.entries other)
unfolding close_fd
close_fd_lem f fd d named =
    let t = f.table in
    let closed : FdTable = record t {
      entries = set t.entries fd none;
      cloexec = if ltb fd (length t.cloexec) then set t.cloexec fd false else t.cloexec;
      next_free_fd = if ltb fd t.next_free_fd then fd else t.next_free_fd;
    } in
    let table = update_desc-table drop_ref d (record f { table = closed }) in
    (
      rw (named, close_fd),
      rw (named, close_fd) (ap (λ u. entry u.entries fd) table ∙ entry-set-none t.entries fd),
      (λ other ne.
          rw (named, close_fd)
            (ap (λ u. entry u.entries other) table
              ∙ entry-set_ne t.entries fd other none (λ e. ne (sym e)))),
    )
