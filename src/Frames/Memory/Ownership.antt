-- ===== src/Frames/Memory/Ownership.antt =====
-- No frame has two owners: what the calls of kernel/src/memory/physical.rs keep about the allocator,
-- the processors' caches and the counts of users.
use kontsnor_os.Prelude.{
  ℕ, ◌*◌, ◌/◌, ◌<◌, ◌≡◌, ◌≢◌, refl, sym, ap, ◌∙◌, inl, inr, true, false, List, [], ◌∷◌, Option,
  none, some, ◌==◌, if◌then◌else◌, Bool-cases, arith,
}
use mathlib.Core.Path.{subst}
use kontsnor_os.Frames.{FrameAllocator, allocate}
use kontsnor_os.Frames.Memory.{Memory, set_at}
use kontsnor_os.Frames.Memory.Caches.{In, Distinct, Ready, allocate-some, Fresh}

module _ (words : ℕ) where
  -- The caches hold different frames, which are marked and which nobody uses.
  pub record CachesValid (global : FrameAllocator) (caches : ℕ → List ℕ) (refs : ℕ → ℕ)
      : Type 0 where
    pub kept :
        (c f : ℕ)
        → In f (caches c)
        → (f / 4096 < 64 * words) × (global.bitmap (f / 4096) ≡ true) × (refs (f / 4096) ≡ 0)
    pub distinct : (c : ℕ) → Distinct (caches c)
    pub apart : (c d f g : ℕ) → c ≢ d → In f (caches c) → In g (caches d) → f / 4096 ≢ g / 4096

  pub record IsValid (m : Memory) : Type 0 where
    pub ready : Ready words m.global
    pub owned : (i : ℕ) → i < 64 * words → m.refs i ≢ 0 → m.global.bitmap i ≡ true
    pub cached : CachesValid m.global m.caches m.refs

pub set_at_self : {A : Type 0} (f : ℕ → A) (i : ℕ) (v : A) → set_at f i v i ≡ v
set_at_self f i v = let e : (i == i) ≡ true = ground arith in rw e

pub set_at_ne : {A : Type 0} (f : ℕ → A) (i j : ℕ) (v : A) → j ≢ i → set_at f i v j ≡ f j
set_at_ne f i j v ne = let e : (j == i) ≡ false = ground (arith, ne) in rw e

module _ (words : ℕ) where
  -- A cache is replaced, while frames may have been marked for it.
  pub CachesValid-set :
      (a a' : FrameAllocator) (caches : ℕ → List ℕ) (refs : ℕ → ℕ) (core : ℕ) (fs : List ℕ)
      → CachesValid words a caches refs
      → ((f : ℕ)
          → In f fs
          → (f / 4096 < 64 * words) × (a'.bitmap (f / 4096) ≡ true) × (refs (f / 4096) ≡ 0))
      → Distinct fs
      → ((d f g : ℕ) → d ≢ core → In f fs → In g (caches d) → f / 4096 ≢ g / 4096)
      → ((d f : ℕ) → d ≢ core → In f (caches d) → a'.bitmap (f / 4096) ≡ true)
      → CachesValid words a' (set_at caches core fs) refs
  CachesValid-set a a' caches refs core fs v new single far still = record {
    kept = kept';
    distinct = distinct';
    apart = apart';
  }
    where
      kept' :
          (c f : ℕ)
          → In f (set_at caches core fs c)
          → (f / 4096 < 64 * words) × (a'.bitmap (f / 4096) ≡ true) × (refs (f / 4096) ≡ 0)
      kept' c f m = elim (Bool-cases (c == core)) [
        | inl e ↦ new f (subst (λ b. In f (if b then fs else caches c)) e m)
        | inr e ↦
            let m' : In f (caches c) = subst (λ b. In f (if b then fs else caches c)) e m in
            let (low, used, free) = v.kept c f m' in (low, still c f (ground (arith, e)) m', free)
      ]

      distinct' : (c : ℕ) → Distinct (set_at caches core fs c)
      distinct' c = elim (Bool-cases (c == core)) [
        | inl e ↦ rw e single
        | inr e ↦ rw e (v.distinct c)
      ]

      apart' :
          (c d f g : ℕ)
          → c ≢ d
          → In f (set_at caches core fs c)
          → In g (set_at caches core fs d)
          → f / 4096 ≢ g / 4096
      apart' c d f g ne m n = elim (Bool-cases (c == core)) [
        | inl x ↦ elim (Bool-cases (d == core)) [
          | inl y ↦ λ _. ne (ground (arith, x, y))
          | inr y ↦
              far d f g (ground (arith, y)) (subst (λ b. In f (if b then fs else caches c)) x m)
                (subst (λ b. In g (if b then fs else caches d)) y n)
        ]
        | inr x ↦ elim (Bool-cases (d == core)) [
          | inl y ↦ λ e.
              far c g f (ground (arith, x)) (subst (λ b. In g (if b then fs else caches d)) y n)
                (subst (λ b. In f (if b then fs else caches c)) x m) (sym e)
          | inr y ↦
              v.apart c d f g ne (subst (λ b. In f (if b then fs else caches c)) x m)
                (subst (λ b. In g (if b then fs else caches d)) y n)
        ]
      ]

  pub same_caches :
      (a a' : FrameAllocator) (caches : ℕ → List ℕ) (refs : ℕ → ℕ)
      → CachesValid words a caches refs
      → ((j : ℕ) → a.bitmap j ≡ true → a'.bitmap j ≡ true)
      → CachesValid words a' caches refs
  same_caches a a' caches refs v still = record {
    kept = λ c f m. let (low, used, free) = v.kept c f m in (low, still (f / 4096) used, free);
    distinct = v.distinct;
    apart = v.apart;
  }

  -- A frame that lies in no cache and is marked, and that nobody uses.
  abbrev pub Loose : Memory → ℕ → Type 0
  Loose m f =
      (f / 4096 < 64 * words)
      × (m.global.bitmap (f / 4096) ≡ true)
      × (m.refs (f / 4096) ≡ 0)
      × ((c g : ℕ) → In g (m.caches c) → f / 4096 ≢ g / 4096)

  abbrev pub Obtained : (m : Memory) → Option ℕ × Memory → Type 0
  Obtained m (none, m') = IsValid words m' × (m'.refs ≡ m.refs)
  Obtained m (some f, m') = IsValid words m' × (m'.refs ≡ m.refs) × Loose m' f

  -- A frame fresh from the allocator lies in no cache, and nobody uses it.
  pub Fresh-loose :
      (m : Memory) (a : FrameAllocator) (fs : List ℕ)
      → IsValid words m
      → Fresh words m.global a fs
      → (f : ℕ) → In f fs
      → (m.refs (f / 4096) ≡ 0) × ((c g : ℕ) → In g (m.caches c) → f / 4096 ≢ g / 4096)
  Fresh-loose m a fs v fresh f at =
      let (low, free, now) = fresh f at in
      (
        elim (Bool-cases (m.refs (f / 4096) == 0)) [
          | inl e ↦ ground (arith, e)
          | inr e ↦
              let used = v.owned (f / 4096) low (ground (arith, e)) in
              absurd (ground (arith, used, free))
        ],
        (λ c g n same.
            let (low', used, unref) = v.cached.kept c g n in
            let clash : true ≡ false = sym used ∙ ap m.global.bitmap (sym same) ∙ free in
            absurd (cc)),
      )

  pub direct-Obtained :
      (m : Memory)
      → IsValid words m
      → (f : ℕ) (a : FrameAllocator) → allocate words m.global ≡ some (f, a)
      → Obtained m (some f, record m { global = a })
  direct-Obtained m v f a e =
      let (ready, below, free, taken, newer) = allocate-some words m.global f a v.ready e in
      let fresh : Fresh words m.global a (f ∷ []) = single below free taken in
      let (unref, out) = Fresh-loose m a (f ∷ []) v fresh f (inl refl) in
      (
        record {
          ready = ready;
          owned = λ i low u. newer i (v.owned i low u);
          cached = same_caches m.global a m.caches m.refs v.cached newer;
        },
        refl,
        (below, taken, unref, out),
      )
    where
      single :
          f / 4096 < 64 * words
          → m.global.bitmap (f / 4096) ≡ false
          → a.bitmap (f / 4096) ≡ true
          → Fresh words m.global a (f ∷ [])
      single low free taken g (inl s) = rw s (low, free, taken)
      single low free taken g (inr s) = absurd s
