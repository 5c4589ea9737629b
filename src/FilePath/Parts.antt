-- ===== src/FilePath/Parts.antt =====
-- The directory and the file name of a path (kernel/src/fs/path.rs).
use kontsnor_os.Prelude.{
  ℕ, zero, suc, ◌+◌, ◌≡◌, ap, ◌∙◌, inl, inr, ◌⊎◌, List, [], ◌∷◌, ◌++◌, none, some, ◌==◌, Bool-cases,
  Option-cases, take, drop, arith,
}
use mathlib.Core.Path.{subst}
use kontsnor_os.FilePath.{slash, dot, rfind_slash, split_path, basename, dirname}

rfind_slash_cut :
    (path : List ℕ) (pos : ℕ)
    → rfind_slash path ≡ some pos
    → (path ≡ take pos path ++ (slash ∷ drop (suc pos) path))
      × (rfind_slash (drop (suc pos) path) ≡ none)
unfolding rfind_slash
rfind_slash_cut [] pos h = absurd (ground (arith, h))
rfind_slash_cut (b ∷ bs) zero h = elim (Option-cases (rfind_slash bs)) [
  | inl e ↦ let is_slash : b ≡ slash = ground (arith, h, e) in (ap (λ x. x ∷ bs) is_slash, e)
  | inr (i, e) ↦ absurd (ground (arith, h, e))
]
rfind_slash_cut (b ∷ bs) (suc pos) h = elim (Option-cases (rfind_slash bs)) [
  | inl e ↦ absurd (ground (arith, h, e))
  | inr (i, e) ↦
      let (whole, last) = rfind_slash_cut bs pos (ground (arith, h, e)) in
      (ap (λ xs. b ∷ xs) whole, last)
]

rfind_slash-some :
    (path : List ℕ) (pos : ℕ)
    → rfind_slash path ≡ some pos
    → (path ≡ take pos path ++ (slash ∷ drop (pos + 1) path))
      × (rfind_slash (drop (pos + 1) path) ≡ none)
rfind_slash-some path pos h =
    let next : suc pos ≡ pos + 1 = omega arith in
    subst
      (λ n. (path ≡ take pos path ++ (slash ∷ drop n path)) × (rfind_slash (drop n path) ≡ none))
      next (rfind_slash_cut path pos h)

-- What a path is put together from.
unfoldable pub IsRebuilt : List ℕ → Type 0
IsRebuilt path =
    ((dirname path ≡ dot ∷ []) × (path ≡ basename path))
    ⊎ (((dirname path ≡ slash ∷ []) × (path ≡ slash ∷ basename path))
        ⊎ (path ≡ dirname path ++ (slash ∷ basename path)))

-- split_path gives dirname and basename; the base name has no slash; and the path is the base name
-- alone, with "." for the directory, or a slash and the base name, with "/" for the directory, or
-- the directory, a slash and the base name.
pub split_path_lem :
    (path : List ℕ)
    → (split_path path ≡ (dirname path, basename path))
      × (rfind_slash (basename path) ≡ none)
      × IsRebuilt path
unfolding IsRebuilt split_path dirname basename
split_path_lem path = elim (Option-cases (rfind_slash path)) [
  | inl e ↦ (
    rw (e, split_path, dirname, basename),
    rw (e, basename) e,
    inl (rw (e, dirname), rw (e, basename)),
  )
  | inr (pos, e) ↦
      let (whole, last) = rfind_slash-some path pos e in
      elim (Bool-cases (pos == 0)) [
        | inl z ↦
            let first : pos ≡ 0 = ground (arith, z) in
            (
              rw (e, z, first, split_path, dirname, basename),
              rw (e, basename) last,
              inr (
                  inl (
                    rw (e, z, dirname),
                    rw (e, basename)
                        (whole ∙ ap (λ n. take n path ++ (slash ∷ drop (pos + 1) path)) first),
                  )),
            )
        | inr z ↦ (
          rw (e, z, split_path, dirname, basename),
          rw (e, basename) last,
          inr (inr (rw (e, z, dirname, basename) whole)),
        )
      ]
]
