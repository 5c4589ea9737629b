-- ===== src/FilePath/Split.antt =====
-- Splitting and resolving the components of a path (kernel/src/fs/path.rs).
use kontsnor_os.Prelude.{
  ℕ, ◌<◌, ◌≡◌, refl, sym, ap, ◌∙◌, inl, inr, ◌⊎◌, List, [], ◌∷◌, ◌++◌, ltb, ◌==◌, if◌then◌else◌,
  Bool-cases, length, arith,
}
use kontsnor_os.FilePath.{slash, cons_first, split, Kind, skip, up, name, kind, pop, resolve, parts}

length-split : (bs : List ℕ) → 0 < length (split bs)
unfolding split
length-split [] = omega arith
length-split (b ∷ bs) = elim (Bool-cases (b == slash)) [
  | inl e ↦ rw (e, split) (omega arith)
  | inr e ↦ rw (e, split) (longer (split bs))
]
  where
    longer : (cs : List (List ℕ)) → 0 < length (cons_first b cs)
    longer [] = omega arith
    longer (c ∷ cs) = omega arith

cons_first-append :
    (b : ℕ) (cs ds : List (List ℕ))
    → 0 < length cs
    → cons_first b (cs ++ ds) ≡ cons_first b cs ++ ds
cons_first-append b [] ds h = absurd (omega arith)
cons_first-append b (c ∷ cs) ds h = refl

pub split-append : (xs ys : List ℕ) → split (xs ++ (slash ∷ ys)) ≡ split xs ++ split ys
unfolding split
split-append [] ys = refl
split-append (b ∷ bs) ys = elim (Bool-cases (b == slash)) [
  | inl e ↦ rw (e, split) (ap (λ r. [] ∷ r) (split-append bs ys))
  | inr e ↦
      rw (e, split)
        (ap (cons_first b) (split-append bs ys)
          ∙ cons_first-append b (split bs) (split ys) (length-split bs))
]

pub append_assoc {ℓ} : {A : Type ℓ} (xs ys zs : List A) → (xs ++ ys) ++ zs ≡ xs ++ (ys ++ zs)
append_assoc [] ys zs = refl
append_assoc (x ∷ xs) ys zs = ap (λ r. x ∷ r) (append_assoc xs ys zs)

pub append_nil {ℓ} : {A : Type ℓ} (xs : List A) → xs ++ [] ≡ xs
append_nil [] = refl
append_nil (x ∷ xs) = ap (λ r. x ∷ r) (append_nil xs)

pub Kind-cases : (k : Kind) → (k ≡ skip) ⊎ ((k ≡ up) ⊎ (k ≡ name))
Kind-cases skip = inl refl
Kind-cases up = inr (inl refl)
Kind-cases name = inr (inr refl)

module _ (floor : ℕ) where
  pub resolve-append :
      (st cs ds : List (List ℕ))
      → resolve floor st (cs ++ ds) ≡ resolve floor (resolve floor st cs) ds
  unfolding resolve
  resolve-append st [] ds = refl
  resolve-append st (c ∷ cs) ds = elim (Kind-cases (kind c)) [
    | inl e ↦ rw (e, resolve) (resolve-append st cs ds)
    | inr (inl e) ↦
        rw (e, resolve) (resolve-append (if ltb floor (length st) then pop st else st) cs ds)
    | inr (inr e) ↦ rw (e, resolve) (resolve-append (st ++ (c ∷ [])) cs ds)
  ]

-- The components of a path that are neither "." nor "..".
unfoldable pub NoDots : List (List ℕ) → Type 0
NoDots [] = Unit
NoDots ([] ∷ cs) = NoDots cs
NoDots ((b ∷ bs) ∷ cs) = (kind (b ∷ bs) ≡ name) × NoDots cs

pub resolve-NoDots :
    (floor : ℕ) (st cs : List (List ℕ)) → NoDots cs → resolve floor st cs ≡ st ++ parts cs
unfolding NoDots resolve parts kind
resolve-NoDots floor st [] h = sym (append_nil st)
resolve-NoDots floor st ([] ∷ cs) h = resolve-NoDots floor st cs h
resolve-NoDots floor st ((b ∷ bs) ∷ cs) h =
    rw (h.0, resolve)
      (resolve-NoDots floor (st ++ ((b ∷ bs) ∷ [])) cs h.1
        ∙ append_assoc st ((b ∷ bs) ∷ []) (parts cs))
