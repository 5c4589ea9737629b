-- ===== src/FilePath/Jail.antt =====
-- `normalize_jailed` of kernel/src/fs/path.rs does not leave its root.
use kontsnor_os.Prelude.{
  ℕ, zero, Bool, ◌==◌, ◌||◌, ◌≢◌, refl, suc, ◌+◌, ◌-◌, ◌<◌, ◌≡◌, sym, ap, ◌∙◌, inl, inr, false,
  List, [], ◌∷◌, ◌++◌, ltb, Bool-cases, length, take, length-append, arith,
}
use kontsnor_os.FilePath.{
  slash, dot, cons_first, split, skip, up, name, kind, pop, resolve, join_components, parts,
  normalize_jailed,
}
use kontsnor_os.FilePath.Split.{
  split-append, append_assoc, append_nil, Kind-cases, resolve-append, NoDots, resolve-NoDots,
}

take-append_more {ℓ} :
    {A : Type ℓ} (xs ys : List A) (n : ℕ) → take (length xs + n) (xs ++ ys) ≡ xs ++ take n ys
take-append_more [] ys n = ap (λ k. take k ys) (omega arith)
take-append_more (x ∷ xs) ys n =
    let shift : suc (length xs) + n ≡ suc (length xs + n) = omega arith in
    ap (λ k. take k (x ∷ xs ++ ys)) shift ∙ ap (λ r. x ∷ r) (take-append_more xs ys n)

pop-append : (xs ys : List (List ℕ)) → length xs < length (xs ++ ys) → pop (xs ++ ys) ≡ xs ++ pop ys
pop-append xs ys h =
    let sum = length-append xs ys in
    let shift : length (xs ++ ys) - 1 ≡ length xs + (length ys - 1) = omega (arith, sum, h) in
    ap (λ k. take k (xs ++ ys)) shift ∙ take-append_more xs ys (length ys - 1)

abbrev pub has_slash : List ℕ → Bool
has_slash [] = false
has_slash (b ∷ bs) = (b == slash) || has_slash bs

abbrev pub NoSlash : List (List ℕ) → Type 0
NoSlash [] = Unit
NoSlash (c ∷ cs) = (has_slash c ≡ false) × NoSlash cs

-- Names of files: none is empty, "." or "..", and none has a slash.
abbrev pub AllNames : List (List ℕ) → Type 0
AllNames [] = Unit
AllNames (c ∷ cs) =
    ((c ≢ []) × (c ≢ (dot ∷ [])) × (c ≢ (dot ∷ dot ∷ [])) × (has_slash c ≡ false)) × AllNames cs

cons_first-NoSlash :
    (b : ℕ) (cs : List (List ℕ)) → (b == slash) ≡ false → NoSlash cs → NoSlash (cons_first b cs)
cons_first-NoSlash b [] e h = ((rw e refl), tt)
cons_first-NoSlash b (c ∷ cs) e (one, rest) = ((rw (e, one) refl), rest)

split-NoSlash : (bs : List ℕ) → NoSlash (split bs)
unfolding split
split-NoSlash [] = (refl, tt)
split-NoSlash (b ∷ bs) = elim (Bool-cases (b == slash)) [
  | inl e ↦ rw (e, split) (refl, split-NoSlash bs)
  | inr e ↦ rw (e, split) (cons_first-NoSlash b (split bs) e (split-NoSlash bs))
]

kind-name : (c : List ℕ) → kind c ≡ name → (c ≢ []) × (c ≢ (dot ∷ [])) × (c ≢ (dot ∷ dot ∷ []))
unfolding kind
kind-name c e = (
  (λ same. skip_name (sym (ap kind same) ∙ e)),
  (λ same. skip_name (sym (ap kind same) ∙ e)),
  (λ same. up_name (sym (ap kind same) ∙ e)),
)
  where
    skip_name : skip ≡ name → ⊥
    skip_name e = cc

    up_name : up ≡ name → ⊥
    up_name e = cc

take-AllNames : (n : ℕ) (cs : List (List ℕ)) → AllNames cs → AllNames (take n cs)
take-AllNames zero cs h = tt
take-AllNames (suc n) [] h = tt
take-AllNames (suc n) (c ∷ cs) (one, rest) = (one, take-AllNames n cs rest)

append-AllNames : (cs ds : List (List ℕ)) → AllNames cs → AllNames ds → AllNames (cs ++ ds)
append-AllNames [] ds hc hd = hd
append-AllNames (c ∷ cs) ds (one, rest) hd = (one, append-AllNames cs ds rest hd)

-- From a stack that starts with `base`, the loop whose floor is its length keeps it at the front, and puts
-- names behind it.
resolve_above :
    (base more cs : List (List ℕ))
    → AllNames more
    → NoSlash cs
    → (rest : List (List ℕ)) × (resolve (length base) (base ++ more) cs ≡ base ++ rest)
      × AllNames rest
unfolding resolve
resolve_above base more [] names flat = (more, refl, names)
resolve_above base more (c ∷ cs) names (whole, flat) = elim (Kind-cases (kind c)) [
  | inl e ↦
      let (rest, done, good) = resolve_above base more cs names flat in
      (rest, rw (e, resolve) done, good)
  | inr (inl e) ↦
      let (rest, done, good) = resolve_above base more cs names flat in
      let (rest', done', good') =
        resolve_above base (pop more) cs (take-AllNames (length more - 1) more names) flat in
      elim (Bool-cases (ltb (length base) (length (base ++ more)))) [
        | inl l ↦ (
          rest',
          rw (e, l, resolve)
              (ap (λ st. resolve (length base) st cs) (pop-append base more (ground (arith, l)))
                ∙ done'),
          good',
        )
        | inr l ↦ (rest, rw (e, l, resolve) done, good)
      ]
  | inr (inr e) ↦
      let (filled, here, parent) = kind-name c e in
      let (rest, done, good) =
        resolve_above base (more ++ (c ∷ [])) cs
          (append-AllNames more (c ∷ []) names ((filled, here, parent, whole), tt)) flat in
      (
        rest,
        rw (e, resolve)
            (ap (λ st. resolve (length base) st cs) (append_assoc base more (c ∷ [])) ∙ done),
        good,
      )
]

-- When the root has no component "." or "..", any path that goes on from the root, with a slash and
-- then any bytes, ".." components among them, is brought to a slash and components the first of
-- which are those of the root, in order, and the others names of files: none is empty, "." or "..", and
-- none has a slash. So the result lies in the root.
pub normalize_jailed_lem :
    (root rest : List ℕ)
    → NoDots (split root)
    → (inside : List (List ℕ)) × (normalize_jailed (root ++ (slash ∷ rest)) root
        ≡ slash ∷ join_components (parts (split root) ++ inside))
      × AllNames inside
unfolding normalize_jailed
normalize_jailed_lem root rest clean =
    let base = parts (split root) in
    let (inside, above, good) = resolve_above base [] (split rest) tt (split-NoSlash rest) in
    let todo : resolve (length base) [] (split (root ++ (slash ∷ rest))) ≡ base ++ inside =
      ap (resolve (length base) []) (split-append root rest)
      ∙ resolve-append (length base) [] (split root) (split rest)
      ∙ ap (λ st. resolve (length base) st (split rest))
          (resolve-NoDots (length base) [] (split root) clean ∙ sym (append_nil base))
      ∙ above in
    let long : ltb (length (base ++ inside)) (length base) ≡ false =
      ground (arith, length-append base inside) in
    (inside, rw (todo, long), good)
