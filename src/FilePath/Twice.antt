-- ===== src/FilePath/Twice.antt =====
-- What the loop over the components of a path leaves, and a second run of it
-- (`normalize` and `normalize_jailed` of kernel/src/fs/path.rs).
use kontsnor_os.Prelude.{
  ℕ, zero, suc, ◌-◌, ◌≡◌, refl, ap, ◌∙◌, inl, inr, List, [], ◌∷◌, ◌++◌, ltb, Bool-cases, length,
  take, arith,
}
use kontsnor_os.FilePath.{kind, name, pop, resolve, parts}
use kontsnor_os.FilePath.Split.{Kind-cases, NoDots, resolve-NoDots}

-- No component is empty, "." or "..".
unfoldable pub AllNames : List (List ℕ) → Type 0
AllNames [] = Unit
AllNames (c ∷ cs) = (kind c ≡ name) × AllNames cs

take-AllNames : (n : ℕ) (cs : List (List ℕ)) → AllNames cs → AllNames (take n cs)
unfolding AllNames
take-AllNames zero cs h = tt
take-AllNames (suc n) [] h = tt
take-AllNames (suc n) (c ∷ cs) h = (h.0, take-AllNames n cs h.1)

append-AllNames :
    (cs : List (List ℕ)) (c : List ℕ) → AllNames cs → kind c ≡ name → AllNames (cs ++ (c ∷ []))
unfolding AllNames
append-AllNames [] c h e = (e, tt)
append-AllNames (d ∷ cs) c h e = (h.0, append-AllNames cs c h.1 e)

resolve-AllNames :
    (floor : ℕ) (st cs : List (List ℕ)) → AllNames st → AllNames (resolve floor st cs)
unfolding resolve
resolve-AllNames floor st [] h = h
resolve-AllNames floor st (c ∷ cs) h = elim (Kind-cases (kind c)) [
  | inl e ↦ rw (e, resolve) (resolve-AllNames floor st cs h)
  | inr (inl e) ↦
      let popped = resolve-AllNames floor (pop st) cs (take-AllNames (length st - 1) st h) in
      let kept = resolve-AllNames floor st cs h in
      elim (Bool-cases (ltb floor (length st))) [
        | inl l ↦ rw (e, l, resolve) popped
        | inr l ↦ rw (e, l, resolve) kept
      ]
  | inr (inr e) ↦
      rw (e, resolve) (resolve-AllNames floor (st ++ (c ∷ [])) cs (append-AllNames st c h e))
]

AllNames-NoDots : (cs : List (List ℕ)) → AllNames cs → NoDots cs × (parts cs ≡ cs)
unfolding AllNames NoDots parts kind
AllNames-NoDots [] h = (tt, refl)
AllNames-NoDots ([] ∷ cs) h = absurd (ground (arith, h.0))
AllNames-NoDots ((b ∷ bs) ∷ cs) h =
    let (clean, same) = AllNames-NoDots cs h.1 in ((h.0, clean), ap (λ r. (b ∷ bs) ∷ r) same)

-- The loop over the components leaves no component that is empty, "." or "..", and a second run of
-- it over what it left changes nothing, whatever the floor of either run.
pub resolve_twice :
    (floor floor' : ℕ) (cs : List (List ℕ))
    → AllNames (resolve floor [] cs)
      × (resolve floor' [] (resolve floor [] cs) ≡ resolve floor [] cs)
unfolding AllNames
resolve_twice floor floor' cs =
    let names = resolve-AllNames floor [] cs tt in
    let (clean, same) = AllNames-NoDots (resolve floor [] cs) names in
    (names, resolve-NoDots floor' [] (resolve floor [] cs) clean ∙ same)
