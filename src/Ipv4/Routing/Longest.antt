-- ===== src/Ipv4/Routing/Longest.antt =====
-- The choice of a route in kernel/src/net/ipv4.rs.
use kontsnor_os.Prelude.{
  ℕ, ◌≤◌, ◌≡◌, refl, sym, true, Bool-cases, ◌⊎◌, inl, inr, List, [], ◌∷◌, ◌++◌, some, leb, arith,
}
use mathlib.Core.Path.{subst}
use kontsnor_os.Ipv4.Routing.{RouteEntry, specificity, insert, sort_onto, add_route, covers, lookup}

-- `r` is one of the routes.
abbrev pub In : RouteEntry → List RouteEntry → Type 0
In r [] = ⊥
In r (x ∷ xs) = (r ≡ x) ⊎ In r xs

-- The most specific come first.
abbrev pub Sorted : List RouteEntry → Type 0
Sorted [] = Unit
Sorted (x ∷ xs) = ((q : RouteEntry) → In q xs → specificity q ≤ specificity x) × Sorted xs

In-insert : (q r : RouteEntry) (t : List RouteEntry) → (q ≡ r) ⊎ In q t → In q (insert r t)
unfolding insert
In-insert q r [] h = h
In-insert q r (x ∷ xs) h = elim (Bool-cases (leb (specificity r) (specificity x))) [
  | inr e ↦ rw e h
  | inl e ↦ rw e (elim h [
    | inl same ↦ inr (In-insert q r xs (inl same))
    | inr (inl same) ↦ inl same
    | inr (inr i) ↦ inr (In-insert q r xs (inr i))
  ])
]

insert-In : (q r : RouteEntry) (t : List RouteEntry) → In q (insert r t) → (q ≡ r) ⊎ In q t
unfolding insert
insert-In q r [] h = h
insert-In q r (x ∷ xs) h = elim (Bool-cases (leb (specificity r) (specificity x))) [
  | inr e ↦ rw e at h
  | inl e ↦
      let h' : (q ≡ x) ⊎ In q (insert r xs) = rw e at h in
      elim h' [
        | inl same ↦ inr (inl same)
        | inr i ↦ elim (insert-In q r xs i) [ inl same ↦ inl same | inr j ↦ inr (inr j) ]
      ]
]

insert-Sorted : (r : RouteEntry) (t : List RouteEntry) → Sorted t → Sorted (insert r t)
unfolding insert
insert-Sorted r [] h = ((λ q i. absurd i), tt)
insert-Sorted r (x ∷ xs) (top, rest) = elim (Bool-cases (leb (specificity r) (specificity x))) [
  | inl e ↦
      let le : specificity r ≤ specificity x = ground (arith, e) in
      rw e (
        (λ q i. elim (insert-In q r xs i) [
          | inl same ↦ subst (λ z. specificity z ≤ specificity x) (sym same) le
          | inr j ↦ top q j
        ]),
        insert-Sorted r xs rest,
      )
  | inr e ↦
      let le : specificity x ≤ specificity r = ground (arith, e) in
      rw e (
        (λ q i. elim i [
          | inl same ↦ subst (λ z. specificity z ≤ specificity r) (sym same) le
          | inr j ↦ let below = top q j in omega (arith, below, le)
        ]),
        (top, rest),
      )
]

sort_onto-Sorted : (sorted rs : List RouteEntry) → Sorted sorted → Sorted (sort_onto sorted rs)
unfolding sort_onto
sort_onto-Sorted sorted [] h = h
sort_onto-Sorted sorted (r ∷ rs) h =
    sort_onto-Sorted (insert r sorted) rs (insert-Sorted r sorted h)

In-sort_onto :
    (q : RouteEntry) (sorted rs : List RouteEntry)
    → In q sorted ⊎ In q rs
    → In q (sort_onto sorted rs)
unfolding sort_onto
In-sort_onto q sorted [] (inl i) = i
In-sort_onto q sorted [] (inr i) = absurd i
In-sort_onto q sorted (r ∷ rs) (inl i) =
    In-sort_onto q (insert r sorted) rs (inl (In-insert q r sorted (inr i)))
In-sort_onto q sorted (r ∷ rs) (inr (inl same)) =
    In-sort_onto q (insert r sorted) rs (inl (In-insert q r sorted (inl same)))
In-sort_onto q sorted (r ∷ rs) (inr (inr i)) = In-sort_onto q (insert r sorted) rs (inr i)

sort_onto-In :
    (q : RouteEntry) (sorted rs : List RouteEntry)
    → In q (sort_onto sorted rs)
    → In q sorted ⊎ In q rs
unfolding sort_onto
sort_onto-In q sorted [] h = inl h
sort_onto-In q sorted (r ∷ rs) h = elim (sort_onto-In q (insert r sorted) rs h) [
  | inr i ↦ inr (inr i)
  | inl i ↦ elim (insert-In q r sorted i) [ inl same ↦ inr (inl same) | inr j ↦ inl j ]
]

In-snoc : (q r : RouteEntry) (t : List RouteEntry) → (q ≡ r) ⊎ In q t → In q (t ++ (r ∷ []))
In-snoc q r [] (inl e) = inl e
In-snoc q r [] (inr i) = absurd i
In-snoc q r (x ∷ xs) (inl e) = inr (In-snoc q r xs (inl e))
In-snoc q r (x ∷ xs) (inr (inl e)) = inl e
In-snoc q r (x ∷ xs) (inr (inr i)) = inr (In-snoc q r xs (inr i))

snoc-In : (q r : RouteEntry) (t : List RouteEntry) → In q (t ++ (r ∷ [])) → (q ≡ r) ⊎ In q t
snoc-In q r [] (inl e) = inl e
snoc-In q r [] (inr i) = absurd i
snoc-In q r (x ∷ xs) (inl e) = inr (inl e)
snoc-In q r (x ∷ xs) (inr i) = elim (snoc-In q r xs i) [ inl e ↦ inl e | inr j ↦ inr (inr j) ]

-- The table after routes are added, in this order.
pub add_all : (added table : List RouteEntry) → List RouteEntry
add_all [] table = table
add_all (r ∷ rs) table = add_all rs (add_route r table)

add_all-Sorted : (added table : List RouteEntry) → Sorted table → Sorted (add_all added table)
unfolding add_all add_route
add_all-Sorted [] table h = h
add_all-Sorted (r ∷ rs) table h =
    add_all-Sorted rs (add_route r table) (sort_onto-Sorted [] (table ++ (r ∷ [])) tt)

In-add_all :
    (q : RouteEntry) (added table : List RouteEntry)
    → In q table ⊎ In q added
    → In q (add_all added table)
unfolding add_all add_route
In-add_all q [] table (inl i) = i
In-add_all q [] table (inr i) = absurd i
In-add_all q (r ∷ rs) table (inr (inr i)) = In-add_all q rs (add_route r table) (inr i)
In-add_all q (r ∷ rs) table (inr (inl e)) =
    In-add_all q rs (add_route r table)
      (inl (In-sort_onto q [] (table ++ (r ∷ [])) (inr (In-snoc q r table (inl e)))))
In-add_all q (r ∷ rs) table (inl i) =
    In-add_all q rs (add_route r table)
      (inl (In-sort_onto q [] (table ++ (r ∷ [])) (inr (In-snoc q r table (inr i)))))

add_all-In :
    (q : RouteEntry) (added table : List RouteEntry)
    → In q (add_all added table)
    → In q table ⊎ In q added
unfolding add_all add_route
add_all-In q [] table h = inl h
add_all-In q (r ∷ rs) table h = elim (add_all-In q rs (add_route r table) h) [
  | inr i ↦ inr (inr i)
  | inl i ↦ elim (sort_onto-In q [] (table ++ (r ∷ [])) i) [
    | inl j ↦ absurd j
    | inr j ↦ elim (snoc-In q r table j) [ inl e ↦ inr (inl e) | inr l ↦ inl l ]
  ]
]

-- In a sorted table the first route that covers an address is as specific as any.
lookup-Sorted :
    (dst : ℕ) (q : RouteEntry) (t : List RouteEntry)
    → Sorted t
    → In q t
    → covers q dst ≡ true
    → (r : RouteEntry) × (lookup dst t ≡ some r)
      × In r t
      × (covers r dst ≡ true)
      × (specificity q ≤ specificity r)
unfolding lookup
lookup-Sorted dst q [] s i c = absurd i
lookup-Sorted dst q (x ∷ xs) (top, rest) i c = elim (Bool-cases (covers x dst)) [
  | inl e ↦ rw e (
    x,
    refl,
    inl refl,
    e,
    (elim i [
      | inl same ↦ subst (λ z. specificity q ≤ specificity z) same (omega arith)
      | inr j ↦ top q j
    ]),
  )
  | inr e ↦ elim i [
    | inl same ↦
        absurd (let both : covers x dst ≡ true = subst (λ z. covers z dst ≡ true) same c in cc)
    | inr j ↦
        let (r, found, at, cov, le) = lookup-Sorted dst q xs rest j c in
        rw e (r, found, inr at, cov, le)
  ]
]

-- When any of the routes that were added to an empty table covers an address, the lookup finds one of
-- them that covers it, and whose netmask has at least as many ones.
pub lookup_longest :
    (added : List RouteEntry) (dst : ℕ) (q : RouteEntry)
    → In q added
    → covers q dst ≡ true
    → (r : RouteEntry) × (lookup dst (add_all added []) ≡ some r)
      × In r added
      × (covers r dst ≡ true)
      × (specificity q ≤ specificity r)
lookup_longest added dst q i c =
    let (r, found, at, cov, le) =
      lookup-Sorted dst q (add_all added []) (add_all-Sorted added [] tt)
        (In-add_all q added [] (inr i)) c in
    (r, found, elim (add_all-In r added [] at) [ inl j ↦ absurd j | inr j ↦ j ], cov, le)
