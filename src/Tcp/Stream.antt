-- ===== src/Tcp/Stream.antt =====
-- The stream that the remote side of a connection sends (kernel/src/net/tcp.rs reassembles it), and
-- its stretches, of which segments and queue entries are some.
use kontsnor_os.Prelude.{
  ℕ, zero, suc, ◌+◌, ◌-◌, ◌≤◌, ◌≡◌, refl, sym, ap, ◌∙◌, List, [], ◌∷◌, ◌++◌, length, take, drop,
  length-drop, length-take, drop-take, arith,
}
use native.Mathlib.Numerals.{unary_clauses}

drop-drop : {A : Type 0} (n m : ℕ) (xs : List A) → drop n (drop m xs) ≡ drop (m + n) xs
drop-drop n zero xs = ap (λ k. drop k xs) (omega arith)
drop-drop zero (suc m) [] = simp unary_clauses refl
drop-drop (suc n) (suc m) [] = simp unary_clauses refl
drop-drop n (suc m) (x ∷ xs) =
    let shift : suc m + n ≡ suc (m + n) = omega arith in
    drop-drop n m xs ∙ ap (λ k. drop k (x ∷ xs)) (sym shift)

take-add : {A : Type 0} (n m : ℕ) (xs : List A) → take n xs ++ take m (drop n xs) ≡ take (n + m) xs
take-add zero m xs = ap (λ k. take k xs) (omega arith)
take-add (suc n) zero [] = simp unary_clauses refl
take-add (suc n) (suc m) [] = simp unary_clauses refl
take-add (suc n) m (x ∷ xs) =
    let shift : suc n + m ≡ suc (n + m) = omega arith in
    ap (λ l. x ∷ l) (take-add n m xs) ∙ ap (λ k. take k (x ∷ xs)) (sym shift)

-- The list `v` stands in `data` from the position `p` on.
abbrev pub Sits : (stream : List ℕ) (p : ℕ) (v : List ℕ) → Type 0
Sits stream p v = (p + length v ≤ length stream) × (v ≡ take (length v) (drop p stream))

pub Sits-drop :
    (stream : List ℕ) (p n : ℕ) (v : List ℕ)
    → n ≤ length v
    → Sits stream p v
    → Sits stream (p + n) (drop n v)
Sits-drop stream p n v le h =
    let len = length-drop n v in
    let moved : drop n v ≡ take (length v - n) (drop (p + n) stream) =
      ap (drop n) h.1
      ∙ drop-take n (length v) (drop p stream)
      ∙ ap (take (length v - n)) (drop-drop n p stream) in
    (omega (arith, len, le, h.0), moved ∙ ap (λ k. take k (drop (p + n) stream)) (sym len))

-- What lies behind the bytes that have come extends them.
pub Sits-extends :
    (stream : List ℕ) (p : ℕ) (v : List ℕ)
    → Sits stream p v
    → take p stream ++ v ≡ take (p + length v) stream
Sits-extends stream p v h = ap (λ l. take p stream ++ l) h.1 ∙ take-add p (length v) stream

pub length-slice :
    (stream : List ℕ) (p n : ℕ) → p + n ≤ length stream → length (take n (drop p stream)) ≡ n
length-slice stream p n le =
    let a = length-take n (drop p stream) in let b = length-drop p stream in omega (arith, a, b, le)

pub Sits-slice :
    (stream : List ℕ) (p n : ℕ) → p + n ≤ length stream → Sits stream p (take n (drop p stream))
Sits-slice stream p n le =
    let len = length-slice stream p n le in
    (omega (arith, len, le), ap (λ k. take k (drop p stream)) (sym len))
