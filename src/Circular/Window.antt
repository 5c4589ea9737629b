-- ===== src/Circular/Window.antt =====
-- What a write of one item does to the items between two counters of a circular storage.
use Prim.Native.Nat.add
use mathlib.Core.Path.{ap₂}
use mathlib.Core.List.{append-nil, append_assoc}
use native.Mathlib.Nat.{mod-add-mod, mod-eq_of_lt, mod-eq-sub-mod, mod-lt, add-zero}
use native.Mathlib.Decide.{dec_lt}
use kontsnor_os.Prelude.{
  ℕ, zero, suc, ◌+◌, ◌-◌, ◌%◌, ◌≤◌, ◌<◌, ◌≡◌, refl, sym, ap, ◌∙◌, ◌≢◌, List, [], ◌∷◌, ◌++◌, arith,
  length, get_or, set, take, drop, length-set,
}
use kontsnor_os.Circular.{window, write_each}

-- Two counters less than `cap` apart address different slots.
mod_ne : (cap a d : ℕ) → 0 < d → d < cap → a % cap ≢ (a + d) % cap
mod_ne cap a d pos_d small = elim (dec_lt (a % cap + d) cap) [
  | yes p ↦ omega (arith, mod-add-mod a cap d, mod-eq_of_lt p)
  | no p ↦ omega (
    arith,
    mod-add-mod a cap d,
    mod-lt a {m = cap} (omega arith),
    mod-eq-sub-mod {n = a % cap + d} {m = cap} (omega arith),
    mod-eq_of_lt {n = a % cap + d - cap} {m = cap}
        (omega (arith, mod-lt a {m = cap} (omega arith))),
  )
]

module _ {ℓ} {A : Type ℓ} (d : A) (cap : ℕ) where
  get_or-set_self : (xs : List A) (i : ℕ) (v : A) → i < length xs → get_or (set xs i v) i d ≡ v
  get_or-set_self [] i v h = absurd (omega arith)
  get_or-set_self (x ∷ xs) zero v h = refl
  get_or-set_self (x ∷ xs) (suc i) v h = get_or-set_self xs i v (omega arith)

  get_or-set_ne : (xs : List A) (i j : ℕ) (v : A) → i ≢ j → get_or (set xs i v) j d ≡ get_or xs j d
  get_or-set_ne [] i j v h = refl
  get_or-set_ne (x ∷ xs) zero zero v h = absurd (h refl)
  get_or-set_ne (x ∷ xs) zero (suc j) v h = refl
  get_or-set_ne (x ∷ xs) (suc i) zero v h = refl
  get_or-set_ne (x ∷ xs) (suc i) (suc j) v h = get_or-set_ne xs i j v (λ e. h (ap suc e))

  pub length-window : (buf : List A) (h n : ℕ) → length (window d cap buf h n) ≡ n
  length-window buf h zero = refl
  length-window buf h (suc n) = ap suc (length-window buf (h + 1) n)

  -- Counters that address the same slots give the same items.
  pub window-shift :
      (buf : List A) (h k n : ℕ) → h % cap ≡ k % cap → window d cap buf h n ≡ window d cap buf k n
  window-shift buf h k zero e = refl
  window-shift buf h k (suc n) e =
      ap₂ ◌∷◌ (ap (λ t. get_or buf t d) e) (window-shift buf (h + 1) (k + 1) n next)
    where
      next : (h + 1) % cap ≡ (k + 1) % cap
      next = sym (mod-add-mod h cap 1) ∙ ap (λ t. (t + 1) % cap) e ∙ mod-add-mod k cap 1

  pub window-append :
      (buf : List A) (h n m : ℕ)
      → window d cap buf h (n + m) ≡ window d cap buf h n ++ window d cap buf (h + n) m
  window-append buf h zero m =
      ap (window d cap buf h) (add.zero m) ∙ ap (λ t. window d cap buf t m) (sym (add-zero h))
  window-append buf h (suc n) m =
      ap (window d cap buf h) (add.suc n m)
      ∙ ap (λ r. get_or buf (h % cap) d ∷ r)
          (window-append buf (h + 1) n m
            ∙ ap (λ t. window d cap buf (h + 1) n ++ window d cap buf t m) (omega arith))

  pub window-take :
      (buf : List A) (h n m : ℕ) → m ≤ n → window d cap buf h m ≡ take m (window d cap buf h n)
  window-take buf h n zero le = refl
  window-take buf h zero (suc m) le = absurd (omega arith)
  window-take buf h (suc n) (suc m) le =
      ap (λ r. get_or buf (h % cap) d ∷ r) (window-take buf (h + 1) n m (omega arith))

  pub window-drop :
      (buf : List A) (h n m : ℕ)
      → m ≤ n
      → window d cap buf (h + m) (n - m) ≡ drop m (window d cap buf h n)
  window-drop buf h n zero le = ap₂ (window d cap buf) (omega arith) (omega arith)
  window-drop buf h zero (suc m) le = absurd (omega arith)
  window-drop buf h (suc n) (suc m) le =
      ap₂ (window d cap buf) (omega arith) (omega arith) ∙ window-drop buf (h + 1) n m (omega arith)

  -- A write outside the slots of a window leaves it alone.
  window-set_ne :
      (buf : List A) (h n i : ℕ) (x : A)
      → ((k : ℕ) → k < n → i ≢ (h + k) % cap)
      → window d cap (set buf i x) h n ≡ window d cap buf h n
  window-set_ne buf h zero i x off = refl
  window-set_ne buf h (suc n) i x off =
      ap₂ ◌∷◌ (get_or-set_ne buf i (h % cap) x (rw add-zero at (off 0 (omega arith))))
        (window-set_ne buf (h + 1) n i x rest)
    where
      rest : (k : ℕ) → k < n → i ≢ (h + 1 + k) % cap
      rest k lt e = off (k + 1) (omega arith) (e ∙ ap (λ t. t % cap) (omega arith))

  -- A write behind the last item of a window that is not full adds that item.
  pub window-set :
      (buf : List A) (h n : ℕ) (x : A)
      → length buf ≡ cap
      → n < cap
      → window d cap (set buf ((h + n) % cap) x) h (n + 1) ≡ window d cap buf h n ++ (x ∷ [])
  window-set buf h n x len small =
      window-append (set buf i x) h n 1
      ∙ ap₂ ◌++◌ (window-set_ne buf h n i x off)
          (ap (λ y. y ∷ []) (get_or-set_self buf i x (omega (arith, mod-lt (h + n) {m = cap}))))
    where
      i : ℕ
      i = (h + n) % cap

      off : (k : ℕ) → k < n → i ≢ (h + k) % cap
      off k lt e =
          mod_ne cap (h + k) (n - k) (omega arith) (omega arith)
            (sym e ∙ ap (λ t. t % cap) (omega arith))

  -- Items written one by one behind a window follow it, as long as all of them fit.
  pub window-write_each :
      (xs : List A) (buf : List A) (h n : ℕ)
      → length buf ≡ cap
      → n + length xs ≤ cap
      → window d cap (write_each cap buf (h + n) xs) h (n + length xs) ≡ window d cap buf h n ++ xs
  unfolding write_each
  window-write_each [] buf h n len fits = rw (add-zero, append-nil)
  window-write_each (x ∷ xs) buf h n len fits =
      ap₂ (λ t m. window d cap (write_each cap next t xs) h m) (omega arith) (omega arith)
      ∙ window-write_each xs next h (n + 1) (length-set buf ((h + n) % cap) x ∙ len) (omega arith)
      ∙ ap (λ w. w ++ xs) (window-set buf h n x len (omega arith))
      ∙ append_assoc (window d cap buf h n) (x ∷ []) xs
    where
      next : List A
      next = set buf ((h + n) % cap) x

module _ {ℓ} {A : Type ℓ} (cap : ℕ) where
  pub length-write_each :
      (xs : List A) (buf : List A) (h : ℕ) → length (write_each cap buf h xs) ≡ length buf
  unfolding write_each
  length-write_each [] buf h = refl
  length-write_each (x ∷ xs) buf h =
      length-write_each xs (set buf (h % cap) x) (h + 1) ∙ length-set buf (h % cap) x
