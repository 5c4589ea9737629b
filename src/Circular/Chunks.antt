-- ===== src/Circular/Chunks.antt =====
-- A block moved in two pieces, up to the end of the storage and from its start, is the same block
-- moved item by item.
use mathlib.Core.Path.{ap₂}
use native.Mathlib.Nat.{mod-add-mod, mod-eq_of_lt, mod_self, add-zero}
use kontsnor_os.Prelude.{
  ℕ, zero, suc, ◌+◌, ◌-◌, ◌%◌, ◌≤◌, ◌<◌, min, ◌≡◌, refl, sym, ap, ◌∙◌, List, [], ◌∷◌, ◌++◌, arith,
  length, get_or, set, take, drop, length-set, length-take, length-drop, take-append-drop,
  take-take, drop-take, ltb, lt→ltb, if◌then◌else◌,
}
use kontsnor_os.Circular.{copy_at, slice, window, write_each}
use native.Mathlib.Decide.{ℕ_discrete}
use kontsnor_os.Circular.Window.{length-window, window-shift, window-append, length-write_each}

module _ {ℓ} {A : Type ℓ} where
  pub copy_at-nil : (buf : List A) (i : ℕ) → copy_at buf i [] ≡ buf
  unfolding copy_at
  copy_at-nil [] i = refl
  copy_at-nil (b ∷ bs) zero = refl
  copy_at-nil (b ∷ bs) (suc i) = ap (λ r. b ∷ r) (copy_at-nil bs i)

  copy_at-cons :
      (buf : List A) (i : ℕ) (x : A) (xs : List A)
      → i < length buf
      → copy_at buf i (x ∷ xs) ≡ copy_at (set buf i x) (suc i) xs
  unfolding copy_at
  copy_at-cons [] i x xs h = absurd (omega arith)
  copy_at-cons (b ∷ bs) zero x xs h = refl
  copy_at-cons (b ∷ bs) (suc i) x xs h = ap (λ r. b ∷ r) (copy_at-cons bs i x xs (omega arith))

  -- A block written at the start is followed by what lay behind its end.
  pub copy_at-start :
      (xs buf : List A) → length xs ≤ length buf → copy_at buf 0 xs ≡ xs ++ drop (length xs) buf
  unfolding copy_at
  copy_at-start [] buf h = copy_at-nil buf 0
  copy_at-start (x ∷ xs) [] h = absurd (omega arith)
  copy_at-start (x ∷ xs) (b ∷ bs) h = ap (λ r. x ∷ r) (copy_at-start xs bs (omega arith))

  -- Two blocks written one behind the other are one block.
  pub copy_at-append :
      (xs ys buf : List A) → copy_at (copy_at buf 0 xs) (length xs) ys ≡ copy_at buf 0 (xs ++ ys)
  unfolding copy_at
  copy_at-append [] ys buf = ap (λ b. copy_at b 0 ys) (copy_at-nil buf 0)
  copy_at-append (x ∷ xs) ys [] = refl
  copy_at-append (x ∷ xs) ys (b ∷ bs) = ap (λ r. x ∷ r) (copy_at-append xs ys bs)

  drop-cons :
      (d : A) (buf : List A) (i : ℕ)
      → i < length buf
      → drop i buf ≡ get_or buf i d ∷ drop (suc i) buf
  drop-cons d [] i h = absurd (omega arith)
  drop-cons d (b ∷ bs) zero h = refl
  drop-cons d (b ∷ bs) (suc i) h = drop-cons d bs i (omega arith)

module _ {ℓ} {A : Type ℓ} (cap : ℕ) where
  write_each-append :
      (xs ys buf : List A) (h : ℕ)
      → write_each cap buf h (xs ++ ys)
        ≡ write_each cap (write_each cap buf h xs) (h + length xs) ys
  unfolding write_each
  write_each-append [] ys buf h = ap (λ t. write_each cap buf t ys) (sym (add-zero h))
  write_each-append (x ∷ xs) ys buf h =
      write_each-append xs ys (set buf (h % cap) x) (h + 1)
      ∙ ap (λ t. write_each cap (write_each cap (set buf (h % cap) x) (h + 1) xs) t ys)
          (omega arith)

  pub write_each-shift :
      (xs buf : List A) (h k : ℕ)
      → h % cap ≡ k % cap
      → write_each cap buf h xs ≡ write_each cap buf k xs
  unfolding write_each
  write_each-shift [] buf h k e = refl
  write_each-shift (x ∷ xs) buf h k e =
      write_each-shift xs (set buf (h % cap) x) (h + 1) (k + 1)
        (sym (mod-add-mod h cap 1) ∙ ap (λ t. (t + 1) % cap) e ∙ mod-add-mod k cap 1)
      ∙ ap (λ t. write_each cap (set buf t x) (k + 1) xs) e

  copy_at-eq-write_each :
      (xs buf : List A) (i : ℕ)
      → length buf ≡ cap
      → i + length xs ≤ cap
      → copy_at buf i xs ≡ write_each cap buf i xs
  unfolding write_each
  copy_at-eq-write_each [] buf i len fits = copy_at-nil buf i
  copy_at-eq-write_each (x ∷ xs) buf i len fits =
      copy_at-cons buf i x xs (omega arith)
      ∙ copy_at-eq-write_each xs (set buf i x) (suc i) (length-set buf i x ∙ len) (omega arith)
      ∙ ap₂ (λ s t. write_each cap (set buf s x) t xs)
          (sym (mod-eq_of_lt {n = i} {m = cap} (omega arith))) (omega arith)

  write_each_wrap :
      (xs buf : List A) (t : ℕ)
      → (0 < length xs → t % cap ≡ 0)
      → write_each cap buf 0 xs ≡ write_each cap buf t xs
  unfolding write_each
  write_each_wrap [] buf t e = refl
  write_each_wrap (x ∷ xs) buf t e =
      write_each-shift (x ∷ xs) buf 0 t (mod-zero ∙ sym (e (omega arith)))
    where
      mod-zero : 0 % cap ≡ 0
      mod-zero = omega arith

  -- The copy in two pieces of `push_slice`.
  pub two_copies :
      (src buf : List A) (i : ℕ)
      → length buf ≡ cap
      → i < cap
      → length src ≤ cap
      → let first = min (length src) (cap - i) in
        copy_at (copy_at buf i (take first src)) 0 (drop first src) ≡ write_each cap buf i src
  two_copies src buf i len at_lt fits =
      ap (λ b. copy_at b 0 back)
        (copy_at-eq-write_each front buf i len (omega (arith, length-take first src)))
      ∙ copy_at-eq-write_each back written 0 (length-write_each cap front buf i ∙ len)
          (omega (arith, length-drop first src))
      ∙ write_each_wrap back written (i + length front) wraps
      ∙ sym (write_each-append front back buf i)
      ∙ ap (write_each cap buf i) (take-append-drop first src)
    where
      first : ℕ
      first = min (length src) (cap - i)

      front : List A
      front = take first src

      back : List A
      back = drop first src

      written : List A
      written = write_each cap buf i front

      wraps : 0 < length back → (i + length front) % cap ≡ 0
      wraps more = ap (λ t. t % cap) at_end ∙ mod_self cap
        where
          at_end : i + length front ≡ cap
          at_end = omega (arith, length-take first src, length-drop first src)

module _ {ℓ} {A : Type ℓ} (d : A) (cap : ℕ) where
  slice-eq-window :
      (n : ℕ) (buf : List A) (i : ℕ)
      → length buf ≡ cap
      → i + n ≤ cap
      → slice buf i n ≡ window d cap buf i n
  slice-eq-window zero buf i len fits = refl
  slice-eq-window (suc n) buf i len fits =
      ap (take (suc n)) (drop-cons d buf i (omega arith))
      ∙ ap₂ ◌∷◌ (ap (λ t. get_or buf t d) (sym (mod-eq_of_lt {n = i} {m = cap} (omega arith)))) (
          slice-eq-window n buf (suc i) len (omega arith)
          ∙ ap (λ t. window d cap buf t n) (omega arith))

  window_wrap :
      (buf : List A) (n t : ℕ) → (0 < n → t % cap ≡ 0) → window d cap buf 0 n ≡ window d cap buf t n
  window_wrap buf zero t e = refl
  window_wrap buf (suc n) t e =
      window-shift d cap buf 0 t (suc n) (mod-zero ∙ sym (e (omega arith)))
    where
      mod-zero : 0 % cap ≡ 0
      mod-zero = omega arith

  -- The two slices of `pop_slice`.
  pub two_slices :
      (n : ℕ) (buf : List A) (i : ℕ)
      → length buf ≡ cap
      → i < cap
      → n ≤ cap
      → let first = min n (cap - i) in
        slice buf i first ++ slice buf 0 (n - first) ≡ window d cap buf i n
  two_slices n buf i len at_lt fits =
      ap₂ ◌++◌ (slice-eq-window first buf i len (omega arith)) (
        slice-eq-window (n - first) buf 0 len (omega arith)
        ∙ window_wrap buf (n - first) (i + first) wraps)
      ∙ sym (window-append d cap buf i first (n - first))
      ∙ ap (window d cap buf i) (omega arith)
    where
      first : ℕ
      first = min n (cap - i)

      wraps : 0 < n - first → (i + first) % cap ≡ 0
      wraps more = ap (λ t. t % cap) at_end ∙ mod_self cap
        where
          at_end : i + first ≡ cap
          at_end = omega arith

-- A second piece of no items is not copied.
module _ {ℓ} {A : Type ℓ} (cap : ℕ) where
  pub guarded_copies :
      (m : ℕ) (src buf : List A) (i : ℕ)
      → length buf ≡ cap
      → i < cap
      → m ≤ cap
      → m ≤ length src
      → let first = min m (cap - i) in
        let once = copy_at buf i (take first src) in
        (if ltb 0 (m - first) then copy_at once 0 (take (m - first) (drop first src)) else once)
        ≡ write_each cap buf i (take m src)
  guarded_copies m src buf i len at_lt fits enough =
      guard_nothing
      ∙ ap₂ (λ x y. copy_at (copy_at buf i x) 0 y) front back
      ∙ two_copies cap (take m src) buf i len at_lt (omega (arith, length-take m src))
    where
      first : ℕ
      first = min m (cap - i)

      same : min (length (take m src)) (cap - i) ≡ first
      same = omega (arith, length-take m src)

      front : take first src ≡ take (min (length (take m src)) (cap - i)) (take m src)
      front = rw same (sym (take-take first m src (omega arith)))

      back :
          take (m - first) (drop first src)
          ≡ drop (min (length (take m src)) (cap - i)) (take m src)
      back = rw same (sym (drop-take first m src))

      guard_nothing :
          (if ltb 0 (m - first)
            then copy_at (copy_at buf i (take first src)) 0 (take (m - first) (drop first src))
            else copy_at buf i (take first src))
          ≡ copy_at (copy_at buf i (take first src)) 0 (take (m - first) (drop first src))
      guard_nothing = elim (ℕ_discrete (m - first) 0) [
        | yes e ↦ rw e (sym (copy_at-nil (copy_at buf i (take first src)) 0))
        | no ne ↦ rw (lt→ltb 0 (m - first) (omega arith))
      ]

module _ {ℓ} {A : Type ℓ} (d : A) (cap : ℕ) where
  pub guarded_slices :
      (n : ℕ) (buf dst : List A) (i : ℕ)
      → length buf ≡ cap
      → i < cap
      → n ≤ cap
      → n ≤ length dst
      → let first = min n (cap - i) in
        let once = copy_at dst 0 (slice buf i first) in
        (if ltb 0 (n - first) then copy_at once first (slice buf 0 (n - first)) else once)
        ≡ window d cap buf i n ++ drop n dst
  guarded_slices n buf dst i len at_lt fits room =
      guard_nothing
      ∙ ap (λ t. copy_at (copy_at dst 0 front) t back) (sym length_front)
      ∙ copy_at-append front back dst
      ∙ ap (copy_at dst 0) (two_slices d cap n buf i len at_lt fits)
      ∙ copy_at-start items dst (omega (arith, length_items))
      ∙ ap (λ t. items ++ drop t dst) length_items
    where
      first : ℕ
      first = min n (cap - i)

      front : List A
      front = slice buf i first

      back : List A
      back = slice buf 0 (n - first)

      items : List A
      items = window d cap buf i n

      length_items : length items ≡ n
      length_items = length-window d cap buf i n

      length_front : length front ≡ first
      length_front = omega (arith, length-take first (drop i buf), length-drop i buf)

      guard_nothing :
          (if ltb 0 (n - first)
            then copy_at (copy_at dst 0 front) first back
            else copy_at dst 0 front)
          ≡ copy_at (copy_at dst 0 front) first back
      guard_nothing = elim (ℕ_discrete (n - first) 0) [
        | yes e ↦ rw e (sym (copy_at-nil (copy_at dst 0 front) first))
        | no ne ↦ rw (lt→ltb 0 (n - first) (omega arith))
      ]
