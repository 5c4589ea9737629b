-- ===== src/FilePath.antt =====
-- Path strings: kernel/src/fs/path.rs. A `str` is the list of its bytes.
pub mod Split
pub mod Jail
pub mod Parts
pub mod Twice
mod Tests
use kontsnor_os.Prelude.{
  ℕ, zero, suc, ◌+◌, ◌-◌, Bool, true, false, List, [], ◌∷◌, ◌++◌, Option, none, some, ltb, ◌==◌,
  ◌&&◌, not, if◌then◌else◌, length, take, drop,
}

abbrev pub slash : ℕ
slash = 47

abbrev pub dot : ℕ
dot = 46

abbrev pub starts_with_slash : List ℕ → Bool
starts_with_slash [] = false
starts_with_slash (b ∷ bs) = b == slash

abbrev pub ends_with_slash : List ℕ → Bool
ends_with_slash [] = false
ends_with_slash (b ∷ []) = b == slash
ends_with_slash (b ∷ c ∷ bs) = ends_with_slash (c ∷ bs)

-- `is_normalized` at the end of a component: it is not empty, not "." and not "..".
pub is_clean : List ℕ → Bool
is_clean [] = false
is_clean (a ∷ []) = not (a == dot)
is_clean (a ∷ b ∷ []) = not ((a == dot) && (b == dot))
is_clean (a ∷ b ∷ c ∷ bs) = true

-- Both loops of `is_normalized`: `comp` are the bytes between `start` and `i`.
pub clean_from : (comp bytes : List ℕ) → Bool
clean_from [] [] = true
clean_from (c ∷ cs) [] = is_clean (c ∷ cs)
clean_from comp (b ∷ bs) =
    let rest = clean_from [] bs in
    let further = clean_from (comp ++ (b ∷ [])) bs in
    if b == slash then is_clean comp && rest else further

pub is_normalized : List ℕ → Bool
is_normalized [] = false
is_normalized (b ∷ []) = if b == slash then true else clean_from [] (b ∷ [])
is_normalized (b ∷ c ∷ bs) =
    if ends_with_slash (b ∷ c ∷ bs)
    then false
    else if b == slash
    then clean_from [] (c ∷ bs)
    else clean_from [] (b ∷ c ∷ bs)

-- `path.split('/')`
abbrev pub cons_first : ℕ → List (List ℕ) → List (List ℕ)
cons_first b [] = (b ∷ []) ∷ []
cons_first b (c ∷ cs) = (b ∷ c) ∷ cs

pub split : List ℕ → List (List ℕ)
split [] = [] ∷ []
split (b ∷ bs) = let rest = split bs in if b == slash then [] ∷ rest else cons_first b rest

-- The three cases that the loops over the components tell apart.
pub data Kind : Type 0 where
  skip up name : Kind

pub kind : List ℕ → Kind
kind [] = skip
kind (a ∷ []) = if a == dot then skip else name
kind (a ∷ b ∷ []) = if (a == dot) && (b == dot) then up else name
kind (a ∷ b ∷ c ∷ bs) = name

-- `Vec::pop`, and nothing at an empty vector.
abbrev pub pop {ℓ} : {A : Type ℓ} → List A → List A
pop xs = take (length xs - 1) xs

-- The loop over the components: `..` takes a component off while there are more than `floor`. With
-- the floor 0 it is the loop of `normalize`.
pub resolve : (floor : ℕ) → (components todo : List (List ℕ)) → List (List ℕ)
resolve floor components [] = components
resolve floor components (c ∷ cs) = elim (kind c) [
  | skip ↦ resolve floor components cs
  | up ↦ resolve floor (if ltb floor (length components) then pop components else components) cs
  | name ↦ resolve floor (components ++ (c ∷ [])) cs
]

-- The components with a slash between two of them.
abbrev pub join_components : List (List ℕ) → List ℕ
join_components [] = []
join_components (c ∷ []) = c
join_components (c ∷ d ∷ cs) = c ++ (slash ∷ join_components (d ∷ cs))

-- The part of `normalize` after its fast path.
pub normalize_components : List ℕ → List ℕ
normalize_components path =
    let joined = join_components (resolve 0 [] (split path)) in
    let result = if starts_with_slash path then slash ∷ joined else joined in
    if length result == 0 then slash ∷ [] else result

pub normalize : List ℕ → List ℕ
normalize path = if is_normalized path then path else normalize_components path

-- `split('/').filter(|s| !s.is_empty())`
pub parts : List (List ℕ) → List (List ℕ)
parts [] = []
parts ([] ∷ cs) = parts cs
parts ((b ∷ bs) ∷ cs) = (b ∷ bs) ∷ parts cs

pub normalize_jailed : (path root : List ℕ) → List ℕ
normalize_jailed path root =
    let root_parts = parts (split root) in
    let components = resolve (length root_parts) [] (split path) in
    slash
    ∷ join_components
        (if ltb (length components) (length root_parts) then root_parts else components)

-- `path.rfind('/')`
pub rfind_slash : List ℕ → Option ℕ
rfind_slash [] = none
rfind_slash (b ∷ bs) = elim (rfind_slash bs) [
  | some i ↦ some (suc i)
  | none ↦ if b == slash then some 0 else none
]

pub split_path : List ℕ → List ℕ × List ℕ
split_path path = elim (rfind_slash path) [
  | none ↦ (dot ∷ [], path)
  | some pos ↦ if pos == 0 then (slash ∷ [], drop 1 path) else (take pos path, drop (pos + 1) path)
]

pub basename : List ℕ → List ℕ
basename path = elim (rfind_slash path) [ none ↦ path | some pos ↦ drop (pos + 1) path ]

pub dirname : List ℕ → List ℕ
dirname path = elim (rfind_slash path) [
  | none ↦ dot ∷ []
  | some pos ↦ if pos == 0 then slash ∷ [] else take pos path
]

pub join : (base name_in : List ℕ) → List ℕ
join base name_in =
    if starts_with_slash name_in
    then name_in
    else if ends_with_slash base
    then base ++ name_in
    else base ++ (slash ∷ name_in)
