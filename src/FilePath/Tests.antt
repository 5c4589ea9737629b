-- ===== src/FilePath/Tests.antt =====
-- Paths of a few bytes.
use kontsnor_os.Prelude.{ℕ, ◌≡◌, refl, List, [], ◌∷◌, ◌++◌}
use kontsnor_os.FilePath.{
  slash, dot, split, kind, resolve, parts, join_components, is_normalized, clean_from, is_clean,
  normalize_components, normalize, normalize_jailed,
}
use kontsnor_os.FilePath.Split.{NoDots}
use kontsnor_os.FilePath.Jail.{AllNames, normalize_jailed_lem}

-- "/a", "../../b" and "/a/b"
abbrev root : List ℕ
root = slash ∷ 97 ∷ []

abbrev climb : List ℕ
climb = dot ∷ dot ∷ slash ∷ dot ∷ dot ∷ slash ∷ 98 ∷ []

abbrev nested : List ℕ
nested = slash ∷ 97 ∷ slash ∷ 98 ∷ []

root-NoDots : NoDots (split root)
unfolding NoDots split kind
root-NoDots = (refl, tt)

dots_dropped : normalize (root ++ (slash ∷ dot ∷ slash ∷ 98 ∷ [])) ≡ nested
unfolding normalize is_normalized clean_from is_clean normalize_components resolve split kind
dots_dropped = refl

jailed_climb : normalize_jailed (root ++ (slash ∷ climb)) root ≡ nested
unfolding normalize_jailed resolve split kind parts
jailed_climb = refl

normalize_jailed_lem_example :
    (inside : List (List ℕ)) × (normalize_jailed (root ++ (slash ∷ climb)) root
      ≡ slash ∷ join_components (parts (split root) ++ inside))
    × AllNames inside
normalize_jailed_lem_example = normalize_jailed_lem root climb root-NoDots
