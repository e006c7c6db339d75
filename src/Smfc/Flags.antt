-- ===== src/Smfc/Flags.antt =====
-- split_coma and split_langs of src/smfc/main.cc.
pub mod Split
use smurf.Prelude.{
  ◌≡◌, Bool, true, false, not, ◌&&◌, ◌||◌, Option, none, some, List, [], ◌∷◌, ◌++◌, map, Bytes, ℕ,
  codes, same, ◌==◌, ltb, if◌then◌else◌,
}
use mathlib.Core.List.{reverse}
use smurf.Smfc.Schema.{Language, cpp, go, python}

abbrev pub coma : ℕ
coma = 44

push : ℕ → List Bytes → List Bytes
push c [] = (c ∷ []) ∷ []
push c (x ∷ xs) = (c ∷ x) ∷ xs

-- boost::algorithm::split on ",", which gives one part more than there are comas
split : Bytes → List Bytes
unfolding push
split [] = [] ∷ []
split (c ∷ s) = let rest = split s in if c == coma then [] ∷ rest else push c rest

-- boost::algorithm::trim, in the locale "C"
is_space : ℕ → Bool
is_space c = c == 32 || (ltb 8 c && ltb c 14)

trim_left : Bytes → Bytes
unfolding is_space
trim_left [] = []
trim_left (c ∷ s) = let rest = trim_left s in if is_space c then rest else c ∷ s

unfoldable pub trim : Bytes → Bytes
unfolding trim_left
trim s = reverse (trim_left (reverse (trim_left s)))

abbrev pub is_empty {ℓ} : {A : Type ℓ} → List A → Bool
is_empty [] = true
is_empty (x ∷ xs) = false

unfoldable pub split_coma : Bytes → List Bytes
unfolding split trim
split_coma dirs =
    let retval = split dirs in
    map trim (if is_empty retval && not (is_empty dirs) then retval ++ (dirs ∷ []) else retval)

-- A name that is not known is skipped.
unfoldable pub language_of : Bytes → Option Language
language_of l =
    if same l (codes "cpp")
    then some cpp
    else if same l (codes "go")
    then some go
    else if same l (codes "python")
    then some python
    else none

add_some : Option Language → List Language → List Language
add_some none ls = ls
add_some (some l) ls = l ∷ ls

langs_of : List Bytes → List Language
unfolding language_of add_some
langs_of [] = []
langs_of (l ∷ ls) = add_some (language_of l) (langs_of ls)

unfoldable pub split_langs : Bytes → List Language
unfolding langs_of split_coma
split_langs lang = langs_of (split_coma lang)
