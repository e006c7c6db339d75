-- ===== src/Smfc/Flags/Split.antt =====
-- What split_coma and split_langs of src/smfc/main.cc make of names joined by comas.
use smurf.Prelude.{◌≡◌, ◌≢◌, refl, ap, ◌∙◌, some, List, [], ◌∷◌, ◌++◌, map, Bytes, codes, arith}
use smurf.Smfc.Schema.{Language, unset, cpp, go, python, all, join}
use smurf.Smfc.Flags.{
  coma, push, split, trim, trim_left, is_space, split_coma, language_of, add_some, langs_of,
  split_langs,
}

abbrev pub NoComa : Bytes → Type 0
NoComa [] = Unit {0}
NoComa (c ∷ s) = (c ≢ coma) × NoComa s

-- Names with no coma in them and no space around them.
abbrev pub AllNames : List Bytes → Type 0
AllNames [] = Unit {0}
AllNames (x ∷ xs) = (NoComa x × (trim x ≡ x)) × AllNames xs

split_name : (x : Bytes) → NoComa x → split x ≡ x ∷ []
unfolding split push
split_name [] n = refl
split_name (c ∷ s) (ne, n) = rw (split_name s n) (ground arith)

split_before : (x s : Bytes) → NoComa x → split (x ++ (coma ∷ s)) ≡ x ∷ split s
unfolding split push
split_before [] s n = refl
split_before (c ∷ x) s (ne, n) = rw (split_before x s n) (ground arith)

split-join :
    (x : Bytes) (xs : List Bytes) → AllNames (x ∷ xs) → split (join (codes ",") (x ∷ xs)) ≡ x ∷ xs
unfolding join
split-join x [] a = split_name x a.0.0
split-join x (y ∷ ys) a =
    split_before x (join (codes ",") (y ∷ ys)) a.0.0 ∙ ap (λ r. x ∷ r) (split-join y ys a.1)

map-trim : (xs : List Bytes) → AllNames xs → map trim xs ≡ xs
map-trim [] a = refl
map-trim (x ∷ xs) a = let rest = map-trim xs a.1 in let first = a.0.1 in cc

-- Splitting one or more names that are joined by comas, none with a coma in it or with space around
-- it, gives the names.
pub split_coma-join :
    (x : Bytes) (xs : List Bytes)
    → AllNames (x ∷ xs)
    → split_coma (join (codes ",") (x ∷ xs)) ≡ x ∷ xs
unfolding split_coma
split_coma-join x xs a = rw (split-join x xs a) (map-trim (x ∷ xs) a)

-- The name of a language on the command line
abbrev pub name_of : Language → Bytes
name_of cpp = codes "cpp"
name_of go = codes "go"
name_of python = codes "python"
name_of _ = codes "none"

-- The languages that have a generator.
abbrev pub IsTarget : Language → Type 0
IsTarget cpp = Unit {0}
IsTarget go = Unit {0}
IsTarget python = Unit {0}
IsTarget _ = ⊥

abbrev pub AllTargets : List Language → Type 0
AllTargets [] = Unit {0}
AllTargets (l ∷ ls) = IsTarget l × AllTargets ls

name_of-AllNames : (l : Language) → IsTarget l → NoComa (name_of l) × (trim (name_of l) ≡ name_of l)
unfolding trim trim_left is_space
name_of-AllNames cpp t = ((omega arith, (omega arith, (omega arith, tt))), refl)
name_of-AllNames go t = ((omega arith, (omega arith, tt)), refl)
name_of-AllNames python t = (
  (omega arith, (omega arith, (omega arith, (omega arith, (omega arith, (omega arith, tt)))))),
  refl,
)
name_of-AllNames unset t = absurd t
name_of-AllNames all t = absurd t

names-AllNames : (ls : List Language) → AllTargets ls → AllNames (map name_of ls)
names-AllNames [] t = tt
names-AllNames (l ∷ ls) (t, ts) = (name_of-AllNames l t, names-AllNames ls ts)

language_of-name : (l : Language) → IsTarget l → language_of (name_of l) ≡ some l
unfolding language_of
language_of-name cpp t = refl
language_of-name go t = refl
language_of-name python t = refl
language_of-name unset t = absurd t
language_of-name all t = absurd t

langs_of-names : (ls : List Language) → AllTargets ls → langs_of (map name_of ls) ≡ ls
unfolding langs_of add_some
langs_of-names [] t = refl
langs_of-names (l ∷ ls) (t, ts) = rw (language_of-name l t, langs_of-names ls ts) refl

-- One or more languages that have a generator, given by their names with comas between them, are
-- the languages that are generated, in that order.
pub split_langs-join :
    (l : Language) (ls : List Language)
    → AllTargets (l ∷ ls)
    → split_langs (join (codes ",") (map name_of (l ∷ ls))) ≡ l ∷ ls
unfolding split_langs
split_langs-join l ls t =
    ap langs_of (split_coma-join (name_of l) (map name_of ls) (names-AllNames (l ∷ ls) t))
    ∙ langs_of-names (l ∷ ls) t
