-- ===== src/Smfc/Cpp/Names.antt =====
-- The names that src/smfc/cpp_generator.cc makes. Characters are ASCII.
use smurf.Prelude.{
  ℕ, ◌+◌, ◌-◌, ◌/◌, ◌%◌, Bool, false, ◌&&◌, ◌||◌, List, [], ◌∷◌, ◌++◌, Bytes, codes, ltb, ◌==◌,
  if◌then◌else◌,
}

between : ℕ → ℕ → ℕ → Bool
between low high c = ltb low (c + 1) && ltb c (high + 1)

isupper : ℕ → Bool
unfolding between
isupper c = between 65 90 c

isalnum : ℕ → Bool
unfolding between
isalnum c = between 48 57 c || between 65 90 c || between 97 122 c

unfoldable pub toupper : ℕ → ℕ
unfolding between
toupper c = if between 97 122 c then c - 32 else c

unfoldable pub tolower : ℕ → ℕ
unfolding isupper
tolower c = if isupper c then c + 32 else c

hex : ℕ → ℕ
hex d = if ltb d 10 then 48 + d else 87 + d

unfoldable pub identifier_part : ℕ → Bytes
unfolding isalnum toupper hex
identifier_part c =
    if isalnum c
    then toupper c ∷ []
    else if c == 95
    then c ∷ []
    else 95 ∷ hex (c / 16 % 16) ∷ hex (c % 16) ∷ []

unfoldable pub file_name_identifier : Bytes → Bytes
unfolding identifier_part
file_name_identifier [] = []
file_name_identifier (c ∷ filename) = identifier_part c ++ file_name_identifier filename

unfoldable pub is_camel_case : Bytes → Bool
unfolding isupper
is_camel_case [] = false
is_camel_case (c ∷ s) = isupper c || is_camel_case s

unfoldable pub lower : Bytes → Bytes
unfolding tolower
lower [] = []
lower (c ∷ s) = tolower c ∷ lower s

unfoldable pub lower_vec : List Bytes → Bytes
unfolding lower
lower_vec [] = []
lower_vec (x ∷ vec) = lower x ++ lower_vec vec

-- s[0] = toupper(s[0])
unfoldable pub capitalized : Bytes → Bytes
unfolding toupper
capitalized [] = []
capitalized (c ∷ s) = toupper c ∷ s

-- The check that one of the two is not empty holds in every call.
unfoldable pub proper_postfix_token : Bytes → Bytes → Bytes
unfolding is_camel_case capitalized lower_vec
proper_postfix_token s postfix =
    if is_camel_case s
    then capitalized s ++ capitalized postfix
    else lower_vec (s ∷ codes "_" ∷ postfix ∷ [])

unfoldable pub proper_prefix_token : Bytes → Bytes → Bytes
unfolding is_camel_case capitalized lower_vec
proper_prefix_token prefix s =
    if is_camel_case s
    then capitalized prefix ++ capitalized s
    else lower_vec (prefix ∷ codes "_" ∷ s ∷ [])
