-- ===== src/Smfc/Plain.antt =====
-- Texts without an escape character, of which src/smfc makes the values of its templates.
pub mod Schema
use smurf.Prelude.{
  ℕ, zero, suc, ◌+◌, ◌/◌, ◌%◌, ◌*◌, ◌≡◌, ◌≢◌, ◌<◌, ◌≤◌, refl, ap, ◌∙◌, Bool, true, false, some,
  List, [], ◌∷◌, ◌++◌, Bytes, arith, to_string, if_both, ◌==◌, ltb, if◌then◌else◌, codes, same,
  Bool-cases, inl, inr,
}
use smurf.Prelude.Text.{digits_of}
use smurf.Smfc.Printer.{Vars, Call, find, escape_char, print, print_raw, indent, outdent}
use smurf.Smfc.Printer.Substitution.{escapes, escapes-append, IsPlain}
use smurf.Smfc.Printer.Output.{AllPlain}
use smurf.Smfc.Schema.{StructDef, Method, Service, join, cpp_type, python_type}
use smurf.Smfc.Cpp.Names.{
  toupper, tolower, lower, lower_vec, capitalized, identifier_part, file_name_identifier,
  proper_postfix_token, proper_prefix_token, is_camel_case,
}

-- No escape character
pub record NoEscape (s : Bytes) : Type 0 where
  pub none_there : escapes s ≡ 0

abbrev pub AllNoEscape : List Bytes → Type 0
AllNoEscape [] = Unit {0}
AllNoEscape (x ∷ xs) = NoEscape x × AllNoEscape xs

pub append-NoEscape : {a b : Bytes} → NoEscape a → NoEscape b → NoEscape (a ++ b)
append-NoEscape {a} {b} p q = record {
  none_there = omega (arith, escapes-append a b, p.none_there, q.none_there);
}

cons-NoEscape : {c : ℕ} {s : Bytes} → c ≢ escape_char → NoEscape s → NoEscape (c ∷ s)
unfolding escapes
cons-NoEscape ne p = record { none_there = ground (arith, p.none_there) }

head-NoEscape : {c : ℕ} {s : Bytes} → NoEscape (c ∷ s) → (c ≢ escape_char) × NoEscape s
unfolding escapes
head-NoEscape p =
    let none_there = p.none_there in (λ e. ground arith, record { none_there = ground arith })

digits_of-NoEscape : (f n : ℕ) (rest : Bytes) → NoEscape rest → NoEscape (digits_of f n rest)
unfolding digits_of
digits_of-NoEscape zero n rest p = p
digits_of-NoEscape (suc f) n rest p =
    if_both NoEscape (ltb n 10) _ _ (λ _. cons-NoEscape (λ e. omega arith) p)
      (λ _. digits_of-NoEscape f (n / 10) _ (cons-NoEscape (λ e. omega arith) p))

pub to_string-NoEscape : (n : ℕ) → NoEscape (to_string n)
unfolding to_string escapes
to_string-NoEscape n = digits_of-NoEscape 20 n [] (record { none_there = refl })

toupper-ne : (c : ℕ) → c ≢ escape_char → toupper c ≢ escape_char
unfolding toupper
toupper-ne c ne e = ground arith

tolower-ne : (c : ℕ) → c ≢ escape_char → tolower c ≢ escape_char
unfolding tolower
tolower-ne c ne e = ground arith

pub capitalized-NoEscape : {s : Bytes} → NoEscape s → NoEscape (capitalized s)
unfolding capitalized
capitalized-NoEscape {s = []} p = p
capitalized-NoEscape {s = c ∷ s} p =
    let (ne, q) = head-NoEscape p in cons-NoEscape (toupper-ne c ne) q

lower-NoEscape : {s : Bytes} → NoEscape s → NoEscape (lower s)
unfolding lower
lower-NoEscape {s = []} p = p
lower-NoEscape {s = c ∷ s} p =
    let (ne, q) = head-NoEscape p in cons-NoEscape (tolower-ne c ne) (lower-NoEscape q)

identifier_part-NoEscape : (c : ℕ) → NoEscape (identifier_part c)
unfolding identifier_part escapes
identifier_part-NoEscape c = record { none_there = ground arith }

pub file_name_identifier-NoEscape : (s : Bytes) → NoEscape (file_name_identifier s)
unfolding file_name_identifier escapes
file_name_identifier-NoEscape [] = record { none_there = refl }
file_name_identifier-NoEscape (c ∷ s) =
    append-NoEscape (identifier_part-NoEscape c) (file_name_identifier-NoEscape s)

lower_vec-NoEscape : (xs : List Bytes) → AllNoEscape xs → NoEscape (lower_vec xs)
unfolding lower_vec escapes
lower_vec-NoEscape [] p = record { none_there = refl }
lower_vec-NoEscape (x ∷ xs) (p, ps) = append-NoEscape (lower-NoEscape p) (lower_vec-NoEscape xs ps)

pub join-NoEscape :
    (separator : Bytes) (xs : List Bytes)
    → NoEscape separator
    → AllNoEscape xs
    → NoEscape (join separator xs)
unfolding join escapes
join-NoEscape separator [] s p = record { none_there = refl }
join-NoEscape separator (x ∷ []) s (p, ps) = p
join-NoEscape separator (x ∷ y ∷ xs) s (p, ps) =
    append-NoEscape p (append-NoEscape s (join-NoEscape separator (y ∷ xs) s ps))

pub AllNoEscape-append :
    (xs ys : List Bytes) → AllNoEscape xs → AllNoEscape ys → AllNoEscape (xs ++ ys)
AllNoEscape-append [] ys p q = q
AllNoEscape-append (x ∷ xs) ys (p, ps) q = (p, AllNoEscape-append xs ys ps q)

pub proper_postfix_token-NoEscape :
    {s postfix : Bytes} → NoEscape s → NoEscape postfix → NoEscape (proper_postfix_token s postfix)
unfolding proper_postfix_token escapes
proper_postfix_token-NoEscape {s} {postfix} p q =
    let parts : AllNoEscape (s ∷ codes "_" ∷ postfix ∷ []) =
      (p, (record { none_there = refl }, (q, tt))) in
    if_both NoEscape (is_camel_case s) _ _
      (λ _. append-NoEscape (capitalized-NoEscape p) (capitalized-NoEscape q))
      (λ _. lower_vec-NoEscape (s ∷ codes "_" ∷ postfix ∷ []) parts)

pub proper_prefix_token-NoEscape :
    {prefix s : Bytes} → NoEscape prefix → NoEscape s → NoEscape (proper_prefix_token prefix s)
unfolding proper_prefix_token escapes
proper_prefix_token-NoEscape {prefix} {s} p q =
    let parts : AllNoEscape (prefix ∷ codes "_" ∷ s ∷ []) =
      (p, (record { none_there = refl }, (q, tt))) in
    if_both NoEscape (is_camel_case s) _ _
      (λ _. append-NoEscape (capitalized-NoEscape p) (capitalized-NoEscape q))
      (λ _. lower_vec-NoEscape (prefix ∷ codes "_" ∷ s ∷ []) parts)

-- A struct and its namespace without an escape character
pub record PlainStruct (sd : StructDef) : Type 0 where
  pub name : NoEscape sd.name
  pub components : AllNoEscape sd.components

pub cpp_type-NoEscape : {sd : StructDef} → PlainStruct sd → NoEscape (cpp_type sd)
unfolding cpp_type escapes
cpp_type-NoEscape {sd} p =
    join-NoEscape (codes "::") _ (record { none_there = refl })
      (AllNoEscape-append sd.components _ p.components (p.name, tt))

pub python_type-NoEscape : {sd : StructDef} → PlainStruct sd → NoEscape (python_type sd)
unfolding python_type escapes
python_type-NoEscape {sd} p =
    join-NoEscape (codes ".") _ (record { none_there = refl })
      (AllNoEscape-append sd.components _ p.components (p.name, (p.name, tt)))

-- A method and a service whose names have none
pub record PlainMethod (m : Method) : Type 0 where
  pub name : NoEscape m.name
  pub service_name : NoEscape m.service_name
  pub request : PlainStruct m.request
  pub response : PlainStruct m.response

abbrev pub AllPlainMethods : List Method → Type 0
AllPlainMethods [] = Unit {0}
AllPlainMethods (m ∷ ms) = PlainMethod m × AllPlainMethods ms

pub record PlainService (s : Service) : Type 0 where
  pub name : NoEscape s.name
  pub components : AllNoEscape s.components
  pub methods : AllPlainMethods s.methods

abbrev pub AllPlainServices : List Service → Type 0
AllPlainServices [] = Unit {0}
AllPlainServices (s ∷ ss) = PlainService s × AllPlainServices ss

-- Values of templates, each without an escape character
abbrev pub PlainValues : Vars → Type 0
PlainValues [] = Unit {0}
PlainValues ((k, v) ∷ vars) = NoEscape v × PlainValues vars

PlainValues-find :
    (vars : Vars) (key value : Bytes)
    → PlainValues vars
    → find key vars ≡ some value
    → escapes value ≡ 0
unfolding find
PlainValues-find [] key value p e = cc
PlainValues-find ((k, v) ∷ vars) key value (p, ps) e = elim (Bool-cases (same k key)) [
  | inl here ↦ let none_there = p.none_there in ground (arith, here)
  | inr there ↦ PlainValues-find vars key value ps (ground (arith, there))
]

pub PlainValues-IsPlain : (vars : Vars) → PlainValues vars → IsPlain vars
unfolding IsPlain
PlainValues-IsPlain vars p key value e = PlainValues-find vars key value p e

AllPlain-append :
    (fuel : ℕ) (xs ys : List Call) → AllPlain fuel xs → AllPlain fuel ys → AllPlain fuel (xs ++ ys)
AllPlain-append fuel [] ys p q = q
AllPlain-append fuel (print vars s ∷ xs) ys (p, ps) q = (p, AllPlain-append fuel xs ys ps q)
AllPlain-append fuel (print_raw s ∷ xs) ys p q = AllPlain-append fuel xs ys p q
AllPlain-append fuel (indent ∷ xs) ys p q = AllPlain-append fuel xs ys p q
AllPlain-append fuel (outdent ∷ xs) ys p q = AllPlain-append fuel xs ys p q

-- Calls that are printed to the end, with so much fuel
pub record IsPrintable (fuel : ℕ) (calls : List Call) : Type 0 where
  pub plain : AllPlain fuel calls

pub before :
    {fuel : ℕ} {xs : List Call}
    → IsPrintable fuel xs
    → (ys : List Call) → AllPlain fuel ys
    → AllPlain fuel (xs ++ ys)
before {fuel} {xs} p ys q = AllPlain-append fuel xs ys p.plain q

pub IsPrintable-append :
    {fuel : ℕ} {xs ys : List Call}
    → IsPrintable fuel xs
    → IsPrintable fuel ys
    → IsPrintable fuel (xs ++ ys)
IsPrintable-append {ys} p q = record { plain = before p ys q.plain }

pub PlainValues-append : (xs ys : Vars) → PlainValues xs → PlainValues ys → PlainValues (xs ++ ys)
PlainValues-append [] ys p q = q
PlainValues-append ((k, v) ∷ xs) ys (p, ps) q = (p, PlainValues-append xs ys ps q)
