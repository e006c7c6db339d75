-- ===== src/Smfc/Printer/Depth.antt =====
-- How the calls of a generator change the indentation.
use smurf.Prelude.{
  ◌>>=◌, ◌∙◌, ℕ, zero, suc, ◌≡◌, refl, Option, none, some, List, [], ◌∷◌, ◌++◌, Bytes, arith,
}
use smurf.Smfc.Printer.{Vars, Call, print, print_raw, indent, outdent}

dedent : ℕ → Option ℕ
dedent zero = none
dedent (suc n) = some n

-- The indentation after a call, or none where the assertion of outdent fails.
unfoldable pub depth : Call → ℕ → Option ℕ
unfolding dedent
depth (print vars s) n = some n
depth (print_raw s) n = some n
depth indent n = some (suc n)
depth outdent n = dedent n

unfoldable pub depth_all : List Call → ℕ → Option ℕ
unfolding depth
depth_all [] n = some n
depth_all (call ∷ calls) n = do n' ← depth call n; depth_all calls n'

pub depth_all-append :
    (xs ys : List Call) (n m : ℕ)
    → depth_all xs n ≡ some m
    → depth_all (xs ++ ys) n ≡ depth_all ys m
unfolding depth_all
depth_all-append [] ys n m e = ground arith
depth_all-append (print vars s ∷ xs) ys n m e = depth_all-append xs ys n m e
depth_all-append (print_raw s ∷ xs) ys n m e = depth_all-append xs ys n m e
depth_all-append (indent ∷ xs) ys n m e = depth_all-append xs ys (suc n) m e
depth_all-append (outdent ∷ xs) ys zero m e = ground arith
depth_all-append (outdent ∷ xs) ys (suc n) m e = depth_all-append xs ys n m e

-- Calls that leave every indentation as it was.
pub record IsLevel (calls : List Call) : Type 0 where
  pub keeps : (n : ℕ) → depth_all calls n ≡ some n

-- Level calls may be left out.
pub skip :
    {xs : List Call}
    → IsLevel xs
    → (ys : List Call) (n : ℕ) → depth_all (xs ++ ys) n ≡ depth_all ys n
skip {xs} level ys n = depth_all-append xs ys n n (level.keeps n)

pub skip_then :
    {xs : List Call}
    → IsLevel xs
    → (ys : List Call) (n : ℕ) (m : Option ℕ) → depth_all ys n ≡ m
    → depth_all (xs ++ ys) n ≡ m
skip_then {xs} level ys n m e = skip level ys n ∙ e

pub IsLevel-append : {xs ys : List Call} → IsLevel xs → IsLevel ys → IsLevel (xs ++ ys)
IsLevel-append {xs} {ys} a b = record { keeps = λ n. skip a ys n ∙ b.keeps n }

pub empty-IsLevel : IsLevel []
unfolding depth_all
empty-IsLevel = record { keeps = λ n. refl }

pub print-IsLevel : (vars : Vars) (s : Bytes) → IsLevel (print vars s ∷ [])
unfolding depth_all
print-IsLevel vars s = record { keeps = λ n. refl }
