-- ===== src/Smfc/Printer.antt =====
-- src/smfc/smf_printer.h. A generator is modelled by the calls that it makes on its printer.
pub mod Substitution
pub mod Depth
pub mod Output
use smurf.Prelude.{
  ◌>>=◌, ℕ, zero, suc, ◌+◌, ◌-◌, ◌*◌, Bool, true, false, not, ◌&&◌, Option, none, some, List, [],
  ◌∷◌, ◌++◌, String, Bytes, codes, same, replicate, ◌==◌, if◌then◌else◌,
}

pub record Printer : Type 0 where
  pub out : Bytes
  pub indentation : ℕ
  pub indent_char : ℕ
  pub indent_step : ℕ

abbrev pub new_printer : Printer
new_printer = record { out = []; indentation = 0; indent_char = 32; indent_step = 2 }

-- A std::map<std::string, std::string>: the latest assignment to a key stands first.
abbrev pub Vars : Type 0
Vars = List (Bytes × Bytes)

unfoldable pub find : Bytes → Vars → Option Bytes
find key [] = none
find key ((k, v) ∷ vars) = if same k key then some v else find key vars

abbrev pub escape_char : ℕ
escape_char = 36

-- The texts before and after the first escape character.
unfoldable pub cut : Bytes → Option (Bytes × Bytes)
cut [] = none
cut (c ∷ s) =
    if c == escape_char then some ([], s) else do (before, after) ← cut s; some (c ∷ before, after)

-- One round of the loop in print; none where it leaves the loop.
unfoldable pub replace_first : Vars → Bytes → Option Bytes
unfolding cut find
replace_first vars s = do
  (before, rest) ← cut s
  (name, after) ← cut rest
  value ← find name vars
  some (before ++ (value ++ after))

-- The loop of print, or none where the fuel is spent.
unfoldable pub substitute : ℕ → Vars → Bytes → Option Bytes
unfolding replace_first
substitute zero vars s = none
substitute (suc fuel) vars s = elim (replace_first vars s) [
  | none ↦ some s
  | some s' ↦ substitute fuel vars s'
]

insert_indentation : Printer → Printer
insert_indentation p = record p {
  out = p.out ++ replicate (p.indentation * p.indent_step) p.indent_char;
}

is_end : Bytes → Bool
is_end [] = true
is_end (c ∷ s) = false

-- The rest of a line and the lines after it. A text holds no NUL.
print_rest : Bytes → Printer → Printer
unfolding insert_indentation is_end
print_rest [] p = p
print_rest (c ∷ s) p =
    let p' = record p { out = p.out ++ (c ∷ []) } in
    print_rest s (if (c == 10) && not (is_end s) then insert_indentation p' else p')

-- print(const char *)
unfoldable pub print_text : Bytes → Printer → Printer
unfolding print_rest insert_indentation
print_text s p = print_rest s (insert_indentation p)

-- A call on the printer.
pub data Call : Type 0 where
  print : Vars → Bytes → Call
  print_raw : Bytes → Call
  indent : Call
  outdent : Call

-- printer.print with the variables and without
abbrev pub fill : Vars → String → Call
fill vars template = print vars (codes template)

abbrev pub text : String → Call
text s = print_raw (codes s)

-- vars[key] = value
abbrev pub var : String → Bytes → Bytes × Bytes
var key value = (codes key, value)

outdented : ℕ → Printer → Option Printer
outdented zero p = none
outdented (suc n) p = some (record p { indentation = n })

-- What a call does; none where an assertion fails or the fuel is spent.
unfoldable pub perform : ℕ → Call → Printer → Option Printer
unfolding outdented
perform fuel (print vars string_template) p = do
  s ← substitute fuel vars string_template
  some (print_text s p)
perform fuel (print_raw text) p = some (print_text text p)
perform fuel indent p = some (record p { indentation = p.indentation + 1 })
perform fuel outdent p = outdented p.indentation p

unfoldable pub perform_all : ℕ → List Call → Printer → Option Printer
unfolding perform
perform_all fuel [] p = some p
perform_all fuel (call ∷ calls) p = do p' ← perform fuel call p; perform_all fuel calls p'
