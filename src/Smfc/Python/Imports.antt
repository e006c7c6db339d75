-- ===== src/Smfc/Python/Imports.antt =====
-- python_generator::gen never meets a type without a module, and what it prints is level.
use smurf.Prelude.{ℕ, ◌≡◌, refl, some, List, [], ◌∷◌, ◌++◌, Bytes, codes, Option-cases, inl, inr}
use smurf.Smfc.Printer.{Call}
use smurf.Smfc.Schema.{Schema, Method, Service, StructDef, services, python_type, join}
use smurf.Smfc.Printer.Depth.{depth_all, IsLevel, IsLevel-append, empty-IsLevel}
use smurf.Smfc.Python.{
  client_methods, blank_line, print_client, generate_header_prologue, before_point, insert,
  add_imports, service_imports, import_lines, generate_header_includes, generate_header_services,
  gen,
}

point_found : (s : Bytes) → (b : Bytes) × (before_point (46 ∷ s) ≡ some b)
unfolding before_point
point_found s = elim (Option-cases (before_point s)) [
  | inl e ↦ ([], rw (e, before_point) refl)
  | inr (b, e) ↦ (46 ∷ b, rw (e, before_point) refl)
]

point_after :
    (x s : Bytes)
    → (b : Bytes) × (before_point s ≡ some b)
    → (b : Bytes) × (before_point (x ++ s) ≡ some b)
unfolding before_point
point_after [] s found = found
point_after (c ∷ x) s found =
    let (b, e) = point_after x s found in (c ∷ b, rw (e, before_point) refl)

join_point :
    (x y : Bytes) (xs : List Bytes)
    → (b : Bytes) × (before_point (join (codes ".") (x ∷ y ∷ xs)) ≡ some b)
unfolding join
join_point x y xs = point_after x _ (point_found _)

parts_point :
    (name : Bytes) (components : List Bytes)
    → (b : Bytes) × (before_point (join (codes ".") (components ++ (name ∷ name ∷ []))) ≡ some b)
parts_point name [] = join_point name name []
parts_point name (x ∷ []) = join_point x name (name ∷ [])
parts_point name (x ∷ y ∷ xs) = join_point x y (xs ++ (name ∷ name ∷ []))

-- A type's name in Python has a module before its last point.
python_type_module : (sd : StructDef) → (b : Bytes) × (before_point (python_type sd) ≡ some b)
unfolding python_type
python_type_module sd = parts_point sd.name sd.components

add_imports-some :
    (methods : List Method) (imports : List Bytes)
    → (all : List Bytes) × (add_imports methods imports ≡ some all)
unfolding add_imports
add_imports-some [] imports = (imports, refl)
add_imports-some (method ∷ methods) imports =
    let (b, e) = python_type_module method.response in
    let (all, made) = add_imports-some methods (insert b imports) in (all, rw (e, add_imports) made)

service_imports-some :
    (srvs : List Service) (imports : List Bytes)
    → (all : List Bytes) × (service_imports srvs imports ≡ some all)
unfolding service_imports
service_imports-some [] imports = (imports, refl)
service_imports-some (service ∷ srvs) imports =
    let (some_imports, e) = add_imports-some service.methods imports in
    let (all, made) = service_imports-some srvs some_imports in (all, rw (e, service_imports) made)

import_lines-IsLevel : (imports : List Bytes) → IsLevel (import_lines imports)
unfolding import_lines depth_all
import_lines-IsLevel [] = record { keeps = λ n. refl }
import_lines-IsLevel (x ∷ imports) = record { keeps = λ n. (import_lines-IsLevel imports).keeps n }

blank_line-IsLevel : (methods : List Method) → IsLevel (blank_line methods)
unfolding blank_line depth_all
blank_line-IsLevel [] = empty-IsLevel
blank_line-IsLevel (method ∷ methods) = record { keeps = λ n. refl }

client_methods-IsLevel : (methods : List Method) → IsLevel (client_methods methods)
unfolding client_methods depth_all
client_methods-IsLevel [] = empty-IsLevel
client_methods-IsLevel (method ∷ methods) =
    let rest = IsLevel-append (blank_line-IsLevel methods) (client_methods-IsLevel methods) in
    record { keeps = λ n. rest.keeps n }

client-IsLevel : (service : Service) → IsLevel (print_client service)
unfolding print_client depth_all
client-IsLevel service = record { keeps = λ n. (client_methods-IsLevel service.methods).keeps n }

services-IsLevel : (srvs : List Service) → IsLevel (generate_header_services srvs)
unfolding generate_header_services
services-IsLevel [] = empty-IsLevel
services-IsLevel (srv ∷ srvs) = IsLevel-append (client-IsLevel srv) (services-IsLevel srvs)

prologue-IsLevel : (schema : Schema) → IsLevel (generate_header_prologue schema)
unfolding generate_header_prologue depth_all
prologue-IsLevel schema = record { keeps = λ n. refl }

includes-IsLevel :
    (srvs : List Service)
    → (calls : List Call) × (generate_header_includes srvs ≡ some calls) × IsLevel calls
unfolding generate_header_includes
includes-IsLevel srvs =
    let (imports, e) = service_imports-some srvs [] in
    (import_lines imports, rw (e, generate_header_includes) refl, import_lines-IsLevel imports)

-- For every schema the Python generator makes its calls: each type has a module to import, so no
-- check is fatal. They close every indentation that they open and no other.
pub python_gen-IsLevel :
    (crc32 : Bytes → ℕ) (schema : Schema)
    → (calls : List Call) × (gen crc32 schema ≡ some calls) × IsLevel calls
unfolding gen
python_gen-IsLevel crc32 schema =
    let srvs = services crc32 schema.service_defs in
    let (includes, made, level) = includes-IsLevel srvs in
    (
      generate_header_prologue schema ++ (includes ++ generate_header_services srvs),
      rw (made, gen) refl,
      IsLevel-append (prologue-IsLevel schema) (IsLevel-append level (services-IsLevel srvs)),
    )
