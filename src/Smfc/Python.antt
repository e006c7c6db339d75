-- ===== src/Smfc/Python.antt =====
-- src/smfc/python_generator.cc and src/smfc/python_generator.h.
pub mod Imports
pub mod Plain
use smurf.Prelude.{
  ℕ, Bool, true, false, Option, none, some, ◌>>=◌, List, [], ◌∷◌, ◌++◌, String, Bytes, codes,
  to_string, ltb, ◌==◌, if◌then◌else◌,
}
use Prim.Native.Nat.{bit_xor}
use smurf.Smfc.Printer.{
  Vars, Call, Printer, new_printer, print_raw, indent, outdent, fill, text, var,
}
use smurf.Smfc.Schema.{Schema, Method, Service, services, python_type}
use smurf.Smfc.Cpp.Names.{capitalized}

-- s[0] = std::toupper(s[0])
unfoldable pub python_public_name : Bytes → Bytes
unfolding capitalized
python_public_name s = capitalized s

-- The constructor of python_generator
abbrev pub python_printer : Printer
python_printer = record new_printer { indent_char = 32; indent_step = 4 }

unfoldable pub method_vars : Method → Vars
unfolding python_public_name to_string python_type
method_vars method =
    var "RequestID" (to_string (bit_xor method.service_id method.method_id))
    ∷ var "OutType" (python_type method.response)
    ∷ var "ServiceID" (to_string method.service_id)
    ∷ var "MethodID" (to_string method.method_id)
    ∷ var "MethodName" (python_public_name method.name)
    ∷ []

unfoldable pub print_client_method : Method → List Call
unfolding method_vars
print_client_method method =
    let vars = method_vars method in
    fill vars "async def $MethodName$(self, x):\n"
    ∷ indent
    ∷ fill vars "# request id = $ServiceID$ ^ $MethodID$\n"
    ∷ fill vars "buf, status = await self._conn.call(x, $RequestID$)\n"
    ∷ fill vars "return $OutType$.GetRootAsPutResponse(buf, 0), status\n"
    ∷ outdent
    ∷ []

unfoldable pub blank_line : List Method → List Call
blank_line [] = []
blank_line (method ∷ methods) = text "\n" ∷ []

unfoldable pub client_methods : List Method → List Call
unfolding print_client_method blank_line
client_methods [] = []
client_methods (method ∷ methods) =
    (indent ∷ print_client_method method)
    ++ (outdent ∷ (blank_line methods ++ client_methods methods))

unfoldable pub print_client : Service → List Call
unfolding client_methods python_public_name to_string
print_client service =
    let name = python_public_name service.name in
    let vars =
      var "ServiceID" (to_string service.service_id)
      ∷ var "ClientName" (name ++ codes "Client")
      ∷ var "InterfaceName" name
      ∷ [] in
    (fill vars "class $ClientName$:\n"
      ∷ indent
      ∷ text "def __init__(self, conn):\n"
      ∷ indent
      ∷ text "self._conn = conn\n\n"
      ∷ outdent
      ∷ outdent
      ∷ [])
    ++ client_methods service.methods

unfoldable pub generate_header_prologue : Schema → List Call
generate_header_prologue schema =
    text "# Generated by smfc.\n"
    ∷ text "# Any local changes WILL BE LOST.\n"
    ∷ fill (var "filename" schema.input_filename ∷ []) "# source: $filename$\n\n"
    ∷ []

-- type.substr(0, type.rfind(".")), or none where there is no point
unfoldable pub before_point : Bytes → Option Bytes
before_point [] = none
before_point (c ∷ s) = elim (before_point s) [
  | some before ↦ some (c ∷ before)
  | none ↦ if c == 46 then some [] else none
]

-- Whether a text stands before another in a std::set<std::string>, and whether it is the other.
precedes : Bytes → Bytes → Bool
precedes [] [] = false
precedes [] (y ∷ ys) = true
precedes (x ∷ xs) [] = false
precedes (x ∷ xs) (y ∷ ys) = if ltb x y then true else if ltb y x then false else precedes xs ys

-- std::set::insert on the elements in their order
unfoldable pub insert : Bytes → List Bytes → List Bytes
unfolding precedes
insert x [] = x ∷ []
insert x (y ∷ ys) =
    let rest = insert x ys in
    if precedes x y then x ∷ y ∷ ys else if precedes y x then y ∷ rest else y ∷ ys

-- The imports of methods, after `imports`; LOG_IF(FATAL) is none.
add_imports : List Method → List Bytes → Option (List Bytes)
unfolding before_point python_type insert
add_imports [] imports = some imports
add_imports (method ∷ methods) imports = do
  type ← before_point (python_type method.response)
  add_imports methods (insert type imports)

unfoldable pub service_imports : List Service → List Bytes → Option (List Bytes)
unfolding add_imports
service_imports [] imports = some imports
service_imports (service ∷ srvs) imports = do
  imports' ← add_imports service.methods imports
  service_imports srvs imports'

unfoldable pub import_lines : List Bytes → List Call
import_lines [] = text "\n" ∷ []
import_lines (x ∷ imports) = text "import " ∷ print_raw x ∷ text "\n" ∷ import_lines imports

unfoldable pub generate_header_includes : List Service → Option (List Call)
unfolding service_imports import_lines
generate_header_includes srvs = do imports ← service_imports srvs []; some (import_lines imports)

unfoldable pub generate_header_services : List Service → List Call
unfolding print_client
generate_header_services [] = []
generate_header_services (srv ∷ srvs) = print_client srv ++ generate_header_services srvs

-- python_generator::gen, up to the making of directories and the saving of the file
unfoldable pub gen : (Bytes → ℕ) → Schema → Option (List Call)
unfolding services generate_header_prologue generate_header_includes generate_header_services
gen crc32 schema = do
  includes ← generate_header_includes (services crc32 schema.service_defs)
  some (
      generate_header_prologue schema
      ++ (includes ++ generate_header_services (services crc32 schema.service_defs)))
