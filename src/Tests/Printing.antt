-- ===== src/Tests/Printing.antt =====
-- Instances of the theorems on the printer and on the header that the compiler writes.
use smurf.Prelude.{
  refl, to_string, ◌≡◌, false, none, some, List, [], ◌∷◌, ◌++◌, Bytes, codes, length, arith,
}
use smurf.Smfc.Printer.Output.{level_is_printed}
use smurf.Smfc.Cpp.Service.{print_header_service_handles}
use smurf.Smfc.Printer.{Printer, new_printer, perform_all, Call, Vars, print_raw, find, substitute}
use smurf.Smfc.Printer.Substitution.{IsPlain, escapes, substitute_ends, substitute_loops}
use smurf.Smfc.Printer.Depth.{IsLevel, depth_all}
use smurf.Smfc.Schema.{StructDef, ServiceDef, Schema, Service, services}
use smurf.Smfc.Cpp.Header.{gen, generate_header_prologue_forward_decl_external}
use smurf.Smfc.Cpp.Header.Level.{gen-IsLevel}
use smurf.Smfc.Cpp.Header.Repeats.{repeated, operators, external_repeats}
use smurf.Smfc.Go
use smurf.Smfc.Go.Level.{go_gen-IsLevel}
use smurf.Smfc.Python
use smurf.Smfc.Python.Imports.{python_gen-IsLevel}
use smurf.Tests.Instances.{toy_hash}

abbrev vars : Vars
vars = (codes "part", codes "smf") ∷ []

vars-IsPlain : IsPlain vars
unfolding IsPlain find escapes
vars-IsPlain key value e = ground arith

substitute_ends_example : (s : Bytes) × (substitute 2 vars (codes "namespace $part$ {") ≡ some s)
unfolding escapes
substitute_ends_example =
    substitute_ends 2 vars (codes "namespace $part$ {") vars-IsPlain (omega arith)

substitute_loops_example : substitute 9 ((codes "x", codes "ax$x$b") ∷ []) (codes "see $x$.") ≡ none
unfolding escapes find
substitute_loops_example =
    substitute_loops 9 ((codes "x", codes "ax$x$b") ∷ []) (codes "x") (codes "ax") (codes "b")
      (codes "see ") (codes ".") refl refl refl refl

abbrev pub request : StructDef
request = record { name = codes "Request"; components = codes "demo" ∷ [] }

abbrev pub storage : ServiceDef
storage = record {
  name = codes "Storage";
  components = codes "demo" ∷ [];
  calls = record { name = codes "Get"; request = request; response = request } ∷ [];
  generated = false;
}

abbrev pub schema : Schema
schema = record {
  input_filename = codes "demo.fbs";
  without_ext = codes "demo";
  package_name = codes "demo";
  package_parts = codes "demo" ∷ [];
  included_files = codes "demo.fbs" ∷ [];
  service_defs = storage ∷ storage ∷ [];
}

abbrev two_services : List Service
two_services = services toy_hash schema.service_defs

gen-IsLevel_example : IsLevel (gen toy_hash schema)
gen-IsLevel_example = gen-IsLevel toy_hash schema

external_repeats_example :
    generate_header_prologue_forward_decl_external two_services
    ≡ repeated (length two_services) (operators two_services) ++ (print_raw (codes "\n") ∷ [])
external_repeats_example = external_repeats two_services

go_gen-IsLevel_example : (calls : List Call) × (Go.gen toy_hash schema ≡ some calls) × IsLevel calls
go_gen-IsLevel_example = go_gen-IsLevel toy_hash schema (codes "demo") [] refl

python_gen-IsLevel_example :
    (calls : List Call) × (Python.gen toy_hash schema ≡ some calls) × IsLevel calls
python_gen-IsLevel_example = python_gen-IsLevel toy_hash schema

abbrev one_service : Service
one_service = record { name = codes "Storage"; service_id = 5; components = []; methods = [] }

size_vars-IsPlain : IsPlain ((codes "ServiceHandleSize", codes "0") ∷ [])
unfolding IsPlain find escapes
size_vars-IsPlain key value e = ground arith

handles-IsLevel : IsLevel (print_header_service_handles one_service)
unfolding print_header_service_handles depth_all
handles-IsLevel = record { keeps = λ n. refl }

level_is_printed_example :
    (p' : Printer) × (perform_all 2 (print_header_service_handles one_service) new_printer
      ≡ some p')
    × (p'.indentation ≡ 0)
unfolding print_header_service_handles escapes to_string
level_is_printed_example =
    level_is_printed 2 (print_header_service_handles one_service) new_printer handles-IsLevel
      ((size_vars-IsPlain, omega arith), tt)
