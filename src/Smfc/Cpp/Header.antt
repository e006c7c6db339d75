-- ===== src/Smfc/Cpp/Header.antt =====
-- The methods of cpp_generator in src/smfc/cpp_generator.cc, and gen of src/smfc/cpp_generator.h.
pub mod Level
pub mod Plain
pub mod Repeats
use smurf.Prelude.{
  ℕ, Bool, true, false, not, List, [], ◌∷◌, ◌++◌, String, Bytes, codes, same, if◌then◌else◌,
}
use smurf.Smfc.Printer.{Vars, Call, indent, outdent, fill, text, var}
use smurf.Smfc.Schema.{Schema, Service, services}
use smurf.Smfc.Cpp.Names.{file_name_identifier, proper_postfix_token}
use smurf.Smfc.Cpp.Service.{print_header_service}
use smurf.Smfc.Cpp.Client.{print_header_client, print_std_ostream_services}

abbrev pub message_header_ext : Bytes
message_header_ext = codes "_generated.h"

header_vars : Schema → Vars
unfolding file_name_identifier
header_vars schema =
    var "message_header_ext" message_header_ext
    ∷ var "filename_base" schema.without_ext
    ∷ var "filename_identifier" (file_name_identifier schema.without_ext)
    ∷ var "filename" schema.input_filename
    ∷ []

transitive : Bytes → Vars → List Bytes → List Call
transitive input vars [] = []
transitive input vars (file ∷ files) =
    let rest = transitive input vars files in
    if same file input
    then rest
    else fill (var "header" file ∷ vars) "// transitive fbs: $header$\n" ∷ rest

unfoldable pub generate_header_prologue : Schema → List Call
unfolding header_vars transitive
generate_header_prologue schema =
    let vars = header_vars schema in
    (text "// Generated by smfc.\n"
      ∷ text "// Any local changes WILL BE LOST.\n"
      ∷ fill vars "// source: $filename$\n"
      ∷ [])
    ++ (transitive schema.input_filename vars schema.included_files
        ++ (text "#pragma once\n"
            ∷ fill vars "#ifndef SMF_$filename_identifier$_INCLUDED\n"
            ∷ fill vars "#define SMF_$filename_identifier$_INCLUDED\n\n"
            ∷ []))

ostream_services : List Service → List Call
unfolding print_std_ostream_services
ostream_services [] = []
ostream_services (srv ∷ srvs) = print_std_ostream_services srv ++ ostream_services srvs

-- The two nested loops: over the services, and over all of them again in each round.
ostream_rounds : List Service → List Service → List Call
unfolding ostream_services
ostream_rounds all [] = []
ostream_rounds all (srv ∷ srvs) = ostream_services all ++ ostream_rounds all srvs

unfoldable pub generate_header_prologue_forward_decl_external : List Service → List Call
unfolding ostream_rounds
generate_header_prologue_forward_decl_external srvs = ostream_rounds srvs srvs ++ (text "\n" ∷ [])

unfoldable pub generate_header_prologue_forward_decl : List Service → List Call
unfolding proper_postfix_token
generate_header_prologue_forward_decl [] = text "\n" ∷ []
generate_header_prologue_forward_decl (srv ∷ srvs) =
    let vars =
      var "ClientName" (proper_postfix_token srv.name (codes "client"))
      ∷ var "Service" srv.name
      ∷ [] in
    fill vars "class $Service$;\n"
    ∷ fill vars "class $ClientName$;\n"
    ∷ generate_header_prologue_forward_decl srvs

namespaces : List Bytes → List Call
namespaces [] = text "\n" ∷ []
namespaces (part ∷ parts) = fill (var "part" part ∷ []) "namespace $part$ {\n" ∷ namespaces parts

unfoldable pub generate_header_prologue_namespace : Schema → List Call
unfolding namespaces
generate_header_prologue_namespace schema =
    if same schema.package_name [] then [] else namespaces schema.package_parts

unfoldable pub include : String → Call
include header = fill (var "header" (codes header) ∷ []) "#include <$header$>\n"

unfoldable pub generate_header_prologue_includes : Schema → List Call
unfolding include header_vars
generate_header_prologue_includes schema =
    include "ostream"
    ∷ include "seastar/core/sstring.hh"
    ∷ include "smf/rpc_service.h"
    ∷ include "smf/rpc_client.h"
    ∷ include "smf/rpc_recv_typed_context.h"
    ∷ include "smf/rpc_typed_envelope.h"
    ∷ include "smf/log.h"
    ∷ text "\n"
    ∷ fill (header_vars schema) "#include \"$filename_base$$message_header_ext$\"\n\n"
    ∷ []

-- The closing of the namespaces, the last one first
closing : Vars → List Bytes → List Call
closing vars [] = []
closing vars (part ∷ parts) =
    closing vars parts ++ (fill (var "part" part ∷ vars) "}  // namespace $part$\n" ∷ [])

epilogue_vars : Schema → Vars
unfolding file_name_identifier
epilogue_vars schema =
    var "filename_identifier" (file_name_identifier schema.without_ext)
    ∷ var "filename" schema.input_filename
    ∷ []

unfoldable pub generate_header_epilogue_namespace : Schema → List Call
unfolding closing epilogue_vars
generate_header_epilogue_namespace schema =
    let vars = epilogue_vars schema in
    (if same schema.package_name []
      then []
      else (closing vars schema.package_parts ++ (fill vars "\n" ∷ [])))
    ++ (fill vars "\n" ∷ [])

unfoldable pub generate_header_epilogue : Schema → List Call
unfolding epilogue_vars
generate_header_epilogue schema =
    text "\n\n" ∷ fill (epilogue_vars schema) "#endif  // SMF_$filename_identifier$_INCLUDED\n" ∷ []

unfoldable pub generate_header_services : List Service → List Call
unfolding print_header_service print_header_client
generate_header_services [] = []
generate_header_services (srv ∷ srvs) =
    print_header_service srv
    ++ (text "\n" ∷ (print_header_client srv ++ (text "\n" ∷ generate_header_services srvs)))

-- cpp_generator::gen, up to the saving of the file
unfoldable pub gen : (Bytes → ℕ) → Schema → List Call
unfolding services generate_header_prologue generate_header_prologue_includes
    generate_header_prologue_namespace generate_header_prologue_forward_decl
    generate_header_epilogue_namespace generate_header_prologue_forward_decl_external
    generate_header_services generate_header_epilogue
gen crc32 schema =
    let srvs = services crc32 schema.service_defs in
    generate_header_prologue schema
    ++ (generate_header_prologue_includes schema
        ++ (generate_header_prologue_namespace schema
            ++ (generate_header_prologue_forward_decl srvs
                ++ (generate_header_epilogue_namespace schema
                    ++ (generate_header_prologue_forward_decl_external srvs
                        ++ (generate_header_prologue_namespace schema
                            ++ (generate_header_services srvs
                                ++ (generate_header_epilogue_namespace schema
                                    ++ generate_header_epilogue schema))))))))
