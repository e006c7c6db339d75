-- ===== src/Smfc/Go.antt =====
-- src/smfc/go_generator.cc and src/smfc/go_generator.h.
pub mod Level
pub mod Plain
use smurf.Prelude.{
  ℕ, Bool, true, false, Option, none, some, List, [], ◌∷◌, ◌++◌, String, Bytes, codes, to_string,
}
use smurf.Smfc.Printer.{Vars, Call, Printer, new_printer, indent, outdent, fill, text, var}
use smurf.Smfc.Schema.{Schema, Method, Service, services}
use smurf.Smfc.Cpp.Names.{capitalized}

-- s[0] = std::toupper(s[0])
unfoldable pub go_public_name : Bytes → Bytes
unfolding capitalized
go_public_name s = capitalized s

-- The constructor of go_generator: go uses tabs.
abbrev pub go_printer : Printer
go_printer = record new_printer { indent_char = 9; indent_step = 1 }

unfoldable pub method_vars : Method → Vars
unfolding go_public_name to_string
method_vars method =
    let name = go_public_name method.service_name in
    var "InType" method.request.name
    ∷ var "MethodName" (go_public_name method.name)
    ∷ var "RawMethodName" (codes "Raw" ++ go_public_name method.name)
    ∷ var "MethodID" (to_string method.method_id)
    ∷ var "ServiceName" (name ++ codes "Service")
    ∷ var "InterfaceName" name
    ∷ []

unfoldable pub print_server_method : Method → List Call
unfolding method_vars
print_server_method method =
    let vars = method_vars method in
    fill vars
      "func (s *$ServiceName$) $RawMethodName$(ctx context.Context, req []byte) ([]byte, error) {\n"
    ∷ indent
    ∷ fill vars "return s.$InterfaceName$.$MethodName$(ctx, GetRootAs$InType$(req, 0))\n"
    ∷ outdent
    ∷ text "}\n\n"
    ∷ []

unfoldable pub server_vars : Service → Vars
unfolding go_public_name to_string
server_vars service =
    let name = go_public_name service.name in
    var "ServiceID" (to_string service.service_id)
    ∷ var "ServiceName" (name ++ codes "Service")
    ∷ var "InterfaceName" name
    ∷ []

unfoldable pub jump_cases : Vars → List Method → List Call
unfolding go_public_name to_string
jump_cases vars [] = []
jump_cases vars (m ∷ methods) =
    let vars' =
      var "RawMethodName" (codes "Raw" ++ go_public_name m.name)
      ∷ var "MethodID" (to_string m.method_id)
      ∷ vars in
    fill vars' "case $ServiceID$ ^ $MethodID$:\n"
    ∷ indent
    ∷ fill vars' "return s.$RawMethodName$\n"
    ∷ outdent
    ∷ jump_cases vars methods

unfoldable pub print_server_jump_table : Service → List Call
unfolding server_vars jump_cases
print_server_jump_table service =
    let vars = server_vars service in
    (fill vars "func (s *$ServiceName$) MethodHandle(id uint32) smf.RawHandle {\n"
      ∷ indent
      ∷ text "switch id {\n"
      ∷ [])
    ++ (jump_cases vars service.methods
        ++ (text "default:\n"
            ∷ indent
            ∷ text "return nil\n"
            ∷ outdent
            ∷ text "}\n"
            ∷ outdent
            ∷ text "}\n\n"
            ∷ []))

unfoldable pub interface_methods : Vars → List Method → List Call
unfolding go_public_name
interface_methods vars [] = []
interface_methods vars (m ∷ methods) =
    fill (var "InType" m.request.name ∷ var "MethodName" (go_public_name m.name) ∷ vars)
      "$MethodName$(context.Context, *$InType$) ([]byte, error)\n"
    ∷ interface_methods vars methods

-- The service, its constructor, its name and its id
unfoldable pub service_calls : Vars → List Call
service_calls vars =
    fill vars "type $ServiceName$ struct {\n"
    ∷ indent
    ∷ fill vars "$InterfaceName$\n"
    ∷ outdent
    ∷ text "}\n\n"
    ∷ fill vars "func New$ServiceName$(s $InterfaceName$) *$ServiceName$ {\n"
    ∷ indent
    ∷ fill vars "return &$ServiceName${$InterfaceName$: s}\n"
    ∷ outdent
    ∷ text "}\n\n"
    ∷ fill vars "func (s *$ServiceName$) ServiceName() string {\n"
    ∷ indent
    ∷ fill vars "return \"$InterfaceName$\"\n"
    ∷ outdent
    ∷ text "}\n\n"
    ∷ fill vars "func (s *$ServiceName$) ServiceID() uint32 {\n"
    ∷ indent
    ∷ fill vars "return $ServiceID$\n"
    ∷ outdent
    ∷ text "}\n\n"
    ∷ []

unfoldable pub server_methods : List Method → List Call
unfolding print_server_method
server_methods [] = []
server_methods (m ∷ methods) = print_server_method m ++ server_methods methods

unfoldable pub interface_calls : Vars → List Method → List Call
unfolding interface_methods
interface_calls vars methods =
    (fill vars "\n// $InterfaceName$ - $InterfaceName$ Server interface\n"
      ∷ fill vars "type $InterfaceName$ interface {\n"
      ∷ indent
      ∷ [])
    ++ (interface_methods vars methods ++ (outdent ∷ text "}\n\n" ∷ []))

unfoldable pub print_server : Service → List Call
unfolding server_vars interface_calls service_calls print_server_jump_table server_methods
print_server service =
    let vars = server_vars service in
    interface_calls vars service.methods
    ++ (service_calls vars ++ (print_server_jump_table service ++ server_methods service.methods))

unfoldable pub client_vars : Method → Vars
unfolding go_public_name to_string
client_vars method =
    let name = go_public_name method.service_name in
    var "OutputType" method.response.name
    ∷ var "MethodName" (go_public_name method.name)
    ∷ var "RawMethodName" (codes "Raw" ++ go_public_name method.name)
    ∷ var "ServiceID" (to_string method.service_id)
    ∷ var "MethodID" (to_string method.method_id)
    ∷ var "ClientName" (name ++ codes "Client")
    ∷ var "InterfaceName" name
    ∷ []

unfoldable pub print_client_method : Method → List Call
unfolding client_vars
print_client_method method =
    let vars = client_vars method in
    fill vars
      "func (s *$ClientName$) $MethodName$(ctx context.Context, req []byte) (*$OutputType$, error) {\n"
    ∷ indent
    ∷ fill vars "res, err := s.$RawMethodName$(ctx, req)\nif err != nil {\n"
    ∷ indent
    ∷ text "return nil, err\n"
    ∷ outdent
    ∷ text "}\n"
    ∷ fill vars "return GetRootAs$OutputType$(res, 0), nil\n"
    ∷ outdent
    ∷ text "}\n\n"
    ∷ fill vars
        "func (s *$ClientName$) $RawMethodName$(ctx context.Context, req []byte) ([]byte, error) {\n"
    ∷ indent
    ∷ fill vars "return s.Client.SendRecv(req, $ServiceID$^$MethodID$)\n"
    ∷ outdent
    ∷ text "}\n"
    ∷ []

unfoldable pub client_methods : List Method → List Call
unfolding print_client_method
client_methods [] = []
client_methods (m ∷ methods) = print_client_method m ++ client_methods methods

unfoldable pub print_client : Service → List Call
unfolding client_methods go_public_name to_string
print_client service =
    let name = go_public_name service.name in
    let vars =
      var "ServiceID" (to_string service.service_id)
      ∷ var "ClientName" (name ++ codes "Client")
      ∷ var "InterfaceName" name
      ∷ [] in
    (text "// Client\n"
      ∷ fill vars "type $ClientName$ struct {\n"
      ∷ indent
      ∷ fill vars "*smf.Client\n"
      ∷ outdent
      ∷ text "}\n\n"
      ∷ fill vars "func New$ClientName$(c *smf.Client) *$ClientName$ {\n"
      ∷ indent
      ∷ fill vars "return &$ClientName${Client: c}\n"
      ∷ outdent
      ∷ text "}\n\n"
      ∷ [])
    ++ client_methods service.methods

-- package_parts().back(); none where there is no part, which is undefined behaviour
unfoldable pub back : List Bytes → Option Bytes
back [] = none
back (part ∷ []) = some part
back (part ∷ next ∷ parts) = back (next ∷ parts)

unfoldable pub generate_header_prologue : Bytes → Bytes → List Call
generate_header_prologue input part =
    let vars = var "package" part ∷ var "filename" input ∷ [] in
    text "// Generated by smfc.\n"
    ∷ text "// Any local changes WILL BE LOST.\n"
    ∷ fill vars "// source: $filename$\n"
    ∷ fill vars "package $package$\n\n"
    ∷ []

unfoldable pub generate_header_includes : List Call
generate_header_includes =
    text "import (\n"
    ∷ indent
    ∷ text "\"context\"\n\"github.com/smfrpc/smf-go/src/smf\"\n"
    ∷ outdent
    ∷ text ")\n"
    ∷ []

unfoldable pub servers : List Service → List Call
unfolding print_server
servers [] = []
servers (srv ∷ srvs) = print_server srv ++ servers srvs

unfoldable pub clients : List Service → List Call
unfolding print_client
clients [] = []
clients (srv ∷ srvs) = print_client srv ++ clients srvs

unfoldable pub generate_header_services : List Service → List Call
unfolding servers clients
generate_header_services srvs = servers srvs ++ clients srvs

unfoldable pub gen_package : (Bytes → ℕ) → Schema → Option Bytes → Option (List Call)
unfolding services generate_header_prologue generate_header_includes generate_header_services
gen_package crc32 schema none = none
gen_package crc32 schema (some part) = some (
    generate_header_prologue schema.input_filename part
    ++ (generate_header_includes ++ generate_header_services (services crc32 schema.service_defs)))

-- go_generator::gen, up to the making of directories and the saving of the file
unfoldable pub gen : (Bytes → ℕ) → Schema → Option (List Call)
unfolding gen_package back
gen crc32 schema = gen_package crc32 schema (back schema.package_parts)
