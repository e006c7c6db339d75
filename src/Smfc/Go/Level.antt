-- ===== src/Smfc/Go/Level.antt =====
-- The file that go_generator::gen prints is level.
use smurf.Prelude.{ℕ, suc, ◌≡◌, refl, ap, ◌∙◌, some, List, [], ◌∷◌, Bytes}
use smurf.Smfc.Printer.{Vars, Call}
use smurf.Smfc.Schema.{Schema, Method, Service, services}
use smurf.Smfc.Printer.Depth.{depth_all, IsLevel, IsLevel-append, empty-IsLevel, skip}
use smurf.Smfc.Go.{
  jump_cases, print_server_jump_table, interface_methods, interface_calls, service_calls,
  server_methods, server_vars, print_server, client_methods, print_client, back,
  generate_header_prologue, generate_header_includes, servers, clients, generate_header_services,
  gen_package, gen,
}

jump_cases-IsLevel : (vars : Vars) (methods : List Method) → IsLevel (jump_cases vars methods)
unfolding jump_cases depth_all
jump_cases-IsLevel vars [] = empty-IsLevel
jump_cases-IsLevel vars (m ∷ methods) = record {
  keeps = λ n. (jump_cases-IsLevel vars methods).keeps n;
}

jump_table-IsLevel : (service : Service) → IsLevel (print_server_jump_table service)
unfolding print_server_jump_table depth_all
jump_table-IsLevel service = record {
  keeps = λ n. skip (jump_cases-IsLevel _ service.methods) _ (suc n);
}

interface_methods-IsLevel :
    (vars : Vars) (methods : List Method) → IsLevel (interface_methods vars methods)
unfolding interface_methods depth_all
interface_methods-IsLevel vars [] = empty-IsLevel
interface_methods-IsLevel vars (m ∷ methods) = record {
  keeps = λ n. (interface_methods-IsLevel vars methods).keeps n;
}

interface-IsLevel : (vars : Vars) (methods : List Method) → IsLevel (interface_calls vars methods)
unfolding interface_calls depth_all
interface-IsLevel vars methods = record {
  keeps = λ n. skip (interface_methods-IsLevel vars methods) _ (suc n);
}

service_calls-IsLevel : (vars : Vars) → IsLevel (service_calls vars)
unfolding service_calls depth_all
service_calls-IsLevel vars = record { keeps = λ n. refl }

server_methods-IsLevel : (methods : List Method) → IsLevel (server_methods methods)
unfolding server_methods depth_all
server_methods-IsLevel [] = empty-IsLevel
server_methods-IsLevel (m ∷ methods) = record {
  keeps = λ n. (server_methods-IsLevel methods).keeps n;
}

server-IsLevel : (service : Service) → IsLevel (print_server service)
unfolding print_server
server-IsLevel service = IsLevel-append (interface-IsLevel (server_vars service) service.methods) (
    IsLevel-append (service_calls-IsLevel (server_vars service))
      (IsLevel-append (jump_table-IsLevel service) (server_methods-IsLevel service.methods)))

client_methods-IsLevel : (methods : List Method) → IsLevel (client_methods methods)
unfolding client_methods depth_all
client_methods-IsLevel [] = empty-IsLevel
client_methods-IsLevel (m ∷ methods) = record {
  keeps = λ n. (client_methods-IsLevel methods).keeps n;
}

client-IsLevel : (service : Service) → IsLevel (print_client service)
unfolding print_client depth_all
client-IsLevel service = record { keeps = λ n. (client_methods-IsLevel service.methods).keeps n }

servers-IsLevel : (srvs : List Service) → IsLevel (servers srvs)
unfolding servers
servers-IsLevel [] = empty-IsLevel
servers-IsLevel (srv ∷ srvs) = IsLevel-append (server-IsLevel srv) (servers-IsLevel srvs)

clients-IsLevel : (srvs : List Service) → IsLevel (clients srvs)
unfolding clients
clients-IsLevel [] = empty-IsLevel
clients-IsLevel (srv ∷ srvs) = IsLevel-append (client-IsLevel srv) (clients-IsLevel srvs)

prologue-IsLevel : (input part : Bytes) → IsLevel (generate_header_prologue input part)
unfolding generate_header_prologue depth_all
prologue-IsLevel input part = record { keeps = λ n. refl }

includes-IsLevel : IsLevel generate_header_includes
unfolding generate_header_includes depth_all
includes-IsLevel = record { keeps = λ n. refl }

services-IsLevel : (srvs : List Service) → IsLevel (generate_header_services srvs)
unfolding generate_header_services
services-IsLevel srvs = IsLevel-append (servers-IsLevel srvs) (clients-IsLevel srvs)

gen_package-IsLevel :
    (crc32 : Bytes → ℕ) (schema : Schema) (part : Bytes)
    → (calls : List Call) × (gen_package crc32 schema (some part) ≡ some calls) × IsLevel calls
unfolding gen_package
gen_package-IsLevel crc32 schema part = (
  _,
  refl,
  IsLevel-append (prologue-IsLevel schema.input_filename part)
      (IsLevel-append includes-IsLevel (services-IsLevel (services crc32 schema.service_defs))),
)

back-some : (part : Bytes) (parts : List Bytes) → (b : Bytes) × (back (part ∷ parts) ≡ some b)
unfolding back
back-some part [] = (part, refl)
back-some part (next ∷ parts) = back-some next parts

-- For a schema with a namespace, the Go generator makes its calls, and they close every
-- indentation that they open and no other.
pub go_gen-IsLevel :
    (crc32 : Bytes → ℕ) (schema : Schema) (part : Bytes) (parts : List Bytes)
    → schema.package_parts ≡ part ∷ parts
    → (calls : List Call) × (gen crc32 schema ≡ some calls) × IsLevel calls
unfolding gen
go_gen-IsLevel crc32 schema part parts e =
    let (b, found) = back-some part parts in
    let (calls, made, level) = gen_package-IsLevel crc32 schema b in
    (calls, ap (gen_package crc32 schema) (ap back e ∙ found) ∙ made, level)
