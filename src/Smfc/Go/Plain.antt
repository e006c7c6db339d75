-- ===== src/Smfc/Go/Plain.antt =====
-- The server that src/smfc/go_generator.cc generates is printed to the end.
pub mod Whole
use smurf.Prelude.{
  ℕ, ◌≤◌, ◌≡◌, refl, inl, inr, Option-cases, some, List, [], ◌∷◌, ◌++◌, Bytes, arith, codes, subst,
  to_string,
}
use smurf.Smfc.Printer.{Vars, Call, var}
use smurf.Smfc.Printer.Substitution.{escapes}
use smurf.Smfc.Schema.{Schema, Method, Service, services}
use smurf.Smfc.Go.{
  go_public_name, method_vars, print_server_method, server_vars, jump_cases,
  print_server_jump_table, interface_methods, service_calls, server_methods, interface_calls,
  print_server, client_vars, print_client_method, client_methods, print_client, back,
  generate_header_prologue, generate_header_includes, servers, clients, generate_header_services,
  gen_package, gen,
}
use smurf.Smfc.Plain.{
  NoEscape, AllNoEscape, append-NoEscape, PlainMethod, PlainService, AllPlainMethods,
  AllPlainServices, PlainValues, PlainValues-IsPlain, IsPrintable, IsPrintable-append, before,
  to_string-NoEscape, capitalized-NoEscape,
}

pub go_public_name-NoEscape : {s : Bytes} → NoEscape s → NoEscape (go_public_name s)
unfolding go_public_name
go_public_name-NoEscape p = capitalized-NoEscape p

raw_name-NoEscape : {s : Bytes} → NoEscape s → NoEscape (codes "Raw" ++ go_public_name s)
unfolding escapes
raw_name-NoEscape p =
    let raw : NoEscape (codes "Raw") = record { none_there = refl } in
    append-NoEscape raw (go_public_name-NoEscape p)

service_name-NoEscape : {s : Bytes} → NoEscape s → NoEscape (go_public_name s ++ codes "Service")
unfolding escapes
service_name-NoEscape p =
    let service : NoEscape (codes "Service") = record { none_there = refl } in
    append-NoEscape (go_public_name-NoEscape p) service

pub client_name-NoEscape : {s : Bytes} → NoEscape s → NoEscape (go_public_name s ++ codes "Client")
unfolding escapes
client_name-NoEscape p =
    let client : NoEscape (codes "Client") = record { none_there = refl } in
    append-NoEscape (go_public_name-NoEscape p) client

method_vars-PlainValues : (m : Method) → PlainMethod m → PlainValues (method_vars m)
unfolding method_vars
method_vars-PlainValues m p = (
  p.request.name,
  (
    go_public_name-NoEscape p.name,
    (
      raw_name-NoEscape p.name,
      (
        to_string-NoEscape m.method_id,
        (service_name-NoEscape p.service_name, (go_public_name-NoEscape p.service_name, tt)),
      ),
    ),
  ),
)

server_vars-PlainValues : (s : Service) → PlainService s → PlainValues (server_vars s)
unfolding server_vars
server_vars-PlainValues s p = (
  to_string-NoEscape s.service_id,
  (service_name-NoEscape p.name, (go_public_name-NoEscape p.name, tt)),
)

pub client_vars-PlainValues : (m : Method) → PlainMethod m → PlainValues (client_vars m)
unfolding client_vars
client_vars-PlainValues m p = (
  p.response.name,
  (
    go_public_name-NoEscape p.name,
    (
      raw_name-NoEscape p.name,
      (
        to_string-NoEscape m.service_id,
        (
          to_string-NoEscape m.method_id,
          (client_name-NoEscape p.service_name, (go_public_name-NoEscape p.service_name, tt)),
        ),
      ),
    ),
  ),
)

module _ (fuel : ℕ) (enough : 8 ≤ fuel) where
  server_method-IsPrintable :
      (m : Method) → PlainMethod m → IsPrintable fuel (print_server_method m)
  unfolding print_server_method escapes
  server_method-IsPrintable m p =
      let plain = PlainValues-IsPlain (method_vars m) (method_vars-PlainValues m p) in
      record { plain = ((plain, omega arith), ((plain, omega arith), tt)) }

  jump_cases-IsPrintable :
      (vars : Vars) (ms : List Method)
      → PlainValues vars
      → AllPlainMethods ms
      → IsPrintable fuel (jump_cases vars ms)
  unfolding jump_cases escapes
  jump_cases-IsPrintable vars [] p q = record { plain = tt }
  jump_cases-IsPrintable vars (m ∷ ms) p (q, qs) =
      let vars' =
        var "RawMethodName" (codes "Raw" ++ go_public_name m.name)
        ∷ var "MethodID" (to_string m.method_id)
        ∷ vars in
      let values : PlainValues vars' =
        (raw_name-NoEscape q.name, (to_string-NoEscape m.method_id, p)) in
      let plain = PlainValues-IsPlain vars' values in
      record {
        plain = (
          (plain, omega arith),
          ((plain, omega arith), (jump_cases-IsPrintable vars ms p qs).plain),
        );
      }

  jump_table-IsPrintable :
      (s : Service) → PlainService s → IsPrintable fuel (print_server_jump_table s)
  unfolding print_server_jump_table escapes
  jump_table-IsPrintable s p =
      let vars = server_vars s in
      let values = server_vars-PlainValues s p in
      let plain = PlainValues-IsPlain vars values in
      let cases = before (jump_cases-IsPrintable vars s.methods values p.methods) _ tt in
      record { plain = ((plain, omega arith), cases) }

  interface_methods-IsPrintable :
      (vars : Vars) (ms : List Method)
      → PlainValues vars
      → AllPlainMethods ms
      → IsPrintable fuel (interface_methods vars ms)
  unfolding interface_methods escapes
  interface_methods-IsPrintable vars [] p q = record { plain = tt }
  interface_methods-IsPrintable vars (m ∷ ms) p (q, qs) =
      let vars' = var "InType" m.request.name ∷ var "MethodName" (go_public_name m.name) ∷ vars in
      let values : PlainValues vars' = (q.request.name, (go_public_name-NoEscape q.name, p)) in
      let plain = PlainValues-IsPlain vars' values in
      record { plain = ((plain, omega arith), (interface_methods-IsPrintable vars ms p qs).plain) }

  service_calls-IsPrintable :
      (vars : Vars) → PlainValues vars → IsPrintable fuel (service_calls vars)
  unfolding service_calls escapes
  service_calls-IsPrintable vars p =
      let plain = PlainValues-IsPlain vars p in record { plain = grind arith }

  server_methods-IsPrintable :
      (ms : List Method) → AllPlainMethods ms → IsPrintable fuel (server_methods ms)
  unfolding server_methods
  server_methods-IsPrintable [] p = record { plain = tt }
  server_methods-IsPrintable (m ∷ ms) (p, ps) =
      IsPrintable-append (server_method-IsPrintable m p) (server_methods-IsPrintable ms ps)

  interface-IsPrintable :
      (vars : Vars) (ms : List Method)
      → PlainValues vars
      → AllPlainMethods ms
      → IsPrintable fuel (interface_calls vars ms)
  unfolding interface_calls escapes
  interface-IsPrintable vars ms p q =
      let plain = PlainValues-IsPlain vars p in
      let methods = before (interface_methods-IsPrintable vars ms p q) _ tt in
      record { plain = ((plain, omega arith), ((plain, omega arith), methods)) }

  pub server-IsPrintable : (s : Service) → PlainService s → IsPrintable fuel (print_server s)
  unfolding print_server
  server-IsPrintable s p =
      let values = server_vars-PlainValues s p in
      IsPrintable-append (interface-IsPrintable (server_vars s) s.methods values p.methods) (
        IsPrintable-append (service_calls-IsPrintable (server_vars s) values) (
          IsPrintable-append (jump_table-IsPrintable s p)
            (server_methods-IsPrintable s.methods p.methods)))
