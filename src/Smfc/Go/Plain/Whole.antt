-- ===== src/Smfc/Go/Plain/Whole.antt =====
-- What src/smfc/go_generator.cc generates, client and server, is printed to the end.
use smurf.Prelude.{
  ℕ, ◌≤◌, ◌≡◌, inl, inr, Option-cases, some, List, [], ◌∷◌, ◌++◌, Bytes, arith, codes, subst,
  to_string,
}
use smurf.Smfc.Printer.{Call, var}
use smurf.Smfc.Printer.Substitution.{escapes}
use smurf.Smfc.Schema.{Schema, Method, Service, services}
use smurf.Smfc.Go.{
  go_public_name, client_vars, print_client_method, client_methods, print_client, back,
  generate_header_prologue, generate_header_includes, servers, clients, generate_header_services,
  gen_package, gen,
}
use smurf.Smfc.Plain.{
  NoEscape, AllNoEscape, PlainMethod, PlainService, AllPlainMethods, AllPlainServices, PlainValues,
  PlainValues-IsPlain, IsPrintable, IsPrintable-append, to_string-NoEscape,
}
use smurf.Smfc.Go.Plain.{
  go_public_name-NoEscape, client_name-NoEscape, client_vars-PlainValues, server-IsPrintable,
}
use smurf.Smfc.Plain.Schema.{PlainSchema, services-AllPlainServices}

back-NoEscape :
    (parts : List Bytes) (part : Bytes) → AllNoEscape parts → back parts ≡ some part → NoEscape part
unfolding back
back-NoEscape [] part p e = cc
back-NoEscape (x ∷ []) part (p, ps) e = let same : x ≡ part = cc in subst NoEscape same p
back-NoEscape (x ∷ y ∷ parts) part (p, ps) e = back-NoEscape (y ∷ parts) part ps e

module _ (fuel : ℕ) (enough : 8 ≤ fuel) where
  client_method-IsPrintable :
      (m : Method) → PlainMethod m → IsPrintable fuel (print_client_method m)
  unfolding print_client_method escapes
  client_method-IsPrintable m p =
      let plain = PlainValues-IsPlain (client_vars m) (client_vars-PlainValues m p) in
      record { plain = grind arith }

  client_methods-IsPrintable :
      (ms : List Method) → AllPlainMethods ms → IsPrintable fuel (client_methods ms)
  unfolding client_methods
  client_methods-IsPrintable [] p = record { plain = tt }
  client_methods-IsPrintable (m ∷ ms) (p, ps) =
      IsPrintable-append (client_method-IsPrintable m p) (client_methods-IsPrintable ms ps)

  client-IsPrintable : (s : Service) → PlainService s → IsPrintable fuel (print_client s)
  unfolding print_client escapes
  client-IsPrintable s p =
      let vars =
        var "ServiceID" (to_string s.service_id)
        ∷ var "ClientName" (go_public_name s.name ++ codes "Client")
        ∷ var "InterfaceName" (go_public_name s.name)
        ∷ [] in
      let values : PlainValues vars = (
        to_string-NoEscape s.service_id,
        (client_name-NoEscape p.name, (go_public_name-NoEscape p.name, tt)),
      ) in
      let plain = PlainValues-IsPlain vars values in
      let methods = (client_methods-IsPrintable s.methods p.methods).plain in
      record {
        plain = (
          (plain, omega arith),
          ((plain, omega arith), ((plain, omega arith), ((plain, omega arith), methods))),
        );
      }

  servers-IsPrintable :
      (srvs : List Service) → AllPlainServices srvs → IsPrintable fuel (servers srvs)
  unfolding servers
  servers-IsPrintable [] p = record { plain = tt }
  servers-IsPrintable (s ∷ srvs) (p, ps) =
      IsPrintable-append (server-IsPrintable fuel enough s p) (servers-IsPrintable srvs ps)

  clients-IsPrintable :
      (srvs : List Service) → AllPlainServices srvs → IsPrintable fuel (clients srvs)
  unfolding clients
  clients-IsPrintable [] p = record { plain = tt }
  clients-IsPrintable (s ∷ srvs) (p, ps) =
      IsPrintable-append (client-IsPrintable s p) (clients-IsPrintable srvs ps)

  services-IsPrintable :
      (srvs : List Service)
      → AllPlainServices srvs
      → IsPrintable fuel (generate_header_services srvs)
  unfolding generate_header_services
  services-IsPrintable srvs p =
      IsPrintable-append (servers-IsPrintable srvs p) (clients-IsPrintable srvs p)

  prologue-IsPrintable :
      (input part : Bytes)
      → NoEscape input
      → NoEscape part
      → IsPrintable fuel (generate_header_prologue input part)
  unfolding generate_header_prologue escapes
  prologue-IsPrintable input part p q =
      let plain =
        PlainValues-IsPlain (var "package" part ∷ var "filename" input ∷ []) (q, (p, tt)) in
      record { plain = ((plain, omega arith), ((plain, omega arith), tt)) }

  pub go_gen-IsPrintable :
      (crc32 : Bytes → ℕ) (schema : Schema) (calls : List Call)
      → PlainSchema schema
      → gen crc32 schema ≡ some calls
      → IsPrintable fuel calls
  unfolding gen gen_package generate_header_includes
  go_gen-IsPrintable crc32 schema calls p e =
      let srvs = services crc32 schema.service_defs in
      elim (Option-cases (back schema.package_parts)) [
        | inl no_part ↦ absurd (cc (no_part, e))
        | inr (part, found) ↦
            let includes : IsPrintable fuel generate_header_includes = record { plain = tt } in
            let whole : IsPrintable fuel (
                generate_header_prologue schema.input_filename part
                ++ (generate_header_includes ++ generate_header_services srvs)) =
              IsPrintable-append
                (prologue-IsPrintable schema.input_filename part p.input_filename
                  (back-NoEscape schema.package_parts part p.package_parts found))
                (IsPrintable-append includes (
                  services-IsPrintable srvs
                    (services-AllPlainServices crc32 schema.service_defs p.service_defs))) in
            let made : generate_header_prologue schema.input_filename part
                  ++ (generate_header_includes ++ generate_header_services srvs)
                ≡ calls =
              cc in
            subst (IsPrintable fuel) made whole
      ]
