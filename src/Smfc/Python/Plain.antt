-- ===== src/Smfc/Python/Plain.antt =====
-- What src/smfc/python_generator.cc generates is printed to the end.
use smurf.Prelude.{
  ℕ, ◌≤◌, ◌≡◌, refl, inl, inr, Option-cases, subst, some, List, [], ◌∷◌, ◌++◌, Bytes, arith, codes,
  to_string,
}
use Prim.Native.Nat.{bit_xor}
use smurf.Smfc.Printer.{Call, var, outdent}
use smurf.Smfc.Printer.Substitution.{escapes}
use smurf.Smfc.Schema.{Schema, Method, Service, services}
use smurf.Smfc.Python.{
  python_public_name, method_vars, print_client_method, blank_line, client_methods, print_client,
  generate_header_prologue, service_imports, import_lines, generate_header_includes,
  generate_header_services, gen,
}
use smurf.Smfc.Plain.{
  NoEscape, append-NoEscape, PlainMethod, PlainService, AllPlainMethods, AllPlainServices,
  PlainValues, PlainValues-IsPlain, IsPrintable, IsPrintable-append, before, to_string-NoEscape,
  python_type-NoEscape, capitalized-NoEscape,
}
use smurf.Smfc.Plain.Schema.{PlainSchema, services-AllPlainServices}

python_public_name-NoEscape : {s : Bytes} → NoEscape s → NoEscape (python_public_name s)
unfolding python_public_name
python_public_name-NoEscape p = capitalized-NoEscape p

method_vars-PlainValues : (m : Method) → PlainMethod m → PlainValues (method_vars m)
unfolding method_vars
method_vars-PlainValues m p = (
  to_string-NoEscape (bit_xor m.service_id m.method_id),
  (
    python_type-NoEscape p.response,
    (
      to_string-NoEscape m.service_id,
      (to_string-NoEscape m.method_id, (python_public_name-NoEscape p.name, tt)),
    ),
  ),
)

module _ (fuel : ℕ) (enough : 8 ≤ fuel) where
  method-IsPrintable : (m : Method) → PlainMethod m → IsPrintable fuel (print_client_method m)
  unfolding print_client_method escapes
  method-IsPrintable m p =
      let plain = PlainValues-IsPlain (method_vars m) (method_vars-PlainValues m p) in
      record { plain = grind arith }

  import_lines-IsPrintable : (imports : List Bytes) → IsPrintable fuel (import_lines imports)
  unfolding import_lines
  import_lines-IsPrintable [] = record { plain = tt }
  import_lines-IsPrintable (x ∷ imports) = record {
    plain = (import_lines-IsPrintable imports).plain;
  }

  blank_line-IsPrintable : (ms : List Method) → IsPrintable fuel (blank_line ms)
  unfolding blank_line
  blank_line-IsPrintable [] = record { plain = tt }
  blank_line-IsPrintable (m ∷ ms) = record { plain = tt }

  client_methods-IsPrintable :
      (ms : List Method) → AllPlainMethods ms → IsPrintable fuel (client_methods ms)
  unfolding client_methods
  client_methods-IsPrintable [] p = record { plain = tt }
  client_methods-IsPrintable (m ∷ ms) (p, ps) =
      let rest =
        IsPrintable-append (blank_line-IsPrintable ms) (client_methods-IsPrintable ms ps) in
      record {
        plain =
            before (method-IsPrintable m p) (outdent ∷ (blank_line ms ++ client_methods ms))
              rest.plain;
      }

  client-IsPrintable : (s : Service) → PlainService s → IsPrintable fuel (print_client s)
  unfolding print_client escapes
  client-IsPrintable s p =
      let name = python_public_name s.name in
      let vars =
        var "ServiceID" (to_string s.service_id)
        ∷ var "ClientName" (name ++ codes "Client")
        ∷ var "InterfaceName" name
        ∷ [] in
      let client : NoEscape (codes "Client") = record { none_there = refl } in
      let public = python_public_name-NoEscape p.name in
      let values : PlainValues vars =
        (to_string-NoEscape s.service_id, (append-NoEscape public client, (public, tt))) in
      let plain = PlainValues-IsPlain vars values in
      let methods = (client_methods-IsPrintable s.methods p.methods).plain in
      record { plain = ((plain, omega arith), methods) }

  services-IsPrintable :
      (srvs : List Service)
      → AllPlainServices srvs
      → IsPrintable fuel (generate_header_services srvs)
  unfolding generate_header_services
  services-IsPrintable [] p = record { plain = tt }
  services-IsPrintable (s ∷ srvs) (p, ps) =
      IsPrintable-append (client-IsPrintable s p) (services-IsPrintable srvs ps)

  prologue-IsPrintable :
      (schema : Schema) → PlainSchema schema → IsPrintable fuel (generate_header_prologue schema)
  unfolding generate_header_prologue escapes
  prologue-IsPrintable schema p =
      let plain =
        PlainValues-IsPlain (var "filename" schema.input_filename ∷ []) (p.input_filename, tt) in
      record { plain = ((plain, omega arith), tt) }

  pub python_gen-IsPrintable :
      (crc32 : Bytes → ℕ) (schema : Schema) (calls : List Call)
      → PlainSchema schema
      → gen crc32 schema ≡ some calls
      → IsPrintable fuel calls
  unfolding gen generate_header_includes
  python_gen-IsPrintable crc32 schema calls p e =
      let srvs = services crc32 schema.service_defs in
      elim (Option-cases (service_imports srvs [])) [
        | inl no_package ↦ absurd (cc (no_package, e))
        | inr (imports, found) ↦
            let whole : IsPrintable fuel (
                generate_header_prologue schema
                ++ (import_lines imports ++ generate_header_services srvs)) =
              IsPrintable-append (prologue-IsPrintable schema p) (
                IsPrintable-append (import_lines-IsPrintable imports) (
                  services-IsPrintable srvs
                    (services-AllPlainServices crc32 schema.service_defs p.service_defs))) in
            let made : generate_header_prologue schema
                  ++ (import_lines imports ++ generate_header_services srvs)
                ≡ calls =
              cc in
            subst (IsPrintable fuel) made whole
      ]
