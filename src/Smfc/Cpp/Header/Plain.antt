-- ===== src/Smfc/Cpp/Header/Plain.antt =====
-- The header of src/smfc/cpp_generator.cc is printed to the end.
use smurf.Prelude.{ℕ, ◌≤◌, refl, List, [], ◌∷◌, String, Bytes, arith, codes, same, if_both}
use smurf.Smfc.Printer.{Vars, Call, var, fill, text}
use smurf.Smfc.Printer.Substitution.{escapes}
use smurf.Smfc.Schema.{Schema, Service, services}
use smurf.Smfc.Cpp.Names.{proper_postfix_token}
use smurf.Smfc.Cpp.Service.Plain.{service-IsPrintable}
use smurf.Smfc.Cpp.Client.Plain.{client-IsPrintable, ostream-IsPrintable, client_name-NoEscape}
use smurf.Smfc.Cpp.Header.{
  header_vars, transitive, generate_header_prologue, ostream_services, ostream_rounds,
  generate_header_prologue_forward_decl_external, generate_header_prologue_forward_decl, namespaces,
  generate_header_prologue_namespace, include, generate_header_prologue_includes, closing,
  epilogue_vars, generate_header_epilogue_namespace, generate_header_epilogue,
  generate_header_services, gen,
}
use smurf.Smfc.Plain.{
  NoEscape, AllNoEscape, AllPlainServices, PlainValues, PlainValues-IsPlain, IsPrintable,
  IsPrintable-append, before, file_name_identifier-NoEscape,
}
use smurf.Smfc.Plain.Schema.{PlainSchema, services-AllPlainServices}

header_vars-PlainValues : (schema : Schema) → PlainSchema schema → PlainValues (header_vars schema)
unfolding header_vars escapes
header_vars-PlainValues schema p = (
  record { none_there = refl },
  (p.without_ext, (file_name_identifier-NoEscape schema.without_ext, (p.input_filename, tt))),
)

epilogue_vars-PlainValues :
    (schema : Schema) → PlainSchema schema → PlainValues (epilogue_vars schema)
unfolding epilogue_vars
epilogue_vars-PlainValues schema p =
    (file_name_identifier-NoEscape schema.without_ext, (p.input_filename, tt))

module _ (fuel : ℕ) (enough : 8 ≤ fuel) where
  transitive-IsPrintable :
      (input : Bytes) (vars : Vars) (files : List Bytes)
      → PlainValues vars
      → AllNoEscape files
      → IsPrintable fuel (transitive input vars files)
  unfolding transitive escapes
  transitive-IsPrintable input vars [] p q = record { plain = tt }
  transitive-IsPrintable input vars (file ∷ files) p (q, qs) =
      let rest = transitive-IsPrintable input vars files p qs in
      let plain = PlainValues-IsPlain (var "header" file ∷ vars) (q, p) in
      if_both (IsPrintable fuel) (same file input) _ _ (λ _. rest)
        (λ _. record { plain = ((plain, omega arith), rest.plain) })

  prologue-IsPrintable :
      (schema : Schema) → PlainSchema schema → IsPrintable fuel (generate_header_prologue schema)
  unfolding generate_header_prologue escapes
  prologue-IsPrintable schema p =
      let vars = header_vars schema in
      let values = header_vars-PlainValues schema p in
      let plain = PlainValues-IsPlain vars values in
      let guards : IsPrintable fuel (
          text "#pragma once\n"
          ∷ fill vars "#ifndef SMF_$filename_identifier$_INCLUDED\n"
          ∷ fill vars "#define SMF_$filename_identifier$_INCLUDED\n\n"
          ∷ []) =
        record { plain = ((plain, omega arith), ((plain, omega arith), tt)) } in
      record {
        plain = (
          (plain, omega arith),
          before
              (transitive-IsPrintable schema.input_filename vars schema.included_files values
                p.included_files)
              _ guards.plain,
        );
      }

  ostream_services-IsPrintable :
      (srvs : List Service) → AllPlainServices srvs → IsPrintable fuel (ostream_services srvs)
  unfolding ostream_services
  ostream_services-IsPrintable [] p = record { plain = tt }
  ostream_services-IsPrintable (s ∷ srvs) (p, ps) =
      IsPrintable-append (ostream-IsPrintable fuel enough s p)
        (ostream_services-IsPrintable srvs ps)

  rounds-IsPrintable :
      (all srvs : List Service) → AllPlainServices all → IsPrintable fuel (ostream_rounds all srvs)
  unfolding ostream_rounds
  rounds-IsPrintable all [] p = record { plain = tt }
  rounds-IsPrintable all (s ∷ srvs) p =
      IsPrintable-append (ostream_services-IsPrintable all p) (rounds-IsPrintable all srvs p)

  external-IsPrintable :
      (srvs : List Service)
      → AllPlainServices srvs
      → IsPrintable fuel (generate_header_prologue_forward_decl_external srvs)
  unfolding generate_header_prologue_forward_decl_external
  external-IsPrintable srvs p =
      IsPrintable-append (rounds-IsPrintable srvs srvs p) (record { plain = tt })

  forward_decl-IsPrintable :
      (srvs : List Service)
      → AllPlainServices srvs
      → IsPrintable fuel (generate_header_prologue_forward_decl srvs)
  unfolding generate_header_prologue_forward_decl escapes
  forward_decl-IsPrintable [] p = record { plain = tt }
  forward_decl-IsPrintable (s ∷ srvs) (p, ps) =
      let vars =
        var "ClientName" (proper_postfix_token s.name (codes "client"))
        ∷ var "Service" s.name
        ∷ [] in
      let values : PlainValues vars = (client_name-NoEscape p.name, (p.name, tt)) in
      let plain = PlainValues-IsPlain vars values in
      record {
        plain = (
          (plain, omega arith),
          ((plain, omega arith), (forward_decl-IsPrintable srvs ps).plain),
        );
      }

  namespaces-IsPrintable :
      (parts : List Bytes) → AllNoEscape parts → IsPrintable fuel (namespaces parts)
  unfolding namespaces escapes
  namespaces-IsPrintable [] p = record { plain = tt }
  namespaces-IsPrintable (part ∷ parts) (p, ps) =
      let plain = PlainValues-IsPlain (var "part" part ∷ []) (p, tt) in
      record { plain = ((plain, omega arith), (namespaces-IsPrintable parts ps).plain) }

  namespace-IsPrintable :
      (schema : Schema)
      → PlainSchema schema
      → IsPrintable fuel (generate_header_prologue_namespace schema)
  unfolding generate_header_prologue_namespace
  namespace-IsPrintable schema p =
      if_both (IsPrintable fuel) (same schema.package_name []) _ _ (λ _. record { plain = tt })
        (λ _. namespaces-IsPrintable schema.package_parts p.package_parts)

  include-IsPrintable :
      (header : String) {calls : List Call}
      → NoEscape (codes header)
      → IsPrintable fuel calls
      → IsPrintable fuel (include header ∷ calls)
  unfolding include escapes
  include-IsPrintable header {calls} p rest =
      let plain = PlainValues-IsPlain (var "header" (codes header) ∷ []) (p, tt) in
      record { plain = ((plain, omega arith), rest.plain) }

  includes-IsPrintable :
      (schema : Schema)
      → PlainSchema schema
      → IsPrintable fuel (generate_header_prologue_includes schema)
  unfolding generate_header_prologue_includes escapes
  includes-IsPrintable schema p =
      let vars = header_vars schema in
      let plain = PlainValues-IsPlain vars (header_vars-PlainValues schema p) in
      let own : IsPrintable fuel
          (text "\n" ∷ fill vars "#include \"$filename_base$$message_header_ext$\"\n\n" ∷ []) =
        record { plain = ((plain, omega arith), tt) } in
      include-IsPrintable "ostream" (record { none_there = refl })
        (include-IsPrintable "seastar/core/sstring.hh" (record { none_there = refl })
          (include-IsPrintable "smf/rpc_service.h" (record { none_there = refl })
            (include-IsPrintable "smf/rpc_client.h" (record { none_there = refl })
              (include-IsPrintable "smf/rpc_recv_typed_context.h" (record { none_there = refl })
                (include-IsPrintable "smf/rpc_typed_envelope.h" (record { none_there = refl })
                  (include-IsPrintable "smf/log.h" (record { none_there = refl }) own))))))

  closing-IsPrintable :
      (vars : Vars) (parts : List Bytes)
      → PlainValues vars
      → AllNoEscape parts
      → IsPrintable fuel (closing vars parts)
  unfolding closing escapes
  closing-IsPrintable vars [] p q = record { plain = tt }
  closing-IsPrintable vars (part ∷ parts) p (q, qs) =
      let plain = PlainValues-IsPlain (var "part" part ∷ vars) (q, p) in
      IsPrintable-append (closing-IsPrintable vars parts p qs)
        (record { plain = ((plain, omega arith), tt) })

  epilogue_namespace-IsPrintable :
      (schema : Schema)
      → PlainSchema schema
      → IsPrintable fuel (generate_header_epilogue_namespace schema)
  unfolding generate_header_epilogue_namespace escapes
  epilogue_namespace-IsPrintable schema p =
      let vars = epilogue_vars schema in
      let values = epilogue_vars-PlainValues schema p in
      let plain = PlainValues-IsPlain vars values in
      let line : IsPrintable fuel (fill vars "\n" ∷ []) = record {
        plain = ((plain, omega arith), tt);
      } in
      IsPrintable-append
        (if_both (IsPrintable fuel) (same schema.package_name []) _ _ (λ _. record { plain = tt })
          (λ _.
            IsPrintable-append
              (closing-IsPrintable vars schema.package_parts values p.package_parts) line))
        line

  epilogue-IsPrintable :
      (schema : Schema) → PlainSchema schema → IsPrintable fuel (generate_header_epilogue schema)
  unfolding generate_header_epilogue escapes
  epilogue-IsPrintable schema p =
      let plain = PlainValues-IsPlain (epilogue_vars schema) (epilogue_vars-PlainValues schema p) in
      record { plain = ((plain, omega arith), tt) }

  services-IsPrintable :
      (srvs : List Service)
      → AllPlainServices srvs
      → IsPrintable fuel (generate_header_services srvs)
  unfolding generate_header_services
  services-IsPrintable [] p = record { plain = tt }
  services-IsPrintable (s ∷ srvs) (p, ps) =
      IsPrintable-append (service-IsPrintable fuel enough s p) (record {
        plain =
            before (client-IsPrintable fuel enough s p) (text "\n" ∷ generate_header_services srvs)
              (services-IsPrintable srvs ps).plain;
      })

  pub gen-IsPrintable :
      (crc32 : Bytes → ℕ) (schema : Schema)
      → PlainSchema schema
      → IsPrintable fuel (gen crc32 schema)
  unfolding gen
  gen-IsPrintable crc32 schema p =
      let plain = services-AllPlainServices crc32 schema.service_defs p.service_defs in
      let srvs = services crc32 schema.service_defs in
      IsPrintable-append (prologue-IsPrintable schema p) (
        IsPrintable-append (includes-IsPrintable schema p) (
          IsPrintable-append (namespace-IsPrintable schema p) (
            IsPrintable-append (forward_decl-IsPrintable srvs plain) (
              IsPrintable-append (epilogue_namespace-IsPrintable schema p) (
                IsPrintable-append (external-IsPrintable srvs plain) (
                  IsPrintable-append (namespace-IsPrintable schema p) (
                    IsPrintable-append (services-IsPrintable srvs plain) (
                      IsPrintable-append (epilogue_namespace-IsPrintable schema p)
                        (epilogue-IsPrintable schema p)))))))))
