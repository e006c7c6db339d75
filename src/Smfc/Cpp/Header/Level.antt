-- ===== src/Smfc/Cpp/Header/Level.antt =====
-- The header that cpp_generator::gen prints is level.
use smurf.Prelude.{ℕ, refl, List, [], ◌∷◌, Bytes, same, if_both, arith}
use smurf.Smfc.Printer.{Vars}
use smurf.Smfc.Schema.{Schema, Service, services}
use smurf.Smfc.Printer.Depth.{
  depth_all, IsLevel, IsLevel-append, empty-IsLevel, print-IsLevel, skip, skip_then,
}
use smurf.Smfc.Cpp.Service.Level.{service-IsLevel}
use smurf.Smfc.Cpp.Client.Level.{client-IsLevel, ostream-IsLevel}
use smurf.Smfc.Cpp.Header.{
  transitive, generate_header_prologue, ostream_services, ostream_rounds,
  generate_header_prologue_forward_decl_external, generate_header_prologue_forward_decl, namespaces,
  generate_header_prologue_namespace, generate_header_prologue_includes, closing,
  generate_header_epilogue_namespace, generate_header_epilogue, generate_header_services, gen,
}

transitive-IsLevel :
    (input : Bytes) (vars : Vars) (files : List Bytes) → IsLevel (transitive input vars files)
unfolding transitive depth_all
transitive-IsLevel input vars [] = record { keeps = λ n. refl }
transitive-IsLevel input vars (file ∷ files) = record {
  keeps = λ n. ground (arith, (transitive-IsLevel input vars files).keeps n);
}

prologue-IsLevel : (schema : Schema) → IsLevel (generate_header_prologue schema)
unfolding generate_header_prologue depth_all
prologue-IsLevel schema = record {
  keeps = λ n. skip (transitive-IsLevel schema.input_filename _ schema.included_files) _ n;
}

ostream_services-IsLevel : (srvs : List Service) → IsLevel (ostream_services srvs)
unfolding ostream_services depth_all
ostream_services-IsLevel [] = record { keeps = λ n. refl }
ostream_services-IsLevel (srv ∷ srvs) =
    IsLevel-append (ostream-IsLevel srv) (ostream_services-IsLevel srvs)

ostream_rounds-IsLevel : (every srvs : List Service) → IsLevel (ostream_rounds every srvs)
unfolding ostream_rounds depth_all
ostream_rounds-IsLevel every [] = record { keeps = λ n. refl }
ostream_rounds-IsLevel every (srv ∷ srvs) =
    IsLevel-append (ostream_services-IsLevel every) (ostream_rounds-IsLevel every srvs)

external-IsLevel :
    (srvs : List Service) → IsLevel (generate_header_prologue_forward_decl_external srvs)
unfolding generate_header_prologue_forward_decl_external depth_all
external-IsLevel srvs = record { keeps = λ n. skip (ostream_rounds-IsLevel srvs srvs) _ n }

forward_decl-IsLevel : (srvs : List Service) → IsLevel (generate_header_prologue_forward_decl srvs)
unfolding generate_header_prologue_forward_decl depth_all
forward_decl-IsLevel [] = record { keeps = λ n. refl }
forward_decl-IsLevel (srv ∷ srvs) = record { keeps = λ n. (forward_decl-IsLevel srvs).keeps n }

namespaces-IsLevel : (parts : List Bytes) → IsLevel (namespaces parts)
unfolding namespaces depth_all
namespaces-IsLevel [] = record { keeps = λ n. refl }
namespaces-IsLevel (part ∷ parts) = record { keeps = λ n. (namespaces-IsLevel parts).keeps n }

namespace-IsLevel : (schema : Schema) → IsLevel (generate_header_prologue_namespace schema)
unfolding generate_header_prologue_namespace depth_all
namespace-IsLevel schema = record {
  keeps = λ n. ground (arith, (namespaces-IsLevel schema.package_parts).keeps n);
}

closing-IsLevel : (vars : Vars) (parts : List Bytes) → IsLevel (closing vars parts)
unfolding closing depth_all
closing-IsLevel vars [] = record { keeps = λ n. refl }
closing-IsLevel vars (part ∷ parts) = record { keeps = λ n. skip (closing-IsLevel vars parts) _ n }

epilogue_namespace-IsLevel : (schema : Schema) → IsLevel (generate_header_epilogue_namespace schema)
unfolding generate_header_epilogue_namespace
epilogue_namespace-IsLevel schema =
    IsLevel-append
      (if_both IsLevel (same schema.package_name []) _ _ (λ e. empty-IsLevel)
        (λ e. IsLevel-append (closing-IsLevel _ schema.package_parts) (print-IsLevel _ _)))
      (print-IsLevel _ _)

services-IsLevel : (srvs : List Service) → IsLevel (generate_header_services srvs)
unfolding generate_header_services depth_all
services-IsLevel [] = record { keeps = λ n. refl }
services-IsLevel (srv ∷ srvs) = record {
  keeps = λ n.
      skip_then (service-IsLevel srv) _ n _
        (skip_then (client-IsLevel srv) _ n _ ((services-IsLevel srvs).keeps n));
}

includes-IsLevel : (schema : Schema) → IsLevel (generate_header_prologue_includes schema)
unfolding generate_header_prologue_includes depth_all
includes-IsLevel schema = record { keeps = λ n. refl }

epilogue-IsLevel : (schema : Schema) → IsLevel (generate_header_epilogue schema)
unfolding generate_header_epilogue depth_all
epilogue-IsLevel schema = record { keeps = λ n. refl }

-- The calls of `gen` on its printer open as many indentations as they close and never close one
-- that is not open, from any indentation and for any schema.
pub gen-IsLevel : (crc32 : Bytes → ℕ) (schema : Schema) → IsLevel (gen crc32 schema)
unfolding gen
gen-IsLevel crc32 schema =
    let srvs = services crc32 schema.service_defs in
    IsLevel-append (prologue-IsLevel schema) (
      IsLevel-append (includes-IsLevel schema) (
        IsLevel-append (namespace-IsLevel schema) (
          IsLevel-append (forward_decl-IsLevel srvs) (
            IsLevel-append (epilogue_namespace-IsLevel schema) (
              IsLevel-append (external-IsLevel srvs) (
                IsLevel-append (namespace-IsLevel schema) (
                  IsLevel-append (services-IsLevel srvs) (
                    IsLevel-append (epilogue_namespace-IsLevel schema)
                      (epilogue-IsLevel schema)))))))))
