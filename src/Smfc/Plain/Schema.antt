-- ===== src/Smfc/Plain/Schema.antt =====
-- A schema without an escape character in its names, as the flatbuffers grammar makes them, and the
-- services that src/smfc/generator.h makes of it.
use smurf.Prelude.{ℕ, List, [], ◌∷◌, Bytes, if_both}
use smurf.Smfc.Schema.{RpcCall, ServiceDef, Schema, services, smf_service, smf_method, methods_of}
use smurf.Smfc.Plain.{
  NoEscape, AllNoEscape, PlainStruct, AllPlainMethods, PlainService, AllPlainServices,
}

pub record PlainCall (c : RpcCall) : Type 0 where
  pub name : NoEscape c.name
  pub request : PlainStruct c.request
  pub response : PlainStruct c.response

abbrev pub AllPlainCalls : List RpcCall → Type 0
AllPlainCalls [] = Unit {0}
AllPlainCalls (c ∷ cs) = PlainCall c × AllPlainCalls cs

pub record PlainDef (d : ServiceDef) : Type 0 where
  pub name : NoEscape d.name
  pub components : AllNoEscape d.components
  pub calls : AllPlainCalls d.calls

abbrev pub AllPlainDefs : List ServiceDef → Type 0
AllPlainDefs [] = Unit {0}
AllPlainDefs (d ∷ ds) = PlainDef d × AllPlainDefs ds

pub record PlainSchema (schema : Schema) : Type 0 where
  pub input_filename : NoEscape schema.input_filename
  pub without_ext : NoEscape schema.without_ext
  pub package_parts : AllNoEscape schema.package_parts
  pub included_files : AllNoEscape schema.included_files
  pub service_defs : AllPlainDefs schema.service_defs

module _ (crc32 : Bytes → ℕ) where
  methods_of-AllPlainMethods :
      (name : Bytes) (id : ℕ) (cs : List RpcCall)
      → NoEscape name
      → AllPlainCalls cs
      → AllPlainMethods (methods_of crc32 name id cs)
  unfolding methods_of smf_method
  methods_of-AllPlainMethods name id [] n p = tt
  methods_of-AllPlainMethods name id (c ∷ cs) n (p, ps) = (
    record { name = p.name; service_name = n; request = p.request; response = p.response },
    methods_of-AllPlainMethods name id cs n ps,
  )

  service-PlainService : (d : ServiceDef) → PlainDef d → PlainService (smf_service crc32 d)
  unfolding smf_service
  service-PlainService d p = record {
    name = p.name;
    components = p.components;
    methods = methods_of-AllPlainMethods d.name (crc32 d.name) d.calls p.name p.calls;
  }

  pub services-AllPlainServices :
      (ds : List ServiceDef) → AllPlainDefs ds → AllPlainServices (services crc32 ds)
  unfolding services
  services-AllPlainServices [] p = tt
  services-AllPlainServices (d ∷ ds) (p, ps) =
      if_both AllPlainServices d.generated _ _ (λ _. services-AllPlainServices ds ps)
        (λ _. (service-PlainService d p, services-AllPlainServices ds ps))
