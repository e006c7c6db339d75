-- ===== src/Smfc/Schema.antt =====
-- src/smfc/smf_method.h, src/smfc/smf_service.h, src/smfc/language.h and the services of
-- src/smfc/generator.h, over what the flatbuffers parser makes of a schema.
use smurf.Prelude.{ℕ, Bool, List, [], ◌∷◌, ◌++◌, Bytes, codes, if◌then◌else◌}
use smurf.Future.{Future, ready, failed, runtime_error}

-- `unset` is language::none.
pub data Language : Type 0 where
  unset : Language
  cpp : Language
  go : Language
  python : Language
  all : Language

-- flatbuffers::StructDef, RPCCall, ServiceDef and Parser, as far as the generators read them.
pub record StructDef : Type 0 where
  pub name : Bytes
  pub components : List Bytes

pub record RpcCall : Type 0 where
  pub name : Bytes
  pub request : StructDef
  pub response : StructDef

pub record ServiceDef : Type 0 where
  pub name : Bytes
  pub components : List Bytes
  pub calls : List RpcCall
  pub generated : Bool

-- `without_ext` is StripExtension(StripPath(input_filename)), `package_name` the fully qualified name of
-- the current namespace, and `included_files` the keys of the parser's map.
pub record Schema : Type 0 where
  pub input_filename : Bytes
  pub without_ext : Bytes
  pub package_name : Bytes
  pub package_parts : List Bytes
  pub included_files : List Bytes
  pub service_defs : List ServiceDef

-- boost::algorithm::join
unfoldable pub join : Bytes → List Bytes → Bytes
join separator [] = []
join separator (x ∷ []) = x
join separator (x ∷ y ∷ xs) = x ++ (separator ++ join separator (y ∷ xs))

unfoldable pub cpp_type : StructDef → Bytes
unfolding join
cpp_type sd = join (codes "::") (sd.components ++ (sd.name ∷ []))

unfoldable pub python_type : StructDef → Bytes
unfolding join
python_type sd = join (codes ".") (sd.components ++ (sd.name ∷ sd.name ∷ []))

-- smf_method::type
pub type_name : StructDef → Language → Future Bytes
type_name sd cpp = ready (cpp_type sd)
type_name sd go = ready sd.name
type_name sd python = ready (python_type sd)
type_name sd _ = failed runtime_error

pub record Method : Type 0 where
  pub name : Bytes
  pub method_id : ℕ
  pub service_name : Bytes
  pub service_id : ℕ
  pub request : StructDef
  pub response : StructDef

pub record Service : Type 0 where
  pub name : Bytes
  pub service_id : ℕ
  pub components : List Bytes
  pub methods : List Method

module _ (crc32 : Bytes → ℕ) where
  -- The constructor of smf_method: the id is the CRC of the name and the two types.
  unfoldable pub smf_method : Bytes → ℕ → RpcCall → Method
  unfolding cpp_type
  smf_method service service_id call =
      let id_str =
        call.name
        ++ (codes ":" ++ (cpp_type call.request ++ (codes ":" ++ cpp_type call.response))) in
      record {
        name = call.name;
        method_id = crc32 id_str;
        service_name = service;
        service_id = service_id;
        request = call.request;
        response = call.response;
      }

  unfoldable pub methods_of : Bytes → ℕ → List RpcCall → List Method
  unfolding smf_method
  methods_of name id [] = []
  methods_of name id (call ∷ calls) = smf_method name id call ∷ methods_of name id calls

  -- The constructor of smf_service
  unfoldable pub smf_service : ServiceDef → Service
  unfolding methods_of
  smf_service def =
      let id = crc32 def.name in
      record {
        name = def.name;
        service_id = id;
        components = def.components;
        methods = methods_of def.name id def.calls;
      }

  -- The constructor of generator: services of included files are skipped.
  unfoldable pub services : List ServiceDef → List Service
  unfolding smf_service
  services [] = []
  services (def ∷ defs) =
      let rest = services defs in if def.generated then rest else smf_service def ∷ rest
