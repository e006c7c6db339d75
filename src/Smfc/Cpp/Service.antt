-- ===== src/Smfc/Cpp/Service.antt =====
-- The service classes that src/smfc/cpp_generator.cc prints.
pub mod Level
pub mod Plain
use smurf.Prelude.{
  ℕ, zero, suc, ◌+◌, ◌-◌, Bool, true, false, List, [], ◌∷◌, ◌++◌, String, Bytes, codes, to_string,
  ltb, length, if◌then◌else◌,
}
use smurf.Smfc.Printer.{Vars, Call, indent, outdent, fill, text, var}
use smurf.Smfc.Schema.{Method, Service, cpp_type, join}
use smurf.Smfc.Cpp.Names.{proper_prefix_token}

-- The variables that the printers of methods share.
unfoldable pub method_vars : Method → Vars
unfolding to_string cpp_type proper_prefix_token
method_vars method =
    var "MethodId" (to_string method.method_id)
    ∷ var "OutType" (cpp_type method.response)
    ∷ var "InType" (cpp_type method.request)
    ∷ var "RawMethodName" (proper_prefix_token (codes "raw") method.name)
    ∷ var "MethodName" method.name
    ∷ []

-- One round of the loop in the constructor; `last` is i == max - 1.
handle_calls : Vars → Bool → List Call
handle_calls vars last =
    text "smf::rpc_service_method_handle(\n"
    ∷ indent
    ∷ text "[this](smf::rpc_recv_context c) -> seastar::future<smf::rpc_envelope> {\n"
    ∷ indent
    ∷ text "// Session accounting\nauto session_id = c.session();\n"
    ∷ fill vars "return $RawMethodName$(std::move(c)).then([session_id](smf::rpc_envelope e) {\n"
    ∷ indent
    ∷ text
        "e.letter.header.mutate_session(session_id);\nreturn seastar::make_ready_future<smf::rpc_envelope>(std::move(e));\n"
    ∷ outdent
    ∷ text (if last then "});})\n" else "});}),\n")
    ∷ outdent
    ∷ outdent
    ∷ []

is_last : List Method → Bool
is_last [] = true
is_last (method ∷ methods) = false

ctor_methods : Vars → List Method → List Call
unfolding method_vars handle_calls is_last
ctor_methods vars [] = []
ctor_methods vars (method ∷ methods) =
    handle_calls (method_vars method ++ vars) (is_last methods) ++ ctor_methods vars methods

unfoldable pub print_header_service_ctor_dtor : Service → List Call
unfolding ctor_methods
print_header_service_ctor_dtor service =
    let vars = var "Service" service.name ∷ [] in
    (fill vars "virtual ~$Service$() = default;\n"
      ∷ fill vars "$Service$() : handles_{{\n"
      ∷ indent
      ∷ [])
    ++ (ctor_methods vars service.methods ++ (outdent ∷ text "}} {}\n" ∷ []))

case_vars : Method → ℕ → Vars
unfolding to_string
case_vars method i =
    var "VectorIdx" (to_string i)
    ∷ var "MethodId" (to_string method.method_id)
    ∷ var "ServiceID" (to_string method.service_id)
    ∷ []

-- The rounds from index `i` on
cases : ℕ → List Method → List Call
unfolding case_vars
cases i [] = []
cases i (method ∷ methods) =
    fill (case_vars method i) "case ($ServiceID$ ^ $MethodId$): return &handles_[$VectorIdx$];\n"
    ∷ cases (suc i) methods

unfoldable pub print_header_service_handle_request_id : Service → List Call
unfolding cases
print_header_service_handle_request_id service =
    (text
        "virtual smf::rpc_service_method_handle *\nmethod_for_request_id(uint32_t idx) override final {\n"
      ∷ indent
      ∷ text "switch(idx){\n"
      ∷ indent
      ∷ [])
    ++ (cases 0 service.methods
        ++ (text "default: return nullptr;\n" ∷ outdent ∷ text "}\n" ∷ outdent ∷ text "}\n" ∷ []))

unfoldable pub print_header_service_handles : Service → List Call
unfolding to_string
print_header_service_handles service =
    let vars = var "ServiceHandleSize" (to_string (length service.methods)) ∷ [] in
    fill vars
      "virtual const std::array<smf::rpc_service_method_handle, $ServiceHandleSize$> &\nmethods() final {\n"
    ∷ indent
    ∷ text "return handles_;\n"
    ∷ outdent
    ∷ text "}\n"
    ∷ []

unfoldable pub print_header_service_method : Method → List Call
unfolding method_vars
print_header_service_method method =
    let vars = method_vars method in
    fill vars "inline virtual\nseastar::future<smf::rpc_typed_envelope<$OutType$>>\n"
    ∷ fill vars "$MethodName$(smf::rpc_recv_typed_context<$InType$> &&rec) {\n"
    ∷ indent
    ∷ fill vars
        "using out_type = $OutType$;\nusing env_t = smf::rpc_typed_envelope<out_type>;\nenv_t data;\n// User should override this method.\n//\n// Helpful for clients to set the status.\n// Typically follows HTTP style. Not imposed by smf whatsoever.\n// i.e. 501 == Method not implemented\ndata.envelope.set_status(501);\nreturn seastar::make_ready_future<env_t>(std::move(data));\n"
    ∷ outdent
    ∷ text "}\n"
    ∷ fill vars "inline virtual\nseastar::future<smf::rpc_envelope>\n"
    ∷ fill vars "$RawMethodName$(smf::rpc_recv_context &&c) {\n"
    ∷ indent
    ∷ fill vars
        "using inner_t = $InType$;\nusing input_t = smf::rpc_recv_typed_context<inner_t>;\nusing mid_t = smf::rpc_typed_envelope<$OutType$>;\nreturn $MethodName$(input_t(std::move(c))).then([this](mid_t x) {\n"
    ∷ indent
    ∷ text "return seastar::make_ready_future<smf::rpc_envelope>(x.serialize_data());\n"
    ∷ outdent
    ∷ text "});\n"
    ∷ outdent
    ∷ text "}\n"
    ∷ []

service_methods : List Method → List Call
unfolding print_header_service_method
service_methods [] = []
service_methods (method ∷ methods) = print_header_service_method method ++ service_methods methods

service_vars : Service → Vars
unfolding to_string
service_vars service =
    var "ServiceHandleSize" (to_string (length service.methods))
    ∷ var "ServiceID" (to_string service.service_id)
    ∷ var "Service" service.name
    ∷ []

-- The overrides for smf
overrides : Vars → List Call
overrides vars =
    text "virtual const char *\nservice_name() const override final {\n"
    ∷ indent
    ∷ fill vars "return \"$Service$\";\n"
    ∷ outdent
    ∷ text "}\n"
    ∷ text "virtual uint32_t\nservice_id() const override final {\n"
    ∷ indent
    ∷ fill vars "return $ServiceID$;\n"
    ∷ outdent
    ∷ text "}\n"
    ∷ text "virtual std::ostream &\nprint(std::ostream &o) const override final {\n"
    ∷ indent
    ∷ text "return o << *this;\n"
    ∷ outdent
    ∷ text "}\n"
    ∷ []

-- What stands between `public:` and the end of the class
members : Service → List Call
unfolding service_vars overrides service_methods print_header_service_ctor_dtor
    print_header_service_handles print_header_service_handle_request_id
members service =
    print_header_service_ctor_dtor service
    ++ (overrides (service_vars service)
        ++ (print_header_service_handles service
            ++ (print_header_service_handle_request_id service ++ service_methods service.methods)))

unfoldable pub print_header_service : Service → List Call
unfolding service_vars members
print_header_service service =
    let vars = service_vars service in
    (fill vars "class $Service$: public smf::rpc_service {\n"
      ∷ text " private:\n"
      ∷ fill vars "  std::array<smf::rpc_service_method_handle, $ServiceHandleSize$> handles_;\n"
      ∷ text " public:\n"
      ∷ indent
      ∷ [])
    ++ (members service ++ (outdent ∷ fill vars "}; // end of service: $Service$\n" ∷ []))
