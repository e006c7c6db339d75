-- ===== src/Smfc/Cpp/Client.antt =====
-- The client classes and the ostream operators that src/smfc/cpp_generator.cc prints.
pub mod Level
pub mod Plain
use smurf.Prelude.{
  ℕ, zero, suc, ◌+◌, Bool, true, false, List, [], ◌∷◌, ◌++◌, String, Bytes, codes, to_string,
  length, if◌then◌else◌,
}
use smurf.Smfc.Printer.{Vars, Call, indent, outdent, fill, text, var}
use smurf.Smfc.Schema.{Method, Service, cpp_type, join}
use smurf.Smfc.Cpp.Names.{proper_prefix_token, proper_postfix_token}
use smurf.Smfc.Cpp.Service.{method_vars}

client_vars : Method → Vars
unfolding to_string cpp_type proper_prefix_token
client_vars method =
    var "OutType" (cpp_type method.response)
    ∷ var "InType" (cpp_type method.request)
    ∷ var "ServiceName" method.service_name
    ∷ var "ServiceID" (to_string method.service_id)
    ∷ var "MethodID" (to_string method.method_id)
    ∷ var "MethodName" method.name
    ∷ var "RawMethodName" (proper_prefix_token (codes "raw") method.name)
    ∷ []

unfoldable pub print_header_client_method : Method → List Call
unfolding client_vars
print_header_client_method method =
    let vars = client_vars method in
    fill vars
      "inline virtual\nseastar::future<smf::rpc_recv_typed_context<$OutType$>>\n$MethodName$(smf::rpc_typed_envelope<$InType$> x) {\n"
    ∷ fill vars "  return $MethodName$(x.serialize_data());\n"
    ∷ text "}\n"
    ∷ fill vars
        "inline virtual\nseastar::future<smf::rpc_recv_typed_context<$OutType$>>\n$MethodName$(smf::rpc_envelope e) {\n"
    ∷ indent
    ∷ fill vars
        "/// ServiceID: $ServiceID$\n/// MethodID:  $MethodID$\ne.set_request_id($ServiceID$ ^ $MethodID$);\nreturn send<$OutType$>(std::move(e));\n"
    ∷ outdent
    ∷ text "}\n"
    ∷ []

client_methods : List Method → List Call
unfolding print_header_client_method
client_methods [] = []
client_methods (method ∷ methods) = print_header_client_method method ++ client_methods methods

unfoldable pub print_header_client : Service → List Call
unfolding client_methods to_string proper_postfix_token
print_header_client service =
    let vars =
      var "ServiceID" (to_string service.service_id)
      ∷ var "ClientName" (proper_postfix_token service.name (codes "client"))
      ∷ [] in
    (fill vars "class $ClientName$: "
      ∷ text "public smf::rpc_client {\n"
      ∷ indent
      ∷ text "public:\n"
      ∷ indent
      ∷ fill vars
          "explicit $ClientName$(seastar::ipv4_addr server_addr)\n:smf::rpc_client(std::move(server_addr)) {}\n"
      ∷ fill vars
          "explicit $ClientName$(smf::rpc_client_opts o)\n:smf::rpc_client(std::move(o)) {}\n"
      ∷ fill vars "$ClientName$($ClientName$ &&o) = default;\n"
      ∷ fill vars "virtual ~$ClientName$() = default;\n"
      ∷ text "virtual const char *name() const final {\n"
      ∷ indent
      ∷ fill vars "return \"$ClientName$\";\n"
      ∷ outdent
      ∷ text "}\n"
      ∷ [])
    ++ (client_methods service.methods
        ++ (outdent ∷ fill vars "}; // end of rpc client: $ClientName$\n" ∷ outdent ∷ []))

ostream_vars : Service → Vars
unfolding to_string join
ostream_vars service =
    var "ServiceHandleSize" (to_string (length service.methods))
    ∷ var "ServiceID" (to_string service.service_id)
    ∷ var "FQDNService" (join (codes "::") (service.components ++ (service.name ∷ [])))
    ∷ []

method_line : Vars → Method → Call
unfolding method_vars
method_line vars method =
    fill (method_vars method ++ vars)
      "o << \"method={id=$MethodId$, fn=$MethodName$($InType$):$OutType$}\";\n"

-- The rounds after the first, with the separator
more_methods : Vars → List Method → List Call
unfolding method_line
more_methods vars [] = []
more_methods vars (method ∷ methods) =
    text "o << \", \";\n" ∷ method_line vars method ∷ more_methods vars methods

ostream_methods : Vars → List Method → List Call
unfolding method_line more_methods
ostream_methods vars [] = []
ostream_methods vars (method ∷ methods) = method_line vars method ∷ more_methods vars methods

unfoldable pub print_std_ostream_services : Service → List Call
unfolding ostream_vars ostream_methods
print_std_ostream_services service =
    let vars = ostream_vars service in
    (text "namespace std {\n"
      ∷ indent
      ∷ fill vars "inline ostream& operator<<(ostream &o, const $FQDNService$ &s) {\n"
      ∷ indent
      ∷ fill vars "o << \"$FQDNService$={total_handles=$ServiceHandleSize$,\";\n"
      ∷ [])
    ++ (ostream_methods vars service.methods
        ++ (text "return o << \"}\";\n"
            ∷ outdent
            ∷ text "}\n"
            ∷ outdent
            ∷ text "} // namespace std\n"
            ∷ []))
