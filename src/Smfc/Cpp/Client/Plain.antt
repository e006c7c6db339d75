-- ===== src/Smfc/Cpp/Client/Plain.antt =====
-- The client classes and ostream operators of src/smfc/cpp_generator.cc are printed to the end.
use smurf.Prelude.{ℕ, ◌≤◌, refl, List, [], ◌∷◌, ◌++◌, Bytes, arith, codes, length, to_string}
use smurf.Smfc.Printer.{Vars, var, fill, outdent}
use smurf.Smfc.Printer.Substitution.{escapes}
use smurf.Smfc.Schema.{Method, Service}
use smurf.Smfc.Cpp.Names.{proper_postfix_token}
use smurf.Smfc.Cpp.Service.{method_vars}
use smurf.Smfc.Cpp.Service.Plain.{method_vars-PlainValues}
use smurf.Smfc.Cpp.Client.{
  client_vars, print_header_client_method, client_methods, print_header_client, ostream_vars,
  method_line, more_methods, ostream_methods, print_std_ostream_services,
}
use smurf.Smfc.Plain.{
  NoEscape, AllNoEscape-append, join-NoEscape, PlainMethod, PlainService, AllPlainMethods,
  PlainValues, PlainValues-append, PlainValues-IsPlain, IsPrintable, IsPrintable-append, before,
  to_string-NoEscape, cpp_type-NoEscape, proper_prefix_token-NoEscape,
  proper_postfix_token-NoEscape,
}

client_vars-PlainValues : (m : Method) → PlainMethod m → PlainValues (client_vars m)
unfolding client_vars escapes
client_vars-PlainValues m p =
    let raw : NoEscape (codes "raw") = record { none_there = refl } in
    (
      cpp_type-NoEscape p.response,
      (
        cpp_type-NoEscape p.request,
        (
          p.service_name,
          (
            to_string-NoEscape m.service_id,
            (
              to_string-NoEscape m.method_id,
              (p.name, (proper_prefix_token-NoEscape raw p.name, tt)),
            ),
          ),
        ),
      ),
    )

-- The name of a client class
pub client_name-NoEscape :
    {s : Bytes} → NoEscape s → NoEscape (proper_postfix_token s (codes "client"))
unfolding escapes
client_name-NoEscape p =
    let client : NoEscape (codes "client") = record { none_there = refl } in
    proper_postfix_token-NoEscape p client

module _ (fuel : ℕ) (enough : 8 ≤ fuel) where
  method-IsPrintable :
      (m : Method) → PlainMethod m → IsPrintable fuel (print_header_client_method m)
  unfolding print_header_client_method escapes
  method-IsPrintable m p =
      let plain = PlainValues-IsPlain (client_vars m) (client_vars-PlainValues m p) in
      record { plain = grind arith }

  client_methods-IsPrintable :
      (ms : List Method) → AllPlainMethods ms → IsPrintable fuel (client_methods ms)
  unfolding client_methods
  client_methods-IsPrintable [] p = record { plain = tt }
  client_methods-IsPrintable (m ∷ ms) (p, ps) =
      IsPrintable-append (method-IsPrintable m p) (client_methods-IsPrintable ms ps)

  pub client-IsPrintable : (s : Service) → PlainService s → IsPrintable fuel (print_header_client s)
  unfolding print_header_client escapes
  client-IsPrintable s p =
      let vars =
        var "ServiceID" (to_string s.service_id)
        ∷ var "ClientName" (proper_postfix_token s.name (codes "client"))
        ∷ [] in
      let values : PlainValues vars =
        (to_string-NoEscape s.service_id, (client_name-NoEscape p.name, tt)) in
      let plain = PlainValues-IsPlain vars values in
      let rest =
        before (client_methods-IsPrintable s.methods p.methods)
          (outdent ∷ fill vars "}; // end of rpc client: $ClientName$\n" ∷ outdent ∷ [])
          ((plain, omega arith), tt) in
      record { plain = grind arith }

  method_line-IsPrintable :
      (vars : Vars) (m : Method)
      → PlainValues vars
      → PlainMethod m
      → IsPrintable fuel (method_line vars m ∷ [])
  unfolding method_line escapes
  method_line-IsPrintable vars m p q =
      let plain =
        PlainValues-IsPlain (method_vars m ++ vars)
          (PlainValues-append (method_vars m) vars (method_vars-PlainValues m q) p) in
      record { plain = ((plain, omega arith), tt) }

  more_methods-IsPrintable :
      (vars : Vars) (ms : List Method)
      → PlainValues vars
      → AllPlainMethods ms
      → IsPrintable fuel (more_methods vars ms)
  unfolding more_methods
  more_methods-IsPrintable vars [] p q = record { plain = tt }
  more_methods-IsPrintable vars (m ∷ ms) p (q, qs) = record {
    plain =
        before (method_line-IsPrintable vars m p q) (more_methods vars ms)
          (more_methods-IsPrintable vars ms p qs).plain;
  }

  ostream_methods-IsPrintable :
      (vars : Vars) (ms : List Method)
      → PlainValues vars
      → AllPlainMethods ms
      → IsPrintable fuel (ostream_methods vars ms)
  unfolding ostream_methods
  ostream_methods-IsPrintable vars [] p q = record { plain = tt }
  ostream_methods-IsPrintable vars (m ∷ ms) p (q, qs) = record {
    plain =
        before (method_line-IsPrintable vars m p q) (more_methods vars ms)
          (more_methods-IsPrintable vars ms p qs).plain;
  }

  pub ostream-IsPrintable :
      (s : Service) → PlainService s → IsPrintable fuel (print_std_ostream_services s)
  unfolding print_std_ostream_services ostream_vars escapes
  ostream-IsPrintable s p =
      let colons : NoEscape (codes "::") = record { none_there = refl } in
      let full_name =
        join-NoEscape (codes "::") (s.components ++ (s.name ∷ [])) colons
          (AllNoEscape-append s.components (s.name ∷ []) p.components (p.name, tt)) in
      let values : PlainValues (ostream_vars s) = (
        to_string-NoEscape (length s.methods),
        (to_string-NoEscape s.service_id, (full_name, tt)),
      ) in
      let plain = PlainValues-IsPlain (ostream_vars s) values in
      let inner =
        before (ostream_methods-IsPrintable (ostream_vars s) s.methods values p.methods) _ tt in
      record { plain = ((plain, omega arith), ((plain, omega arith), inner)) }
