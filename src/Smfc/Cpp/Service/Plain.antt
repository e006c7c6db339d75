-- ===== src/Smfc/Cpp/Service/Plain.antt =====
-- The service classes of src/smfc/cpp_generator.cc are printed to the end.
use smurf.Prelude.{ℕ, suc, ◌≤◌, refl, Bool, List, [], ◌∷◌, ◌++◌, arith, codes, length, to_string}
use smurf.Smfc.Printer.{Vars, var, fill, outdent}
use smurf.Smfc.Printer.Substitution.{IsPlain, escapes}
use smurf.Smfc.Schema.{Method, Service}
use smurf.Smfc.Cpp.Service.{
  method_vars, handle_calls, is_last, ctor_methods, print_header_service_ctor_dtor, cases,
  case_vars, print_header_service_handle_request_id, print_header_service_handles,
  print_header_service_method, service_methods, service_vars, overrides, members,
  print_header_service,
}
use smurf.Smfc.Plain.{
  NoEscape, PlainMethod, PlainService, AllPlainMethods, PlainValues, PlainValues-append,
  PlainValues-IsPlain, IsPrintable, IsPrintable-append, before, to_string-NoEscape,
  cpp_type-NoEscape, proper_prefix_token-NoEscape,
}

-- The values of a method, before others
pub method_vars-PlainValues : (m : Method) → PlainMethod m → PlainValues (method_vars m)
unfolding method_vars escapes
method_vars-PlainValues m p =
    let raw : NoEscape (codes "raw") = record { none_there = refl } in
    (
      to_string-NoEscape m.method_id,
      (
        cpp_type-NoEscape p.response,
        (cpp_type-NoEscape p.request, (proper_prefix_token-NoEscape raw p.name, (p.name, tt))),
      ),
    )

module _ (fuel : ℕ) (enough : 8 ≤ fuel) where
  method-IsPrintable :
      (m : Method) → PlainMethod m → IsPrintable fuel (print_header_service_method m)
  unfolding print_header_service_method escapes
  method-IsPrintable m p =
      let vars : IsPlain (method_vars m) = PlainValues-IsPlain _ (method_vars-PlainValues m p) in
      record { plain = grind arith }

  service_methods-IsPrintable :
      (ms : List Method) → AllPlainMethods ms → IsPrintable fuel (service_methods ms)
  unfolding service_methods
  service_methods-IsPrintable [] p = record { plain = tt }
  service_methods-IsPrintable (m ∷ ms) (p, ps) =
      IsPrintable-append (method-IsPrintable m p) (service_methods-IsPrintable ms ps)

  handle_calls-IsPrintable :
      (vars : Vars) (last : Bool) → PlainValues vars → IsPrintable fuel (handle_calls vars last)
  unfolding handle_calls escapes
  handle_calls-IsPrintable vars last p =
      let plain : IsPlain vars = PlainValues-IsPlain vars p in record { plain = grind arith }

  ctor_methods-IsPrintable :
      (vars : Vars) (ms : List Method)
      → PlainValues vars
      → AllPlainMethods ms
      → IsPrintable fuel (ctor_methods vars ms)
  unfolding ctor_methods
  ctor_methods-IsPrintable vars [] p q = record { plain = tt }
  ctor_methods-IsPrintable vars (m ∷ ms) p (q, qs) =
      IsPrintable-append
        (handle_calls-IsPrintable (method_vars m ++ vars) (is_last ms)
          (PlainValues-append (method_vars m) vars (method_vars-PlainValues m q) p))
        (ctor_methods-IsPrintable vars ms p qs)

  ctor_dtor-IsPrintable :
      (s : Service) → PlainService s → IsPrintable fuel (print_header_service_ctor_dtor s)
  unfolding print_header_service_ctor_dtor escapes
  ctor_dtor-IsPrintable s p =
      let vars = var "Service" s.name ∷ [] in
      let values : PlainValues vars = (p.name, tt) in
      let plain = PlainValues-IsPlain vars values in
      record {
        plain = (
          (plain, omega arith),
          (
            (plain, omega arith),
            before (ctor_methods-IsPrintable vars s.methods values p.methods) _ tt,
          ),
        );
      }

  cases-IsPrintable :
      (i : ℕ) (ms : List Method) → AllPlainMethods ms → IsPrintable fuel (cases i ms)
  unfolding cases case_vars escapes
  cases-IsPrintable i [] p = record { plain = tt }
  cases-IsPrintable i (m ∷ ms) (p, ps) =
      let values : PlainValues (case_vars m i) = (
        to_string-NoEscape i,
        (to_string-NoEscape m.method_id, (to_string-NoEscape m.service_id, tt)),
      ) in
      record {
        plain = (
          (PlainValues-IsPlain (case_vars m i) values, omega arith),
          (cases-IsPrintable (suc i) ms ps).plain,
        );
      }

  request_id-IsPrintable :
      (s : Service) → PlainService s → IsPrintable fuel (print_header_service_handle_request_id s)
  unfolding print_header_service_handle_request_id
  request_id-IsPrintable s p = record {
    plain = before (cases-IsPrintable 0 s.methods p.methods) _ tt;
  }

  handles-IsPrintable : (s : Service) → IsPrintable fuel (print_header_service_handles s)
  unfolding print_header_service_handles escapes
  handles-IsPrintable s =
      let vars = var "ServiceHandleSize" (to_string (length s.methods)) ∷ [] in
      let plain = PlainValues-IsPlain vars (to_string-NoEscape (length s.methods), tt) in
      record { plain = grind arith }

  overrides-IsPrintable : (vars : Vars) → PlainValues vars → IsPrintable fuel (overrides vars)
  unfolding overrides escapes
  overrides-IsPrintable vars p =
      let plain = PlainValues-IsPlain vars p in record { plain = grind arith }

  service_vars-Plain : (s : Service) → PlainService s → PlainValues (service_vars s)
  unfolding service_vars
  service_vars-Plain s p =
      (to_string-NoEscape (length s.methods), (to_string-NoEscape s.service_id, (p.name, tt)))

  members-IsPrintable : (s : Service) → PlainService s → IsPrintable fuel (members s)
  unfolding members
  members-IsPrintable s p = IsPrintable-append (ctor_dtor-IsPrintable s p) (
      IsPrintable-append (overrides-IsPrintable (service_vars s) (service_vars-Plain s p)) (
        IsPrintable-append (handles-IsPrintable s) (
          IsPrintable-append (request_id-IsPrintable s p)
            (service_methods-IsPrintable s.methods p.methods))))

  pub service-IsPrintable :
      (s : Service) → PlainService s → IsPrintable fuel (print_header_service s)
  unfolding print_header_service escapes
  service-IsPrintable s p =
      let plain = PlainValues-IsPlain (service_vars s) (service_vars-Plain s p) in
      let inner =
        before (members-IsPrintable s p)
          (outdent ∷ fill (service_vars s) "}; // end of service: $Service$\n" ∷ [])
          ((plain, omega arith), tt) in
      record { plain = ((plain, omega arith), ((plain, omega arith), inner)) }
