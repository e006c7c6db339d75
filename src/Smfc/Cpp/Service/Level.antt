-- ===== src/Smfc/Cpp/Service/Level.antt =====
-- The printers of a service's class leave the indentation as it was.
use smurf.Prelude.{ℕ, suc, refl, List, [], ◌∷◌}
use smurf.Smfc.Printer.{Vars}
use smurf.Smfc.Schema.{Method, Service}
use smurf.Smfc.Printer.Depth.{depth_all, IsLevel, IsLevel-append, skip}
use smurf.Smfc.Cpp.Service.{
  ctor_methods, print_header_service_ctor_dtor, cases, print_header_service_handle_request_id,
  print_header_service_handles, print_header_service_method, service_methods, overrides,
  service_vars, members, print_header_service,
}

ctor_methods-IsLevel : (vars : Vars) (methods : List Method) → IsLevel (ctor_methods vars methods)
unfolding ctor_methods depth_all
ctor_methods-IsLevel vars [] = record { keeps = λ n. refl }
ctor_methods-IsLevel vars (method ∷ methods) = record {
  keeps = λ n. (ctor_methods-IsLevel vars methods).keeps n;
}

ctor_dtor-IsLevel : (service : Service) → IsLevel (print_header_service_ctor_dtor service)
unfolding print_header_service_ctor_dtor depth_all
ctor_dtor-IsLevel service = record {
  keeps = λ n. skip (ctor_methods-IsLevel _ service.methods) _ (suc n);
}

cases-IsLevel : (i : ℕ) (methods : List Method) → IsLevel (cases i methods)
unfolding cases depth_all
cases-IsLevel i [] = record { keeps = λ n. refl }
cases-IsLevel i (method ∷ methods) = record { keeps = λ n. (cases-IsLevel (suc i) methods).keeps n }

method-IsLevel : (method : Method) → IsLevel (print_header_service_method method)
unfolding print_header_service_method depth_all
method-IsLevel method = record { keeps = λ n. refl }

service_methods-IsLevel : (methods : List Method) → IsLevel (service_methods methods)
unfolding service_methods depth_all
service_methods-IsLevel [] = record { keeps = λ n. refl }
service_methods-IsLevel (method ∷ methods) = record {
  keeps = λ n. (service_methods-IsLevel methods).keeps n;
}

handles-IsLevel : (service : Service) → IsLevel (print_header_service_handles service)
unfolding print_header_service_handles depth_all
handles-IsLevel service = record { keeps = λ n. refl }

overrides-IsLevel : (vars : Vars) → IsLevel (overrides vars)
unfolding overrides depth_all
overrides-IsLevel vars = record { keeps = λ n. refl }

request_id-IsLevel : (service : Service) → IsLevel (print_header_service_handle_request_id service)
unfolding print_header_service_handle_request_id depth_all
request_id-IsLevel service = record {
  keeps = λ n. skip (cases-IsLevel 0 service.methods) _ (suc (suc n));
}

members-IsLevel : (service : Service) → IsLevel (members service)
unfolding members
members-IsLevel service = IsLevel-append (ctor_dtor-IsLevel service) (
    IsLevel-append (overrides-IsLevel (service_vars service)) (
      IsLevel-append (handles-IsLevel service)
        (IsLevel-append (request_id-IsLevel service) (service_methods-IsLevel service.methods))))

pub service-IsLevel : (service : Service) → IsLevel (print_header_service service)
unfolding print_header_service depth_all
service-IsLevel service = record { keeps = λ n. skip (members-IsLevel service) _ (suc n) }
