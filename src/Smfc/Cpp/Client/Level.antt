-- ===== src/Smfc/Cpp/Client/Level.antt =====
-- The printers of a client's class and of an ostream operator leave the indentation as it was.
use smurf.Prelude.{suc, refl, List, [], ◌∷◌}
use smurf.Smfc.Printer.{Vars}
use smurf.Smfc.Schema.{Method, Service}
use smurf.Smfc.Printer.Depth.{depth_all, IsLevel, skip}
use smurf.Smfc.Cpp.Client.{
  client_methods, print_header_client, more_methods, ostream_methods, print_std_ostream_services,
}

client_methods-IsLevel : (methods : List Method) → IsLevel (client_methods methods)
unfolding client_methods depth_all
client_methods-IsLevel [] = record { keeps = λ n. refl }
client_methods-IsLevel (method ∷ methods) = record {
  keeps = λ n. (client_methods-IsLevel methods).keeps n;
}

pub client-IsLevel : (service : Service) → IsLevel (print_header_client service)
unfolding print_header_client depth_all
client-IsLevel service = record {
  keeps = λ n. skip (client_methods-IsLevel service.methods) _ (suc (suc n));
}

more_methods-IsLevel : (vars : Vars) (methods : List Method) → IsLevel (more_methods vars methods)
unfolding more_methods depth_all
more_methods-IsLevel vars [] = record { keeps = λ n. refl }
more_methods-IsLevel vars (method ∷ methods) = record {
  keeps = λ n. (more_methods-IsLevel vars methods).keeps n;
}

ostream_methods-IsLevel :
    (vars : Vars) (methods : List Method) → IsLevel (ostream_methods vars methods)
unfolding ostream_methods depth_all
ostream_methods-IsLevel vars [] = record { keeps = λ n. refl }
ostream_methods-IsLevel vars (method ∷ methods) = record {
  keeps = λ n. (more_methods-IsLevel vars methods).keeps n;
}

pub ostream-IsLevel : (service : Service) → IsLevel (print_std_ostream_services service)
unfolding print_std_ostream_services depth_all
ostream-IsLevel service = record {
  keeps = λ n. skip (ostream_methods-IsLevel _ service.methods) _ (suc (suc n));
}
