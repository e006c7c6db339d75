-- ===== src/Smfc/Cpp/Header/Repeats.antt =====
-- How often cpp_generator prints the ostream operator of a service.
use smurf.Prelude.{ℕ, zero, suc, ◌≡◌, refl, ap, List, [], ◌∷◌, ◌++◌, codes, length}
use smurf.Smfc.Printer.{Call, print_raw}
use smurf.Smfc.Schema.{Service}
use smurf.Smfc.Cpp.Client.{print_std_ostream_services}
use smurf.Smfc.Cpp.Header.{
  ostream_services, ostream_rounds, generate_header_prologue_forward_decl_external,
}

-- So many times the same calls
unfoldable pub repeated : ℕ → List Call → List Call
repeated zero calls = []
repeated (suc n) calls = calls ++ repeated n calls

-- The operators of all the services, once each
unfoldable pub operators : List Service → List Call
operators [] = []
operators (srv ∷ srvs) = print_std_ostream_services srv ++ operators srvs

ostream_services-operators : (srvs : List Service) → ostream_services srvs ≡ operators srvs
unfolding ostream_services operators
ostream_services-operators [] = refl
ostream_services-operators (srv ∷ srvs) =
    ap (λ calls. print_std_ostream_services srv ++ calls) (ostream_services-operators srvs)

rounds-repeated :
    (every srvs : List Service)
    → ostream_rounds every srvs ≡ repeated (length srvs) (operators every)
unfolding ostream_rounds repeated
rounds-repeated every [] = refl
rounds-repeated every (srv ∷ srvs) =
    rw (ostream_services-operators every, rounds-repeated every srvs)

-- For n services, the operators of all of them are printed n times over, and then an empty line.
pub external_repeats :
    (srvs : List Service)
    → generate_header_prologue_forward_decl_external srvs
      ≡ repeated (length srvs) (operators srvs) ++ (print_raw (codes "\n") ∷ [])
unfolding generate_header_prologue_forward_decl_external
external_repeats srvs = rw (rounds-repeated srvs srvs)
