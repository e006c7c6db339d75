-- ===== src/Tests/Driving.antt =====
-- Instances of the theorems on the driver of the compiler, over files that are a function.
use smurf.Prelude.{
  ℕ, ◌≡◌, ◌≢◌, refl, sym, ap, inl, inr, Bool, true, false, not, Option, none, some, [], ◌∷◌, Bytes,
  codes, same, arith, take, length, ◌-◌, if◌then◌else◌, ◌>>=◌, Bool-cases,
}
use smurf.Smfc.Schema.{Schema, cpp, python, go, join}
use smurf.Smfc.Flags.{split_coma, split_langs, trim}
use smurf.Smfc.Flags.Split.{split_langs-join}
use smurf.Smfc.Codegen.{
  Platform, ParserState, Codegen, new_codegen, parse, gen, gen_all, run_generator, contents,
  has_generator, output_filename, service_count,
}
use smurf.Smfc.Codegen.Errors.{gen_all_stops, load_error_forgotten}
use smurf.Smfc.Codegen.Saved.{FileLaws}
use smurf.Smfc.Driver.{Flags, main}
use smurf.Smfc.Driver.Saves.{Generated, main_saves}
use smurf.Smfc.Printer.{perform_all, substitute}
use smurf.Smfc.Cpp.Header as CppHeader
use smurf.Smfc.Python as PythonGenerator
use smurf.Tests.Instances.{toy_hash}

same_refl : (x : Bytes) → same x x ≡ true
same_refl [] = refl
same_refl (c ∷ x) = ground (arith, same_refl x)

same→eq : (x y : Bytes) → same x y ≡ true → x ≡ y
same→eq [] [] e = refl
same→eq [] (d ∷ y) e = cc
same→eq (c ∷ x) [] e = cc
same→eq (c ∷ x) (d ∷ y) e = ground (arith, same→eq x y)

ne→same : (p q : Bytes) → p ≢ q → same q p ≡ false
ne→same p q ne = elim (Bool-cases (same q p)) [
  | inl e ↦ absurd (ne (sym (same→eq q p e)))
  | inr e ↦ e
]

abbrev pub Disk : Type 0
Disk = Bytes → Option Bytes

abbrev is_there : Option Bytes → Bool
is_there none = false
is_there (some t) = true

abbrev written : Bytes → Option Bytes → Disk → Disk
written p t w q = if same q p then t else w q

abbrev schema : Schema
schema = record {
  input_filename = codes "demo.fbs";
  without_ext = codes "demo";
  package_name = codes "demo";
  package_parts = codes "demo" ∷ [];
  included_files = [];
  service_defs = [];
}

abbrev no_schema : ParserState
no_schema = record { error = []; schema = record schema { without_ext = [] } }

abbrev pub parsed : ParserState
parsed = record { error = []; schema = schema }

-- A library whose parser takes every text, and a disk that saves every file
abbrev pub sys : Platform Disk
sys = record {
  parse = λ text includes name p. (true, parsed);
  strip_file_name = λ name. [];
  strip_path = λ name. name;
  strip_extension = λ name. take (length name - 4) name;
  load_file = λ p w. w p;
  save_file = λ p t w. (true, written p (some t) w);
  exists = λ p w. is_there (w p);
  remove = λ p w. written p none w;
  create_directories = λ d w. w;
  dir_exists = λ d w. true;
  canonical = λ d w. some d;
}

sys-laws : FileLaws sys
sys-laws = record {
  saved = λ p t w e. ap (λ b. if b then some t else w p) (same_refl p);
  save_other = λ p q t w ne. ap (λ b. if b then some t else w q) (ne→same p q ne);
  remove_other = λ p q w ne. ap (λ b. if b then none else w q) (ne→same p q ne);
  create_other = λ d q w. refl;
}

spaces_are_trimmed : split_coma (codes " a,b c ,") ≡ codes "a" ∷ codes "b c" ∷ [] ∷ []
unfolding split_coma trim
spaces_are_trimmed = refl

split_langs-join_example : split_langs (codes "go,cpp") ≡ go ∷ cpp ∷ []
unfolding join
split_langs-join_example = split_langs-join go (cpp ∷ []) (tt, (tt, tt))

abbrev pub disk : Disk
disk = written (codes "demo.fbs") (some (codes "namespace demo;")) (λ p. none)

abbrev flags : Flags
flags = record {
  filename = codes "demo.fbs";
  include_dirs = [];
  language = codes "python";
  output_path = codes "out";
}

abbrev final_of : Option (ℕ × Disk) → Disk
final_of none = disk
final_of (some r) = r.1

main_saves_example :
    Generated sys toy_hash 2 no_schema flags disk
      (final_of (main sys toy_hash 2 no_schema flags disk))
unfolding main split_coma split_langs new_codegen parse gen gen_all run_generator contents
    has_generator perform_all PythonGenerator.gen substitute
main_saves_example =
    main_saves sys toy_hash 2 no_schema flags disk
      (final_of (main sys toy_hash 2 no_schema flags disk)) sys-laws refl

abbrev codegen : Codegen
codegen = record {
  input_filename = codes "demo.fbs";
  output_dir = codes "out";
  languages = python ∷ cpp ∷ go ∷ [];
  include_dirs = [];
  parser = parsed;
  parsed = true;
}

abbrev end_of : Option (Option Bytes × Disk) → Disk
end_of none = disk
end_of (some r) = r.1

-- A disk that cannot save the header
abbrev full : Platform Disk
full = record sys {
  save_file = λ p t w. (not (same p (codes "out/demo.smf.fb.h")), written p (some t) w);
}

gen_all_stops_example :
    gen_all full toy_hash 9 (python ∷ cpp ∷ go ∷ []) codegen disk
    ≡ some (
      some (codes "Could not create filename: out/demo.smf.fb.h"),
      end_of (
          run_generator full toy_hash 9 cpp codegen
            (end_of (gen_all full toy_hash 9 (python ∷ []) codegen disk))),
    )
unfolding gen_all run_generator contents has_generator perform_all PythonGenerator.gen substitute
    CppHeader.gen output_filename
gen_all_stops_example =
    gen_all_stops full toy_hash 9 codegen (python ∷ []) (go ∷ []) cpp
      (codes "Could not create filename: out/demo.smf.fb.h") disk
      (end_of (gen_all full toy_hash 9 (python ∷ []) codegen disk))
      (end_of (
        run_generator full toy_hash 9 cpp codegen
          (end_of (gen_all full toy_hash 9 (python ∷ []) codegen disk))))
      refl refl refl

abbrev pub fresh : Codegen
fresh = record codegen { parser = no_schema; parsed = false }

load_error_forgotten_example :
    ((parse sys (λ p. none) fresh).0 ≡ some (codes "Could not load file: demo.fbs"))
    × ((parse sys disk (parse sys (λ p. none) fresh).1).0 ≡ none)
    × (service_count (parse sys (λ p. none) fresh).1 ≡ 0)
    × (gen sys toy_hash 9 (parse sys (λ p. none) fresh).1 disk ≡ (do
      (x, w') ← gen_all sys toy_hash 9 fresh.languages (record fresh { parsed = true }) disk
      some (x, record fresh { parsed = true }, w')))
load_error_forgotten_example =
    load_error_forgotten sys toy_hash 9 fresh (λ p. none) disk refl refl refl
