-- ===== src/Smfc/Codegen.antt =====
-- src/smfc/codegen.cc, main of src/smfc/main.cc, and the saving of files of src/smfc/generator.h and
-- of the generators. The flatbuffers library and the file system are parameters.
pub mod Errors
pub mod Ends
pub mod Saved
pub mod Parsed
use smurf.Prelude.{
  ◌>>=◌, ℕ, Bool, true, false, not, Option, none, some, List, [], ◌∷◌, ◌++◌, Bytes, codes, same,
  length, if◌then◌else◌,
}
use smurf.Smfc.Schema.{Schema, Language, unset, cpp, go, python, all, join}
use smurf.Smfc.Printer.{Printer, Call, new_printer, perform_all}
use smurf.Smfc.Go.{go_printer}
use smurf.Smfc.Python.{python_printer}
use smurf.Smfc.Flags.{split_coma, split_langs, is_empty}
use smurf.Smfc.Cpp.Header as CppHeader
use smurf.Smfc.Go as GoGenerator
use smurf.Smfc.Python as PythonGenerator

-- flatbuffers::Parser, as far as the driver and the generators read it.
pub record ParserState : Type 0 where
  pub error : Bytes
  pub schema : Schema

-- What is called of flatbuffers and of boost::filesystem, over the state of the file system. `parse`
-- takes the contents, the include directories and the name of the file; `canonical` is none where it
-- throws.
pub record Platform (W : Type 0) : Type 0 where
  pub parse : Bytes → List Bytes → Bytes → ParserState → Bool × ParserState
  pub strip_file_name : Bytes → Bytes
  pub strip_path : Bytes → Bytes
  pub strip_extension : Bytes → Bytes
  pub load_file : Bytes → W → Option Bytes
  pub save_file : Bytes → Bytes → W → Bool × W
  pub exists : Bytes → W → Bool
  pub remove : Bytes → W → W
  pub create_directories : Bytes → W → W
  pub dir_exists : Bytes → W → Bool
  pub canonical : Bytes → W → Option Bytes

-- codegen
pub record Codegen : Type 0 where
  pub input_filename : Bytes
  pub output_dir : Bytes
  pub languages : List Language
  pub include_dirs : List Bytes
  pub parser : ParserState
  pub parsed : Bool

-- codegen::status
abbrev pub Status : Type 0
Status = Option Bytes

has_dir : Bytes → List Bytes → Bool
has_dir x [] = false
has_dir x (y ∷ ys) = if same y x then true else has_dir x ys

slashed : List Bytes → Bytes
slashed [] = []
slashed (part ∷ parts) = part ++ (codes "/" ++ slashed parts)

-- output_filename of the three generators
unfoldable pub output_filename : Language → Bytes → Schema → Bytes
unfolding slashed
output_filename cpp dir schema = dir ++ (codes "/" ++ (schema.without_ext ++ codes ".smf.fb.h"))
output_filename go dir schema =
    dir
    ++ (codes "/" ++ (slashed schema.package_parts ++ (schema.without_ext ++ codes ".smf.fb.go")))
output_filename python dir schema =
    dir
    ++ (codes "/"
        ++ (slashed schema.package_parts ++ (schema.without_ext ++ codes "_smf_client.py")))
output_filename _ dir schema = []

unfoldable pub service_count : Codegen → ℕ
service_count c = if c.parsed then length c.parser.schema.service_defs else 0

-- What a generator prints; `none` where it does not end.
unfoldable pub contents : (Bytes → ℕ) → ℕ → Language → Schema → Option Bytes
contents crc32 fuel cpp schema = do
  p ← perform_all fuel (CppHeader.gen crc32 schema) new_printer
  some p.out
contents crc32 fuel go schema = do
  calls ← GoGenerator.gen crc32 schema
  p ← perform_all fuel calls go_printer
  some p.out
contents crc32 fuel python schema = do
  calls ← PythonGenerator.gen crc32 schema
  p ← perform_all fuel calls python_printer
  some p.out
contents crc32 fuel _ schema = some []

-- The cases of the switch in codegen::gen
unfoldable pub has_generator : Language → Bool
has_generator cpp = true
has_generator go = true
has_generator python = true
has_generator _ = false

-- if (x) { return x; }
abbrev pub unless_failed :
    {W : Type 0} → (W → Option (Status × W)) → Status × W → Option (Status × W)
unless_failed rest (none, w) = rest w
unless_failed rest (some e, w) = some (some e, w)

module _ {W : Type 0} (sys : Platform W) where
  -- codegen(…), where its parser starts as `parser`; LOG_IF(FATAL) is none.
  unfoldable pub new_codegen :
      ParserState → Bytes → Bytes → List Bytes → List Language → Option Codegen
  unfolding has_dir
  new_codegen parser ifname out_dir includes langs =
      if is_empty langs
      then none
      else if is_empty out_dir
      then none
      else some (record {
        input_filename = ifname;
        output_dir = out_dir;
        languages = langs;
        include_dirs =
            if has_dir ifname includes
            then includes
            else includes ++ (sys.strip_file_name ifname ∷ []);
        parser = parser;
        parsed = false;
      })

  -- The constructor of generator: what it reads of the parser, under the codegen's own file name.
  abbrev pub generator_schema : Codegen → Schema
  generator_schema c = record c.parser.schema {
    input_filename = c.input_filename;
    without_ext = sys.strip_extension (sys.strip_path c.input_filename);
  }

  -- The result of Parse
  parse_result : Codegen → Bool × ParserState → Status × Codegen
  parse_result c (ok, p) =
      let c' = record c { parser = p; parsed = true } in
      if ok then (none, c') else (some (codes "Could not PARSE file: " ++ p.error), c')

  load_result : Codegen → Option Bytes → Status × Codegen
  unfolding parse_result
  load_result c none =
      (some (codes "Could not load file: " ++ c.input_filename), record c { parsed = true })
  load_result c (some text) =
      parse_result c (sys.parse text c.include_dirs c.input_filename c.parser)

  unfoldable pub parse : W → Codegen → Status × Codegen
  unfolding load_result
  parse w c =
      if c.parsed
      then if not (is_empty c.parser.error)
        then (some (codes "Parser in error state: " ++ c.parser.error), c)
        else (none, c)
      else load_result c (sys.load_file c.input_filename w)

  -- generator::save_conents_to_file
  unfoldable pub save_conents_to_file : Bytes → Bytes → W → Status × W
  save_conents_to_file outname text w =
      let cleared = if sys.exists outname w then sys.remove outname w else w in
      let (ok, w') = sys.save_file outname text cleared in
      (if ok then none else some (codes "Could not create filename: " ++ outname), w')

  -- What a generator does before it saves its file
  unfoldable pub prepare : Language → Schema → W → W
  prepare go schema w = sys.create_directories (join (codes "/") schema.package_parts) w
  prepare python schema w = sys.create_directories (join (codes "/") schema.package_parts) w
  prepare _ schema w = w

  module _ (crc32 : Bytes → ℕ) (fuel : ℕ) where
    -- gen() of the generator of a language
    unfoldable pub run_generator : Language → Codegen → W → Option (Status × W)
    unfolding prepare save_conents_to_file
    run_generator l c w = do
      text ← contents crc32 fuel l (generator_schema c)
      some (
          save_conents_to_file (output_filename l c.output_dir (generator_schema c)) text
            (prepare l (generator_schema c) w))

    -- The loop of codegen::gen
    unfoldable pub gen_all : List Language → Codegen → W → Option (Status × W)
    gen_all [] c w = some (none, w)
    gen_all (l ∷ ls) c w =
        let rest : W → Option (Status × W) = λ w'. gen_all ls c w' in
        if has_generator l then run_generator l c w >>= unless_failed rest else rest w

    unfoldable pub gen_parsed : Status × Codegen → W → Option (Status × Codegen × W)
    gen_parsed (some e, c) w = some (some e, c, w)
    gen_parsed (none, c) w = do (x, w') ← gen_all c.languages c w; some (x, c, w')

    unfoldable pub gen : Codegen → W → Option (Status × Codegen × W)
    unfolding gen_parsed
    gen c w = gen_parsed (parse w c) w
