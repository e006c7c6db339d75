-- ===== src/Smfc/Codegen/Ends.antt =====
-- The end of the generators that src/smfc/codegen.cc runs.
use smurf.Prelude.{
  ℕ, ◌≤◌, ◌≡◌, ap, ◌∙◌, refl, ◌>>=◌, inl, inr, Option, none, some, List, [], ◌∷◌, Bytes, Bool-cases,
}
use smurf.Smfc.Printer.{Printer, Call, new_printer, perform_all}
use smurf.Smfc.Printer.Output.{level_is_printed}
use smurf.Smfc.Schema.{Schema, Language, unset, cpp, go, python, all}
use smurf.Smfc.Cpp.Header as CppHeader
use smurf.Smfc.Cpp.Header.Level.{gen-IsLevel}
use smurf.Smfc.Cpp.Header.Plain.{gen-IsPrintable}
use smurf.Smfc.Go.{go_printer}
use smurf.Smfc.Go.Level.{go_gen-IsLevel}
use smurf.Smfc.Go.Plain.Whole.{go_gen-IsPrintable}
use smurf.Smfc.Python.{python_printer}
use smurf.Smfc.Python.Imports.{python_gen-IsLevel}
use smurf.Smfc.Python.Plain.{python_gen-IsPrintable}
use smurf.Smfc.Plain.Schema.{PlainSchema}
use smurf.Smfc.Codegen.{
  Platform, Codegen, generator_schema, Status, has_generator, contents, run_generator, gen_all,
  unless_failed, parse, gen_parsed, gen, save_conents_to_file, output_filename, prepare,
}
use smurf.Smfc.Codegen.Errors.{gen_all-run, gen_all-skip}

-- What a printer holds after its calls
printed : ℕ → Printer → List Call → Option Bytes
printed fuel printer calls = do p ← perform_all fuel calls printer; some p.out

printed-some :
    (fuel : ℕ) (printer : Printer) (calls : List Call) (p : Printer)
    → perform_all fuel calls printer ≡ some p
    → printed fuel printer calls ≡ some p.out
unfolding printed
printed-some fuel printer calls p done = rw (done) refl

module _ (crc32 : Bytes → ℕ) (fuel : ℕ) (enough : 8 ≤ fuel) (schema : Schema)
    (plain : PlainSchema schema) (part : Bytes) (parts : List Bytes)
    (has_namespace : schema.package_parts ≡ part ∷ parts) where
  contents_end : (l : Language) → (t : Bytes) × (contents crc32 fuel l schema ≡ some t)
  unfolding contents printed
  contents_end cpp =
      let calls = CppHeader.gen crc32 schema in
      let (p, done, _) =
        level_is_printed fuel calls new_printer (gen-IsLevel crc32 schema)
          (gen-IsPrintable fuel enough crc32 schema plain).plain in
      (p.out, printed-some fuel new_printer calls p done)
  contents_end go =
      let (calls, made, level) = go_gen-IsLevel crc32 schema part parts has_namespace in
      let (p, done, _) =
        level_is_printed fuel calls go_printer level
          (go_gen-IsPrintable fuel enough crc32 schema calls plain made).plain in
      (
        p.out,
        ap (λ g. g >>= printed fuel go_printer) made ∙ printed-some fuel go_printer calls p done,
      )
  contents_end python =
      let (calls, made, level) = python_gen-IsLevel crc32 schema in
      let (p, done, _) =
        level_is_printed fuel calls python_printer level
          (python_gen-IsPrintable fuel enough crc32 schema calls plain made).plain in
      (
        p.out,
        ap (λ g. g >>= printed fuel python_printer) made
            ∙ printed-some fuel python_printer calls p done,
      )
  contents_end unset = ([], refl)
  contents_end all = ([], refl)

after :
    {W : Type 0} (m : Option (Status × W)) (rest : W → Option (Status × W))
    → (r : Status × W) × (m ≡ some r)
    → ((w : W) → (r : Status × W) × (rest w ≡ some r))
    → (r : Status × W) × ((m >>= unless_failed rest) ≡ some r)
after m rest ((none, w), done) ends =
    let (r, e) = ends w in (r, ap (λ x. x >>= unless_failed rest) done ∙ e)
after m rest ((some error, w), done) ends =
    ((some error, w), ap (λ x. x >>= unless_failed rest) done)

module _ {W : Type 0} (sys : Platform W) (crc32 : Bytes → ℕ) (fuel : ℕ) where
  run_ends :
      (l : Language) (c : Codegen) (w : W)
      → (t : Bytes) × (contents crc32 fuel l (generator_schema sys c) ≡ some t)
      → (r : Status × W) × (run_generator sys crc32 fuel l c w ≡ some r)
  unfolding run_generator
  run_ends l c w (t, e) = (
    save_conents_to_file sys (output_filename l c.output_dir (generator_schema sys c)) t
        (prepare sys l (generator_schema sys c) w),
    rw (e) refl,
  )

  loop_ends :
      (c : Codegen) (ls : List Language) (w : W)
      → ((l : Language) → (t : Bytes) × (contents crc32 fuel l (generator_schema sys c) ≡ some t))
      → (r : Status × W) × (gen_all sys crc32 fuel ls c w ≡ some r)
  unfolding gen_all
  loop_ends c [] w ends = ((none, w), refl)
  loop_ends c (l ∷ ls) w ends = elim (Bool-cases (has_generator l)) [
    | inl runs ↦
        let (r, done) =
          after (run_generator sys crc32 fuel l c w) (gen_all sys crc32 fuel ls c)
            (run_ends l c w (ends l)) (λ w'. loop_ends c ls w' ends) in
        (r, gen_all-run sys crc32 fuel c l ls w runs ∙ done)
    | inr skips ↦
        let (r, rest) = loop_ends c ls w ends in
        (r, gen_all-skip sys crc32 fuel c l ls w skips ∙ rest)
  ]

  parsed_ends :
      (x : Status × Codegen) (w : W)
      → ((l : Language) → (t : Bytes) × (contents crc32 fuel l (generator_schema sys x.1) ≡ some t))
      → (r : Status × Codegen × W) × (gen_parsed sys crc32 fuel x w ≡ some r)
  unfolding gen_parsed
  parsed_ends (some error, c) w ends = ((some error, c, w), refl)
  parsed_ends (none, c) w ends =
      let ((x, w'), done) = loop_ends c c.languages w ends in ((x, c, w'), rw (done) refl)

  -- codegen::gen ends for every list of languages and every state of the files, with an error or
  -- without: where 8 rounds of substitution are allowed for a template, and the schema that the
  -- parser has after the parse has a namespace and no '$' in its names, nor the input file in its
  -- own, no generator prints for ever, and no assertion of the printer or of a generator fails.
  pub gen_ends :
      (c : Codegen) (w : W) (part : Bytes) (parts : List Bytes)
      → 8 ≤ fuel
      → PlainSchema (generator_schema sys (parse sys w c).1)
      → (generator_schema sys (parse sys w c).1).package_parts ≡ part ∷ parts
      → (r : Status × Codegen × W) × (gen sys crc32 fuel c w ≡ some r)
  unfolding gen
  gen_ends c w part parts enough plain has_namespace = parsed_ends (parse sys w c) w (
      contents_end crc32 fuel enough (generator_schema sys (parse sys w c).1) plain part parts
        has_namespace)
