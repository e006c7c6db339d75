-- ===== src/Smfc/Driver/Saves.antt =====
-- What an exit status of 0 of src/smfc/main.cc says.
use smurf.Prelude.{
  bound, some-inj, ◌>>=◌, ℕ, ◌≡◌, refl, sym, ap, ◌∙◌, Bool, true, false, not, Option, none, some,
  Bytes, if◌then◌else◌, arith,
}
use smurf.Smfc.Flags.{split_coma, split_langs, is_empty}
use smurf.Smfc.Codegen.{Platform, ParserState, Codegen, Status, new_codegen, parse, gen, gen_all}
use smurf.Smfc.Codegen.Parsed.{parse-good, parse-parsed, new_codegen-MadeOf, gen-done}
use smurf.Smfc.Codegen.Saved.{FileLaws, AllSaved, gen_all_saves}
use smurf.Smfc.Driver.{Flags, exit_status, generate, with_path, main}

-- A test that would have ended with the status 1 did not.
passed :
    {W : Type 0} (w : W) {w' : W} (b : Bool) (y : Option (ℕ × W))
    → (if b then some (1, w) else y) ≡ some (0, w')
    → y ≡ some (0, w')
passed w true y e = absurd (ground arith)
passed w false y e = e

exit-zero :
    {W : Type 0} (x : Status) (w w' : W) → exit_status (x, w) ≡ (0, w') → (x ≡ none) × (w ≡ w')
unfolding exit_status
exit-zero none w w' e = (refl, ap (λ r. r.1) e)
exit-zero (some m) w w' e = absurd (omega (arith, ap (λ r. r.0) e))

module _ {W : Type 0} (sys : Platform W) (crc32 : Bytes → ℕ) (fuel : ℕ) (parser : ParserState) where
  generate-zero :
      (r : Status × Codegen) (w w' : W)
      → r.1.parsed ≡ true
      → generate sys crc32 fuel parser r w ≡ some (0, w')
      → (r.0 ≡ none) × (gen_all sys crc32 fuel r.1.languages r.1 w ≡ some (none, w'))
  unfolding generate
  generate-zero (some e, c) w w' old done = absurd (ground (arith, done))
  generate-zero (none, c) w w' old done =
      let ((x, c', v), ran, end) = bound (gen sys crc32 fuel c w) _ done in
      let (none_left, files) = exit-zero x v w' (some-inj end) in
      (
        refl,
        gen-done sys crc32 fuel c c' w w' old
            (ran ∙ (ap (λ y. some (y, c', v)) none_left ∙ ap (λ u. some (none, c', u)) files)),
      )

  -- What `main` did where it ends with 0
  pub record Generated (flags : Flags) (w w' : W) : Type 0 where
    pub codegen : Codegen
    pub text : Bytes
    pub input : codegen.input_filename ≡ flags.filename
    pub languages : codegen.languages ≡ split_langs flags.language
    pub output_dir : sys.canonical flags.output_path w ≡ some codegen.output_dir
    pub loaded : sys.load_file flags.filename w ≡ some text
    pub parses : sys.parse text codegen.include_dirs flags.filename parser ≡ (true, codegen.parser)
    pub saved : AllSaved sys crc32 fuel codegen w' codegen.languages

  main-started :
      (flags : Flags) (w w' : W)
      → main sys crc32 fuel parser flags w ≡ some (0, w')
      → (path : Bytes) × (sys.canonical flags.output_path w ≡ some path)
        × (with_path sys crc32 fuel parser flags w path ≡ some (0, w'))
  unfolding main
  main-started flags w w' done =
      let last = sys.canonical flags.output_path w >>= with_path sys crc32 fuel parser flags w in
      let third = if is_empty flags.output_path then some (1, w) else last in
      let second = if not (sys.exists flags.filename w) then some (1, w) else third in
      bound (sys.canonical flags.output_path w) (with_path sys crc32 fuel parser flags w) (
        passed w (is_empty flags.output_path) last (
          passed w (not (sys.exists flags.filename w)) third
            (passed w (is_empty flags.filename) second done)))

  with_path-started :
      (flags : Flags) (w w' : W) (path : Bytes)
      → with_path sys crc32 fuel parser flags w path ≡ some (0, w')
      → (c : Codegen) × (new_codegen sys parser flags.filename path
            (split_coma flags.include_dirs)
            (split_langs flags.language)
          ≡ some c)
        × (generate sys crc32 fuel parser (parse sys w c) w ≡ some (0, w'))
  unfolding with_path
  with_path-started flags w w' path done =
      let codegen =
        new_codegen sys parser flags.filename path (split_coma flags.include_dirs)
          (split_langs flags.language) in
      let go = λ (c : Codegen). generate sys crc32 fuel parser (parse sys w c) w in
      bound codegen go (passed w (not (sys.dir_exists path w)) (codegen >>= go) done)

  -- Where `main` ends with 0, it parsed the text of the file of the flags without an error, and the
  -- output file of each language of the flags, in the directory and after the file that they name, holds what the
  -- generator of that language prints for the schema.
  pub main_saves :
      (flags : Flags) (w w' : W)
      → FileLaws sys
      → main sys crc32 fuel parser flags w ≡ some (0, w')
      → Generated flags w w'
  main_saves flags w w' laws done =
      let (path, at, there) = main-started flags w w' done in
      let (c, made, went) = with_path-started flags w w' path there in
      let of =
        new_codegen-MadeOf sys parser flags.filename path (split_coma flags.include_dirs)
          (split_langs flags.language) c made in
      let (good, files) = generate-zero (parse sys w c) w w' (parse-parsed sys w c of.fresh) went in
      let c' = (parse sys w c).1 in
      let p = parse-good sys w c c' of.fresh (ap (λ s. (s, c')) good) in
      record {
        codegen = c';
        text = p.text;
        input = ap (λ d. d.input_filename) p.same ∙ of.input_filename;
        languages = ap (λ d. d.languages) p.same ∙ of.languages;
        output_dir = at ∙ ap some (sym (ap (λ d. d.output_dir) p.same ∙ of.output_dir));
        loaded = ap (λ f. sys.load_file f w) (sym of.input_filename) ∙ p.loaded;
        parses =
            ap (λ (d : Codegen). sys.parse p.text d.include_dirs flags.filename parser) p.same
            ∙ (ap (λ f. sys.parse p.text c.include_dirs f parser) (sym of.input_filename)
                ∙ (ap (λ q. sys.parse p.text c.include_dirs c.input_filename q)
                      (sym of.parser_state)
                    ∙ p.good));
        saved = gen_all_saves sys laws crc32 fuel c' c'.languages w w' files;
      }
