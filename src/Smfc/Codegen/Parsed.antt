-- ===== src/Smfc/Codegen/Parsed.antt =====
-- What a success of parse and of gen of src/smfc/codegen.cc says.
use smurf.Prelude.{
  bound, some-inj, ℕ, ◌≡◌, refl, sym, ap, ◌∙◌, Bool, true, false, not, Option, none, some, List,
  ◌++◌, Bytes, codes, if◌then◌else◌, arith,
}
use smurf.Smfc.Schema.{Language}
use smurf.Smfc.Flags.{is_empty}
use smurf.Smfc.Codegen.{
  Platform, ParserState, Codegen, Status, new_codegen, parse, load_result, parse_result, gen,
  gen_parsed, gen_all,
}

-- The value that a chain went on with.
some_triple {ℓ κ μ} :
    {A : Type ℓ} {B : Type κ} {C : Type μ} {x y : A × B × C}
    → some x ≡ some y
    → (x.0 ≡ y.0) × (x.1 ≡ y.1) × (x.2 ≡ y.2)
some_triple e = (cc, cc, cc)

not_fatal :
    (b : Bool) {c : Codegen} (y : Option Codegen) → (if b then none else y) ≡ some c → y ≡ some c
not_fatal true y e = cc
not_fatal false y e = e

if_true {ℓ} : {A : Type ℓ} {b : Bool} (x y : A) → b ≡ true → (if b then x else y) ≡ x
if_true {b} x y e = rw e refl

if_false {ℓ} : {A : Type ℓ} {b : Bool} (x y : A) → b ≡ false → (if b then x else y) ≡ y
if_false {b} x y e = rw e refl

module _ {W : Type 0} (sys : Platform W) where
  -- Parse was called on the text of the file, and found no error.
  pub record Parsed (w : W) (c c' : Codegen) : Type 0 where
    pub text : Bytes
    pub loaded : sys.load_file c.input_filename w ≡ some text
    pub good : sys.parse text c.include_dirs c.input_filename c.parser ≡ (true, c'.parser)
    pub same : c' ≡ record c { parser = c'.parser; parsed = true }

  parse_result-good :
      (c c' : Codegen) (r : Bool × ParserState)
      → parse_result sys c r ≡ (none, c')
      → (r ≡ (true, c'.parser)) × (c' ≡ record c { parser = c'.parser; parsed = true })
  unfolding parse_result
  parse_result-good c c' (true, p) e =
      let at : record c { parser = p; parsed = true } ≡ c' = ap (λ r. r.1) e in
      (
        ap (λ d. (true, d.parser)) at,
        sym at ∙ ap (λ d. record c { parser = d.parser; parsed = true }) at,
      )
  parse_result-good c c' (false, p) e = absurd (ground (arith, ap (λ r. r.0) e))

  load_result-good :
      (w : W) (c c' : Codegen) (o : Option Bytes)
      → sys.load_file c.input_filename w ≡ o
      → load_result sys c o ≡ (none, c')
      → Parsed w c c'
  unfolding load_result
  load_result-good w c c' none at e = absurd (ground (arith, ap (λ r. r.0) e))
  load_result-good w c c' (some text) at e =
      let (good, same) =
        parse_result-good c c' (sys.parse text c.include_dirs c.input_filename c.parser) e in
      record { text = text; loaded = at; good = good; same = same }

  pub parse-good :
      (w : W) (c c' : Codegen) → c.parsed ≡ false → parse sys w c ≡ (none, c') → Parsed w c c'
  unfolding parse
  parse-good w c c' fresh e = load_result-good w c c' _ refl (sym (if_false _ _ fresh) ∙ e)

  parse_result-parsed :
      (c : Codegen) (r : Bool × ParserState) → (parse_result sys c r).1.parsed ≡ true
  unfolding parse_result
  parse_result-parsed c (true, p) = refl
  parse_result-parsed c (false, p) = refl

  load_result-parsed : (c : Codegen) (o : Option Bytes) → (load_result sys c o).1.parsed ≡ true
  unfolding load_result
  load_result-parsed c none = refl
  load_result-parsed c (some text) = parse_result-parsed c _

  pub parse-parsed : (w : W) (c : Codegen) → c.parsed ≡ false → (parse sys w c).1.parsed ≡ true
  unfolding parse
  parse-parsed w c fresh =
      ap (λ (r : Status × Codegen). r.1.parsed) (if_false _ _ fresh)
      ∙ load_result-parsed c (sys.load_file c.input_filename w)

  -- What a new codegen is made of.
  pub record MadeOf (parser : ParserState) (ifname out_dir : Bytes) (langs : List Language)
      (c : Codegen) : Type 0 where
    pub input_filename : c.input_filename ≡ ifname
    pub output_dir : c.output_dir ≡ out_dir
    pub languages : c.languages ≡ langs
    pub parser_state : c.parser ≡ parser
    pub fresh : c.parsed ≡ false

  pub new_codegen-MadeOf :
      (parser : ParserState) (ifname out_dir : Bytes) (includes : List Bytes)
      (langs : List Language) (c : Codegen)
      → new_codegen sys parser ifname out_dir includes langs ≡ some c
      → MadeOf parser ifname out_dir langs c
  unfolding new_codegen
  new_codegen-MadeOf parser ifname out_dir includes langs c e =
      let made = some-inj (not_fatal (is_empty out_dir) _ (not_fatal (is_empty langs) _ e)) in
      record {
        input_filename = sym (ap (λ d. d.input_filename) made);
        output_dir = sym (ap (λ d. d.output_dir) made);
        languages = sym (ap (λ d. d.languages) made);
        parser_state = sym (ap (λ d. d.parser) made);
        fresh = sym (ap (λ d. d.parsed) made);
      }

  error_none :
      (c c' : Codegen) (b : Bool)
      → ◌≡◌ {A = Status × Codegen}
          (if b then (some (codes "Parser in error state: " ++ c.parser.error), c) else (none, c))
          (none, c')
      → c' ≡ c
  error_none c c' true e = absurd (ground (arith, ap (λ r. r.0) e))
  error_none c c' false e = sym (ap (λ r. r.1) e)

  parse-again_same :
      (w : W) (c c' : Codegen) → c.parsed ≡ true → parse sys w c ≡ (none, c') → c' ≡ c
  unfolding parse
  parse-again_same w c c' old e =
      error_none c c' (not (is_empty c.parser.error)) (sym (if_true _ _ old) ∙ e)

  gen_parsed-done :
      (crc32 : Bytes → ℕ) (fuel : ℕ) (r : Status × Codegen) (w w' : W) (c' : Codegen)
      → gen_parsed sys crc32 fuel r w ≡ some (none, c', w')
      → (r ≡ (none, c')) × (gen_all sys crc32 fuel c'.languages c' w ≡ some (none, w'))
  unfolding gen_parsed
  gen_parsed-done crc32 fuel (some e, c) w w' c' done = absurd (ground (arith, done))
  gen_parsed-done crc32 fuel (none, c) w w' c' done =
      let ((x, v), ran, end) = bound (gen_all sys crc32 fuel c.languages c w) _ done in
      let (none_left, same, files) = some_triple end in
      (
        ap (λ d. (none, d)) same,
        ap (λ d. gen_all sys crc32 fuel d.languages d w) (sym same)
            ∙ (ran ∙ (ap (λ y. some (y, v)) none_left ∙ ap (λ u. some (none, u)) files)),
      )

  -- gen() after parse() parses no more, and ends well where the loop over the languages does.
  pub gen-done :
      (crc32 : Bytes → ℕ) (fuel : ℕ) (c c' : Codegen) (w w' : W)
      → c.parsed ≡ true
      → gen sys crc32 fuel c w ≡ some (none, c', w')
      → gen_all sys crc32 fuel c.languages c w ≡ some (none, w')
  unfolding gen
  gen-done crc32 fuel c c' w w' old done =
      let (again, ran) = gen_parsed-done crc32 fuel (parse sys w c) w w' c' done in
      let same = parse-again_same w c c' old again in
      ap (λ d. gen_all sys crc32 fuel d.languages d w) (sym same) ∙ ran
