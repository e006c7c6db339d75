-- ===== src/Smfc/Codegen/Errors.antt =====
-- How src/smfc/codegen.cc reports errors.
use smurf.Prelude.{
  ◌>>=◌, ℕ, ◌≡◌, refl, sym, ap, ◌∙◌, inl, inr, true, false, not, Option, none, some, List, [], ◌∷◌,
  ◌++◌, Bytes, codes, length, if◌then◌else◌, Bool-cases,
}
use smurf.Smfc.Schema.{Language}
use smurf.Smfc.Flags.{is_empty}
use smurf.Smfc.Codegen.{
  Platform, Codegen, Status, has_generator, parse, load_result, run_generator, gen_all,
  unless_failed, gen, gen_parsed, service_count,
}

pub unless_failed_done :
    {W : Type 0} {w' : W} (m : Option (Status × W)) (rest : W → Option (Status × W))
    → (m >>= unless_failed rest) ≡ some (none, w')
    → (w : W) × (m ≡ some (none, w)) × (rest w ≡ some (none, w'))
unless_failed_done none rest done = cc
unless_failed_done (some (none, w)) rest done = (w, refl, done)
unless_failed_done (some (some e, w)) rest done = cc

module _ {W : Type 0} (sys : Platform W) (crc32 : Bytes → ℕ) (fuel : ℕ) (c : Codegen) where
  pub gen_all-run :
      (l : Language) (ls : List Language) (w : W)
      → has_generator l ≡ true
      → gen_all sys crc32 fuel (l ∷ ls) c w
        ≡ (run_generator sys crc32 fuel l c w >>= unless_failed (gen_all sys crc32 fuel ls c))
  unfolding gen_all
  gen_all-run l ls w known = rw known refl

  pub gen_all-skip :
      (l : Language) (ls : List Language) (w : W)
      → has_generator l ≡ false
      → gen_all sys crc32 fuel (l ∷ ls) c w ≡ gen_all sys crc32 fuel ls c w
  unfolding gen_all
  gen_all-skip l ls w unknown = rw unknown refl

  -- The generators run in the order of the languages, and the first that fails ends them: with the
  -- generators of `before` all done, one that fails with `e` makes `e` the result whatever languages
  -- come after it, and leaves the files as it left them.
  pub gen_all_stops :
      (before after : List Language) (l : Language) (e : Bytes) (w w1 w2 : W)
      → has_generator l ≡ true
      → gen_all sys crc32 fuel before c w ≡ some (none, w1)
      → run_generator sys crc32 fuel l c w1 ≡ some (some e, w2)
      → gen_all sys crc32 fuel (before ++ (l ∷ after)) c w ≡ some (some e, w2)
  unfolding gen_all
  gen_all_stops [] after l e w w1 w2 known done fails =
      let same : w ≡ w1 = cc in
      gen_all-run l after w known
      ∙ ap (λ m. m >>= unless_failed (gen_all sys crc32 fuel after c))
          (ap (run_generator sys crc32 fuel l c) same ∙ fails)
  gen_all_stops (b ∷ before) after l e w w1 w2 known done fails =
      elim (Bool-cases (has_generator b)) [
        | inl runs ↦
            let (w0, ran, rest) =
              unless_failed_done (run_generator sys crc32 fuel b c w)
                (gen_all sys crc32 fuel before c) (sym (gen_all-run b before w runs) ∙ done) in
            gen_all-run b _ w runs
            ∙ (ap (λ m. m >>= unless_failed (gen_all sys crc32 fuel (before ++ (l ∷ after)) c)) ran
                ∙ gen_all_stops before after l e w0 w1 w2 known rest fails)
        | inr skips ↦
            gen_all-skip b _ w skips
            ∙ gen_all_stops before after l e w w1 w2 known
                (sym (gen_all-skip b before w skips) ∙ done) fails
      ]

module _ {W : Type 0} (sys : Platform W) (crc32 : Bytes → ℕ) (fuel : ℕ) (c : Codegen) where
  parse-missing :
      (w : W)
      → c.parsed ≡ false
      → sys.load_file c.input_filename w ≡ none
      → parse sys w c
        ≡ (some (codes "Could not load file: " ++ c.input_filename), record c { parsed = true })
  unfolding parse load_result
  parse-missing w fresh missing =
      let again : Status × Codegen =
        if not (is_empty c.parser.error)
        then (some (codes "Parser in error state: " ++ c.parser.error), c)
        else (none, c) in
      ap (λ b. if b then again else load_result sys c (sys.load_file c.input_filename w)) fresh
      ∙ ap (load_result sys c) missing

  -- A parser without an error is not asked again.
  pub parse-again :
      (w : W)
      → c.parser.error ≡ []
      → parse sys w (record c { parsed = true }) ≡ (none, record c { parsed = true })
  unfolding parse
  parse-again w clean =
      let d : Codegen = record c { parsed = true } in
      ap
        (λ e.
          if not (is_empty e) then (some (codes "Parser in error state: " ++ e), d) else (none, d))
        clean

  -- A file that cannot be loaded is an error of the first `parse` only: the flag says that the file
  -- was parsed, so a later `parse`, with whatever files there are then, reads nothing and reports
  -- nothing, and `gen` goes on to the generators with the schema that the parser had to begin with.
  pub load_error_forgotten :
      (w later : W)
      → c.parsed ≡ false
      → c.parser.error ≡ []
      → sys.load_file c.input_filename w ≡ none
      → ((parse sys w c).0 ≡ some (codes "Could not load file: " ++ c.input_filename))
        × ((parse sys later (parse sys w c).1).0 ≡ none)
        × (service_count (parse sys w c).1 ≡ length c.parser.schema.service_defs)
        × (gen sys crc32 fuel (parse sys w c).1 later ≡ (do
          (x, w') ← gen_all sys crc32 fuel c.languages (record c { parsed = true }) later
          some (x, record c { parsed = true }, w')))
  unfolding service_count gen gen_parsed
  load_error_forgotten w later fresh clean missing =
      let first = parse-missing w fresh missing in
      let next = parse-again later clean in
      (
        ap (λ r. r.0) first,
        ap (λ r. (parse sys later r.1).0) first ∙ ap (λ r. r.0) next,
        ap (λ r. service_count r.1) first,
        ap (λ r. gen sys crc32 fuel r.1 later) first
            ∙ ap (λ r. gen_parsed sys crc32 fuel r later) next,
      )
