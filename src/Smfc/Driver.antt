-- ===== src/Smfc/Driver.antt =====
-- main of src/smfc/main.cc, from the flags to the exit status.
pub mod Saves
use smurf.Prelude.{
  ◌>>=◌, ℕ, ◌≡◌, refl, sym, ap, ◌∙◌, inl, inr, Bool, true, false, not, Option, none, some, List, [],
  ◌∷◌, Bytes, if◌then◌else◌, Bool-cases, Option-cases, arith,
}
use smurf.Smfc.Schema.{Language}
use smurf.Smfc.Flags.{split_coma, split_langs, is_empty}
use smurf.Smfc.Codegen.{Platform, ParserState, Codegen, Status, new_codegen, parse, gen}

-- The flags
pub record Flags : Type 0 where
  pub filename : Bytes
  pub include_dirs : Bytes
  pub language : Bytes
  pub output_path : Bytes

-- std::exit(1), if there was an error
exit_status : {W : Type 0} → Status × W → ℕ × W
exit_status (none, w) = (0, w)
exit_status (some e, w) = (1, w)

module _ {W : Type 0} (sys : Platform W) (crc32 : Bytes → ℕ) (fuel : ℕ) (parser : ParserState) where
  generate : Status × Codegen → W → Option (ℕ × W)
  unfolding exit_status
  generate (some e, c) w = some (1, w)
  generate (none, c) w = do (x, c', w') ← gen sys crc32 fuel c w; some (exit_status (x, w'))

  -- From the directory that canonical() gives on; it throws where there is none.
  with_path : Flags → W → Bytes → Option (ℕ × W)
  unfolding generate
  with_path flags w path =
      let codegen =
        new_codegen sys parser flags.filename path (split_coma flags.include_dirs)
          (split_langs flags.language) in
      if not (sys.dir_exists path w)
      then some (1, w)
      else (codegen >>= λ c. generate (parse sys w c) w)

  -- main: its status and the files, or none where it is aborted or a generator does not end
  unfoldable pub main : Flags → W → Option (ℕ × W)
  unfolding with_path
  main flags w =
      if is_empty flags.filename
      then some (1, w)
      else if not (sys.exists flags.filename w)
      then some (1, w)
      else if is_empty flags.output_path
      then some (1, w)
      else (sys.canonical flags.output_path w >>= with_path flags w)
