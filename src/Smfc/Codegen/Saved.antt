-- ===== src/Smfc/Codegen/Saved.antt =====
-- The files that src/smfc/codegen.cc leaves when it succeeds.
use smurf.Prelude.{
  ℕ, ◌⊎◌, ◌≡◌, ◌≢◌, refl, sym, ap, ◌∙◌, inl, inr, Bool, true, false, none, some, List, [], ◌∷◌,
  ◌++◌, ◌<◌, Bytes, codes, arith, if◌then◌else◌, Bool-cases, Option-cases, if_both, subst,
}
use smurf.Smfc.Schema.{Schema, Language, unset, cpp, go, python, all}
use smurf.Smfc.Codegen.{
  Platform, Codegen, generator_schema, Status, has_generator, contents, output_filename, slashed,
  save_conents_to_file, prepare, run_generator, gen_all,
}
use smurf.Smfc.Codegen.Errors.{gen_all-run, gen_all-skip, unless_failed_done}

-- What the source takes for granted of files: a file that was saved has its text, and saving or
-- removing one, or making directories, changes no other file.
pub record FileLaws {W : Type 0} (sys : Platform W) : Type 0 where
  pub saved :
      (p t : Bytes) (w : W)
      → (sys.save_file p t w).0 ≡ true
      → sys.load_file p (sys.save_file p t w).1 ≡ some t
  pub save_other :
      (p q t : Bytes) (w : W) → p ≢ q → sys.load_file q (sys.save_file p t w).1 ≡ sys.load_file q w
  pub remove_other :
      (p q : Bytes) (w : W) → p ≢ q → sys.load_file q (sys.remove p w) ≡ sys.load_file q w
  pub create_other :
      (d q : Bytes) (w : W) → sys.load_file q (sys.create_directories d w) ≡ sys.load_file q w

-- The last byte, or 0
last : Bytes → ℕ
last [] = 0
last (x ∷ []) = x
last (x ∷ y ∷ xs) = last (y ∷ xs)

-- A text whose last byte is `n`, which is not 0
record EndsIn (n : ℕ) (ys : Bytes) : Type 0 where
  pub ends : last ys ≡ n
  pub positive : 0 < n

last-cons : (x : ℕ) (ys : Bytes) (n : ℕ) → 0 < n → last ys ≡ n → last (x ∷ ys) ≡ n
unfolding last
last-cons x [] n p e = absurd (omega (arith, e))
last-cons x (y ∷ ys) n p e = e

append-EndsIn : (xs : Bytes) {ys : Bytes} {n : ℕ} → EndsIn n ys → EndsIn n (xs ++ ys)
append-EndsIn [] e = e
append-EndsIn (x ∷ xs) {n} e =
    let rest = append-EndsIn xs e in
    record { ends = last-cons x _ n e.positive rest.ends; positive = e.positive }

-- The last byte of the name of an output file
last_of : Language → ℕ
last_of cpp = 104
last_of go = 111
last_of _ = 121

output-EndsIn :
    (l : Language) (dir : Bytes) (schema : Schema)
    → has_generator l ≡ true
    → EndsIn (last_of l) (output_filename l dir schema)
unfolding output_filename has_generator last_of last
output-EndsIn cpp dir schema e =
    let suffix : EndsIn 104 (codes ".smf.fb.h") = record { ends = refl; positive = omega arith } in
    append-EndsIn dir (append-EndsIn (codes "/") (append-EndsIn schema.without_ext suffix))
output-EndsIn go dir schema e =
    let suffix : EndsIn 111 (codes ".smf.fb.go") = record { ends = refl; positive = omega arith } in
    append-EndsIn dir (
      append-EndsIn (codes "/")
        (append-EndsIn (slashed schema.package_parts) (append-EndsIn schema.without_ext suffix)))
output-EndsIn python dir schema e =
    let suffix : EndsIn 121 (codes "_smf_client.py") = record {
      ends = refl;
      positive = omega arith;
    } in
    append-EndsIn dir (
      append-EndsIn (codes "/")
        (append-EndsIn (slashed schema.package_parts) (append-EndsIn schema.without_ext suffix)))
output-EndsIn unset dir schema e = cc
output-EndsIn all dir schema e = cc

status-none : (ok : Bool) (e : Bytes) → (if ok then none else some e) ≡ none → ok ≡ true
status-none true e h = refl
status-none false e h = cc

language_cases :
    (k l : Language)
    → has_generator k ≡ true
    → has_generator l ≡ true
    → (k ≡ l) ⊎ (last_of k ≢ last_of l)
unfolding has_generator last_of
language_cases cpp cpp a b = inl refl
language_cases cpp go a b = inr (λ e. omega arith)
language_cases cpp python a b = inr (λ e. omega arith)
language_cases go cpp a b = inr (λ e. omega arith)
language_cases go go a b = inl refl
language_cases go python a b = inr (λ e. omega arith)
language_cases python cpp a b = inr (λ e. omega arith)
language_cases python go a b = inr (λ e. omega arith)
language_cases python python a b = inl refl
language_cases unset l a b = cc
language_cases all l a b = cc
language_cases k unset a b = cc
language_cases k all a b = cc

outputs_differ :
    (k l : Language) (dir : Bytes) (schema : Schema)
    → has_generator k ≡ true
    → has_generator l ≡ true
    → last_of k ≢ last_of l
    → output_filename k dir schema ≢ output_filename l dir schema
outputs_differ k l dir schema a b ne e =
    ne (sym (output-EndsIn k dir schema a).ends ∙ (ap last e ∙ (output-EndsIn l dir schema b).ends))

name_at : {W : Type 0} → Platform W → Codegen → Language → Bytes
name_at sys c l = output_filename l c.output_dir (generator_schema sys c)

module _ {W : Type 0} (sys : Platform W) (crc32 : Bytes → ℕ) (fuel : ℕ) (c : Codegen) where
  -- The file of a language holds what its generator prints.
  abbrev pub IsSaved : W → Language → Type 0
  IsSaved w l =
      (t : Bytes) × (contents crc32 fuel l (generator_schema sys c) ≡ some t)
      × (sys.load_file (output_filename l c.output_dir (generator_schema sys c)) w ≡ some t)

  -- The files of all the languages of a list that have a generator.
  abbrev pub AllSaved : W → List Language → Type 0
  AllSaved w [] = Unit {0}
  AllSaved w (l ∷ ls) = (has_generator l ≡ true → IsSaved w l) × AllSaved w ls

module _ {W : Type 0} (sys : Platform W) (laws : FileLaws sys) (crc32 : Bytes → ℕ) (fuel : ℕ)
    (c : Codegen) where
  save-load :
      (p t : Bytes) (w w' : W)
      → save_conents_to_file sys p t w ≡ (none, w')
      → sys.load_file p w' ≡ some t
  unfolding save_conents_to_file
  save-load p t w w' done =
      let cleared = if sys.exists p w then sys.remove p w else w in
      let (ok, next) = sys.save_file p t cleared in
      let wrote : ok ≡ true = status-none ok _ (ap (λ r. r.0) done) in
      ap (sys.load_file p) (sym (ap (λ r. r.1) done)) ∙ laws.saved p t cleared wrote

  save-other :
      (p q t : Bytes) (w w' : W) (x : Status)
      → p ≢ q
      → save_conents_to_file sys p t w ≡ (x, w')
      → sys.load_file q w' ≡ sys.load_file q w
  unfolding save_conents_to_file
  save-other p q t w w' x ne done =
      ap (sys.load_file q) (sym (ap (λ r. r.1) done))
      ∙ (laws.save_other p q t _ ne
          ∙ if_both (λ v. sys.load_file q v ≡ sys.load_file q w) (sys.exists p w) _ _
              (λ _. laws.remove_other p q w ne) (λ _. refl))

  prepare-other :
      (l : Language) (q : Bytes) (w : W)
      → sys.load_file q (prepare sys l (generator_schema sys c) w) ≡ sys.load_file q w
  unfolding prepare
  prepare-other cpp q w = refl
  prepare-other go q w = laws.create_other _ q w
  prepare-other python q w = laws.create_other _ q w
  prepare-other unset q w = refl
  prepare-other all q w = refl

  ran :
      (l : Language) (w w' : W) (x : Status)
      → run_generator sys crc32 fuel l c w ≡ some (x, w')
      → (t : Bytes) × (contents crc32 fuel l (generator_schema sys c) ≡ some t)
        × (save_conents_to_file sys (name_at sys c l) t (prepare sys l (generator_schema sys c) w)
            ≡ (x, w'))
  unfolding run_generator name_at
  ran l w w' x done = elim (Option-cases (contents crc32 fuel l (generator_schema sys c))) [
    | inl endless ↦ absurd (cc (endless, done))
    | inr (t, e) ↦ (t, e, cc)
  ]

  run-saves :
      (l : Language) (w w' : W)
      → run_generator sys crc32 fuel l c w ≡ some (none, w')
      → IsSaved sys crc32 fuel c w' l
  unfolding name_at
  run-saves l w w' done =
      let (t, e, saved) = ran l w w' none done in (t, e, save-load (name_at sys c l) t _ w' saved)

  run-keeps :
      (k l : Language) (w w' : W)
      → has_generator k ≡ true
      → has_generator l ≡ true
      → run_generator sys crc32 fuel k c w ≡ some (none, w')
      → IsSaved sys crc32 fuel c w l
      → IsSaved sys crc32 fuel c w' l
  unfolding name_at
  run-keeps k l w w' a b done (t, e, at) = elim (language_cases k l a b) [
    | inl same ↦ run-saves l w w' (ap (λ j. run_generator sys crc32 fuel j c w) (sym same) ∙ done)
    | inr ne ↦
        let (u, _, saved) = ran k w w' none done in
        (
          t,
          e,
          save-other (name_at sys c k) (name_at sys c l) u _ w' none
                (outputs_differ k l c.output_dir (generator_schema sys c) a b ne) saved
              ∙ (prepare-other k (name_at sys c l) w ∙ at),
        )
  ]

  after_run :
      (k : Language) (ls : List Language) (w w' : W)
      → has_generator k ≡ true
      → gen_all sys crc32 fuel (k ∷ ls) c w ≡ some (none, w')
      → (w1 : W) × (run_generator sys crc32 fuel k c w ≡ some (none, w1))
        × (gen_all sys crc32 fuel ls c w1 ≡ some (none, w'))
  after_run k ls w w' runs done =
      unless_failed_done (run_generator sys crc32 fuel k c w) (gen_all sys crc32 fuel ls c)
        (sym (gen_all-run sys crc32 fuel c k ls w runs) ∙ done)

  gen_all-keeps :
      (ls : List Language) (l : Language) (w w' : W)
      → has_generator l ≡ true
      → gen_all sys crc32 fuel ls c w ≡ some (none, w')
      → IsSaved sys crc32 fuel c w l
      → IsSaved sys crc32 fuel c w' l
  unfolding gen_all
  gen_all-keeps [] l w w' b done at =
      let same : w ≡ w' = cc in subst (λ v. IsSaved sys crc32 fuel c v l) same at
  gen_all-keeps (k ∷ ls) l w w' b done at = elim (Bool-cases (has_generator k)) [
    | inl runs ↦
        let (w1, first, rest) = after_run k ls w w' runs done in
        gen_all-keeps ls l w1 w' b rest (run-keeps k l w w1 runs b first at)
    | inr skips ↦
        gen_all-keeps ls l w w' b (sym (gen_all-skip sys crc32 fuel c k ls w skips) ∙ done) at
  ]

  -- When the loop over the languages ends without an error, the output file of each of them that has
  -- a generator holds what that generator prints for the schema, also where a language comes twice
  -- and whatever files there were before.
  pub gen_all_saves :
      (ls : List Language) (w w' : W)
      → gen_all sys crc32 fuel ls c w ≡ some (none, w')
      → AllSaved sys crc32 fuel c w' ls
  gen_all_saves [] w w' done = tt
  gen_all_saves (k ∷ ls) w w' done = elim (Bool-cases (has_generator k)) [
    | inl runs ↦
        let (w1, first, rest) = after_run k ls w w' runs done in
        (
          λ _. gen_all-keeps ls k w1 w' runs rest (run-saves k w w1 first),
          gen_all_saves ls w1 w' rest,
        )
    | inr skips ↦ (
      λ runs. absurd (cc (skips, runs)),
      gen_all_saves ls w w' (sym (gen_all-skip sys crc32 fuel c k ls w skips) ∙ done),
    )
  ]
