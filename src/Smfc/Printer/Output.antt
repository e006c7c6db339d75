-- ===== src/Smfc/Printer/Output.antt =====
-- What src/smfc/smf_printer.h does with the calls of a generator.
use smurf.Prelude.{
  ℕ, zero, suc, ◌+◌, ◌*◌, ◌<◌, ◌≡◌, ◌∙◌, refl, ap, subst, ◌⊎◌, inl, inr, ◌>>=◌, some, List, [], ◌∷◌,
  Bytes, arith, if_both, not, ◌&&◌, ◌==◌,
}
use smurf.Smfc.Printer.{
  Printer, Call, print, print_raw, indent, outdent, perform, perform_all, print_text, print_rest,
  insert_indentation, is_end, outdented,
}
use smurf.Smfc.Printer.Substitution.{IsPlain, escapes, substitute_ends}
use smurf.Smfc.Printer.Depth.{depth_all, IsLevel}

-- Calls whose values have no escape character, and whose templates have fewer pairs of them than
-- the fuel.
abbrev pub AllPlain : ℕ → List Call → Type 0
AllPlain fuel [] = Unit {0}
AllPlain fuel (print vars s ∷ calls) = (IsPlain vars × (escapes s < 2 * fuel)) × AllPlain fuel calls
AllPlain fuel (_ ∷ calls) = AllPlain fuel calls

print_rest-indentation : (s : Bytes) (p : Printer) → (print_rest s p).indentation ≡ p.indentation
unfolding print_rest insert_indentation
print_rest-indentation [] p = refl
print_rest-indentation (c ∷ s) p =
    print_rest-indentation s _
    ∙ if_both (λ (q : Printer). q.indentation ≡ p.indentation) ((c == 10) && not (is_end s)) _ _
        (λ e. refl) (λ e. refl)

print_text-indentation : (s : Bytes) (p : Printer) → (print_text s p).indentation ≡ p.indentation
unfolding print_text insert_indentation
print_text-indentation s p = print_rest-indentation s _

level_cases : (n : ℕ) → (n ≡ 0) ⊎ ((k : ℕ) × (n ≡ suc k))
level_cases zero = inl refl
level_cases (suc k) = inr (k, refl)

outdent_done :
    (fuel : ℕ) (calls : List Call) (p p' : Printer) (n : ℕ)
    → p.indentation ≡ suc n
    → perform_all fuel calls (record p { indentation = n }) ≡ some p'
    → perform_all fuel (outdent ∷ calls) p ≡ some p'
unfolding perform_all
outdent_done fuel calls p p' n open_one done =
    ap (λ k. outdented k p >>= perform_all fuel calls) open_one ∙ done

-- The calls are performed whenever `depth_all` follows them.
performed :
    (fuel : ℕ) (calls : List Call) (m : ℕ) (p : Printer)
    → AllPlain fuel calls
    → depth_all calls p.indentation ≡ some m
    → (p' : Printer) × (perform_all fuel calls p ≡ some p') × (p'.indentation ≡ m)
unfolding perform_all depth_all
performed fuel [] m p plain e = (p, refl, ground arith)
performed fuel (print vars s ∷ calls) m p plain e =
    let (s', filled) = substitute_ends fuel vars s plain.0.0 plain.0.1 in
    let (p', done, level) =
      performed fuel calls m (print_text s' p) plain.1 (rw (print_text-indentation s' p) e) in
    (p', rw (filled, perform) done, level)
performed fuel (print_raw s ∷ calls) m p plain e =
    performed fuel calls m (print_text s p) plain (rw (print_text-indentation s p) e)
performed fuel (indent ∷ calls) m p plain e =
    performed fuel calls m (record p { indentation = p.indentation + 1 }) plain
      (subst (λ n. depth_all calls n ≡ some m) (omega arith) e)
performed fuel (outdent ∷ calls) m p plain e = elim (level_cases p.indentation) [
  | inl none_open ↦
      absurd (ground (arith, subst (λ n. depth_all (outdent ∷ calls) n ≡ some m) none_open e))
  | inr (n, open_one) ↦
      let (p', done, level) =
        performed fuel calls m (record p { indentation = n }) plain
          (subst (λ k. depth_all (outdent ∷ calls) k ≡ some m) open_one e) in
      (p', outdent_done fuel calls p p' n open_one done, level)
]

-- Calls that leave the indentation level, whose values have no escape character and whose templates
-- have fewer pairs of them than the fuel, are performed to the end: no assertion fails, and the
-- printer has the indentation that it had.
pub level_is_printed :
    (fuel : ℕ) (calls : List Call) (p : Printer)
    → IsLevel calls
    → AllPlain fuel calls
    → (p' : Printer) × (perform_all fuel calls p ≡ some p') × (p'.indentation ≡ p.indentation)
level_is_printed fuel calls p level plain =
    performed fuel calls p.indentation p plain (level.keeps p.indentation)
