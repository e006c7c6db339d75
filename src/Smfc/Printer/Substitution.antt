-- ===== src/Smfc/Printer/Substitution.antt =====
-- When the loop of print comes to an end.
use smurf.Prelude.{
  ◌*◌, inl, inr, ℕ, zero, suc, ◌+◌, ◌≡◌, ◌<◌, refl, sym, ap, ◌∙◌, none, some, [], ◌∷◌, ◌++◌, Bytes,
  arith, Option-cases, ◌==◌, if◌then◌else◌,
}
use mathlib.Core.List.{append_assoc}
use smurf.Smfc.Printer.{Vars, find, cut, escape_char, replace_first, substitute}

-- How many escape characters a text has.
unfoldable pub escapes : Bytes → ℕ
escapes [] = 0
escapes (c ∷ s) = let n = escapes s in if c == escape_char then n + 1 else n

pub escapes-append : (a b : Bytes) → escapes (a ++ b) ≡ escapes a + escapes b
unfolding escapes
escapes-append [] b = omega arith
escapes-append (c ∷ a) b = ground (arith, escapes-append a b)

escapes-cut :
    (s before after : Bytes)
    → cut s ≡ some (before, after)
    → (escapes before ≡ 0) × (escapes s ≡ 1 + escapes after)
unfolding escapes cut
escapes-cut [] before after e = ground arith
escapes-cut (c ∷ s) before after e = elim (Option-cases (cut s)) [
  | inl n ↦ ground arith
  | inr ((b, a), h) ↦ let (x, y) = escapes-cut s b a h in ground arith
]

-- Values without an escape character, as the names of a schema are.
unfoldable pub IsPlain : Vars → Type 0
IsPlain vars = (key value : Bytes) → find key vars ≡ some value → escapes value ≡ 0

escapes-replace_first :
    (vars : Vars) (s s' : Bytes)
    → IsPlain vars
    → replace_first vars s ≡ some s'
    → escapes s ≡ 2 + escapes s'
unfolding replace_first IsPlain
escapes-replace_first vars s s' plain e = elim (Option-cases (cut s)) [
  | inl n ↦ ground arith
  | inr ((before, rest), h) ↦ elim (Option-cases (cut rest)) [
    | inl n ↦ ground arith
    | inr ((name, after), k) ↦ elim (Option-cases (find name vars)) [
      | inl n ↦ ground arith
      | inr (value, v) ↦ ground (
        arith,
        escapes-cut s before rest h,
        escapes-cut rest name after k,
        plain name value v,
        escapes-append before (value ++ after),
        escapes-append value after,
      )
    ]
  ]
]

-- Where no value has an escape character, `print` ends after at most one round for each pair of
-- them in the template, and one that finds no more.
pub substitute_ends :
    (fuel : ℕ) (vars : Vars) (s : Bytes)
    → IsPlain vars
    → escapes s < 2 * fuel
    → (s' : Bytes) × (substitute fuel vars s ≡ some s')
unfolding substitute
substitute_ends zero vars s plain h = absurd (omega arith)
substitute_ends (suc fuel) vars s plain h = elim (Option-cases (replace_first vars s)) [
  | inl n ↦ (s, rw (n, substitute))
  | inr (s', e) ↦
      let (t, x) =
        substitute_ends fuel vars s' plain
          (omega (arith, escapes-replace_first vars s s' plain e)) in
      (t, rw (e, substitute) x)
]

cut-plain : (s rest : Bytes) → escapes s ≡ 0 → cut (s ++ (escape_char ∷ rest)) ≡ some (s, rest)
unfolding escapes cut
cut-plain [] rest plain = refl
cut-plain (c ∷ s) rest plain = ground (arith, cut-plain s rest)

-- The placeholder of a key, before some text
abbrev pub placeholder : Bytes → Bytes → Bytes
placeholder key rest = escape_char ∷ (key ++ (escape_char ∷ rest))

replace_first-placeholder :
    (vars : Vars) (key value before after : Bytes)
    → escapes key ≡ 0
    → escapes before ≡ 0
    → find key vars ≡ some value
    → replace_first vars (before ++ placeholder key after) ≡ some (before ++ (value ++ after))
unfolding replace_first
replace_first-placeholder vars key value before after plain_key plain_before known =
    rw
      (
        cut-plain before (key ++ (escape_char ∷ after)) plain_before,
        cut-plain key after plain_key,
        known,
      )
      refl

-- The text after a round, before the same placeholder
once_more :
    (key p q before after : Bytes)
    → before ++ ((p ++ placeholder key q) ++ after) ≡ (before ++ p) ++ placeholder key (q ++ after)
once_more key p q before after =
    ap (◌++◌ before) (
      append_assoc p (placeholder key q) after
      ∙ ap (λ r. p ++ (escape_char ∷ r)) (append_assoc key (escape_char ∷ q) after))
    ∙ sym (append_assoc before p (placeholder key (q ++ after)))

-- If the value of a key holds the placeholder of that key, with no escape character before it, a
-- text whose first placeholder is that one is expanded for ever: no fuel is enough.
pub substitute_loops :
    (fuel : ℕ) (vars : Vars) (key p q before after : Bytes)
    → escapes key ≡ 0
    → escapes p ≡ 0
    → escapes before ≡ 0
    → find key vars ≡ some (p ++ placeholder key q)
    → substitute fuel vars (before ++ placeholder key after) ≡ none
unfolding substitute
substitute_loops zero vars key p q before after a b c known = refl
substitute_loops (suc fuel) vars key p q before after a b c known =
    let round =
      replace_first-placeholder vars key (p ++ placeholder key q) before after a c known in
    let plain = escapes-append before p in
    rw (round, substitute)
      (ap (substitute fuel vars) (once_more key p q before after)
        ∙ substitute_loops fuel vars key p q (before ++ p) (q ++ after) a b (omega (arith, plain))
            known)
