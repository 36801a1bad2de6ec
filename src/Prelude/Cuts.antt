-- ===== src/Prelude/Cuts.antt =====
-- What `SplitN` finds, as an equation of texts.

use Prim.Native.Char.{Char, code}
use Prim.Native.String.{String, [] as empty, ◌∷◌}
use Prim.Native.String.append
use mathlib.Core.Path.{◌≡◌, refl, sym, ap, ◌∙◌}
use mathlib.Core.Logic.{inl, inr}
use mathlib.Core.Option.{some}
use native.Mathlib.Omega.{arith}
use text.Mathlib.TextEquality.{Char-path}
use modular_monolith.Prelude.Tests.{nat_beq, Bool-cases, Option-cases}
use modular_monolith.Prelude.Text.{cut_at, joined}

joined_empty : (t : String) → joined "" t ≡ t
joined_empty t = append.nil t

joined_cons : (c : Char) (s t : String) → joined (c ∷ s) t ≡ c ∷ joined s t
joined_cons c s t = append.cons c s t

-- The parts of a text that was cut, with the character between them.
pub cut_at-parts :
    (c : Char) (s a b : String) → cut_at (code c) s ≡ some (a, b) → s ≡ joined a (c ∷ b)
unfolding cut_at
cut_at-parts c empty a b h = absurd (ground (arith, h))
cut_at-parts c (d ∷ s) a b h = elim (Bool-cases (nat_beq (code d) (code c))) [
  | inl here ↦
      let same : d ≡ c = Char-path d c (ground (arith, here)) in
      let first : a ≡ "" = ground (arith, here, h) in
      let rest : b ≡ s = ground (arith, here, h) in
      rw (same, rest, first) (sym (joined_empty (c ∷ s)))
  | inr other ↦ elim (Option-cases (cut_at (code c) s)) [
    | inl uncut ↦ absurd (ground (arith, other, uncut, h))
    | inr (x, found) ↦
        let first : a ≡ d ∷ x.0 = ground (arith, other, found, h) in
        let rest : b ≡ x.1 = ground (arith, other, found, h) in
        rw (first, rest)
          (ap (λ (t : String). d ∷ t) (cut_at-parts c s x.0 x.1 found)
            ∙ sym (joined_cons d x.0 (c ∷ x.1)))
  ]
]

pub cut_at_v1 : (e : String) → cut_at b',' (joined "v1," e) ≡ some ("v1", e)
unfolding cut_at
cut_at_v1 e =
    ap (cut_at b',') (
      joined_cons "v" "1," e
      ∙ ap (λ (t : String). "v" ∷ t)
          (joined_cons "1" "," e
            ∙ ap (λ (t : String). "1" ∷ t)
                (joined_cons "," "" e ∙ ap (λ (t : String). "," ∷ t) (joined_empty e))))
    ∙ refl

pub joined_comma : (e : String) → joined "v1" ("," ∷ e) ≡ joined "v1," e
joined_comma e =
    joined_cons "v" "1" ("," ∷ e)
    ∙ ap (λ (t : String). "v" ∷ t)
        (joined_cons "1" "" ("," ∷ e) ∙ ap (λ (t : String). "1" ∷ t) (joined_empty ("," ∷ e)))
    ∙ sym (
        joined_cons "v" "1," e
        ∙ ap (λ (t : String). "v" ∷ t)
            (joined_cons "1" "," e
              ∙ ap (λ (t : String). "1" ∷ t)
                  (joined_cons "," "" e ∙ ap (λ (t : String). "," ∷ t) (joined_empty e))))
