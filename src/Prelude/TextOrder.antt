-- ===== src/Prelude/TextOrder.antt =====
-- The order of texts by the numbers of their characters, which is `<` of Python's `str`.
use Prim.Native.Nat.{Ordering, compare}
use Prim.Native.Char.{code}
use Prim.Native.String.{String, [], ◌∷◌}
use mathlib.Core.Path.{◌≡◌, refl, ap₂}
use mathlib.Core.Bool.{Bool, true, false, not}
use mathlib.Core.Logic.{inl, inr}
use autonomous_procurement_s.Prelude.Tests.{Bool-cases}
use native.Mathlib.Omega.{arith}
use text.Mathlib.TextEquality.{Char-path}

unfoldable pub text_before : String → String → Bool
text_before [] [] = false
text_before [] (d ∷ t) = true
text_before (c ∷ s) [] = false
text_before (c ∷ s) (d ∷ t) =
    let rest = text_before s t in
    elim (compare (code c) (code d)) [
      | Ordering.lt ↦ true
      | Ordering.eq ↦ rest
      | Ordering.gt ↦ false
    ]

pub text_before_irrefl : (a : String) → text_before a a ≡ false
unfolding text_before
text_before_irrefl [] = refl
text_before_irrefl (c ∷ s) = ground (arith, text_before_irrefl s)

pub text_before_trans :
    (a b c : String) → text_before a b ≡ true → text_before b c ≡ true → text_before a c ≡ true
unfolding text_before
text_before_trans [] [] c h k = k
text_before_trans [] (d ∷ t) [] h k = k
text_before_trans [] (d ∷ t) (e ∷ u) h k = refl
text_before_trans (c ∷ s) [] u h k = ground arith
text_before_trans (c ∷ s) (d ∷ t) [] h k = k
text_before_trans (c ∷ s) (d ∷ t) (e ∷ u) h k = ground (arith, text_before_trans s t u)

pub text_before-total : (a b : String) → text_before a b ≡ false → text_before b a ≡ false → a ≡ b
unfolding text_before
text_before-total [] [] h k = refl
text_before-total [] (d ∷ t) h k = ground arith
text_before-total (c ∷ s) [] h k = ground arith
text_before-total (c ∷ s) (d ∷ t) h k =
    ap₂ ◌∷◌ (Char-path c d (ground arith)) (text_before-total s t (ground arith) (ground arith))

-- `not (b < a)`, which is `a <= b`
pub not_before-total : (a b : String) → not (text_before b a) ≡ false → not (text_before a b) ≡ true
not_before-total a b p = elim (Bool-cases (text_before a b)) [
  | inl q ↦
      let r : text_before b a ≡ true = ground arith in
      let both : text_before a a ≡ true = text_before_trans a b a q r in
      ground (arith, text_before_irrefl a)
  | inr q ↦ rw q refl
]

pub not_before_trans :
    (a b c : String)
    → not (text_before b a) ≡ true
    → not (text_before c b) ≡ true
    → not (text_before c a) ≡ true
not_before_trans a b c p q = elim (Bool-cases (text_before a b)) [
  | inl r ↦ elim (Bool-cases (text_before c a)) [
    | inl s ↦ let t : text_before c b ≡ true = text_before_trans c a b s r in ground arith
    | inr s ↦ rw s refl
  ]
  | inr r ↦ let e : a ≡ b = text_before-total a b r (ground arith) in rw e q
]
