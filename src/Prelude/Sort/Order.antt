-- ===== src/Prelude/Sort/Order.antt =====
-- The order of texts is a strict order of all of them.
use Prim.Native.String.{String, compare, then as then_by}
use Prim.Native.String.compare
use Prim.Native.Nat.{compare as compare_ℕ, Ordering}
use Prim.Native.Char.{Char, code}
use mathlib.Core.Path.{◌≡◌, refl, ◌∙◌, ap}
use mathlib.Core.Bool.{true, false, ◌&&◌, ◌||◌}
use native.Mathlib.Omega.{arith}
use text.Mathlib.Text.{◌==◌, is_lt}
use text.Mathlib.TextEquality.{eq_iff, Char-path}
use text.Mathlib.TextPositions.{compare_refl}
use alex_cachyos.Prelude.Sort.{text_less}
use alex_cachyos.Prelude.Tests.{ltb, beq_nat}

pub text_less_irrefl : (s : String) → text_less s s ≡ false
text_less_irrefl s = rw (compare_refl s)

-- The order goes by the first points that differ.
text_less_lem :
    (c d : Char) (s t : String)
    → text_less (String.◌∷◌ c s) (String.◌∷◌ d t)
      ≡ (ltb (code c) (code d) || beq_nat (code c) (code d) && text_less s t)
text_less_lem c d s t =
    ap is_lt (compare.cons-cons c d s t) ∙ by_codes (compare_ℕ (code c) (code d))
  where
    by_codes :
        (o : Ordering)
        → is_lt (then_by o (compare s t))
          ≡ (is_lt o || elim o [ Ordering.eq ↦ true | _ ↦ false ] && text_less s t)
    by_codes Ordering.lt = refl
    by_codes Ordering.eq = refl
    by_codes Ordering.gt = refl

text_less_nil : (c : Char) (s : String) → text_less String.[] (String.◌∷◌ c s) ≡ true
text_less_nil c s = ap is_lt (compare.nil-cons c s)

ne-text_less_nil : (s : String) → text_less s String.[] ≡ true → ⊥
ne-text_less_nil String.[] h = absurd (cc (h, text_less_irrefl String.[]))
ne-text_less_nil (String.◌∷◌ c s) h = absurd (cc (h, ap is_lt (compare.cons-nil c s)))

pub text_less_trans :
    (s t u : String) → text_less s t ≡ true → text_less t u ≡ true → text_less s u ≡ true
text_less_trans s String.[] u h k = absurd (ne-text_less_nil s h)
text_less_trans s (String.◌∷◌ d t) String.[] h k = absurd (ne-text_less_nil (String.◌∷◌ d t) k)
text_less_trans String.[] (String.◌∷◌ d t) (String.◌∷◌ e u) h k = text_less_nil e u
text_less_trans (String.◌∷◌ c s) (String.◌∷◌ d t) (String.◌∷◌ e u) h k = ground (
  arith,
  text_less_lem c d s t,
  text_less_lem d e t u,
  text_less_lem c e s u,
  text_less_trans s t u,
  h,
  k,
)

text_less_connex : (s t : String) → text_less s t ≡ false → text_less t s ≡ false → s ≡ t
text_less_connex String.[] String.[] h k = refl
text_less_connex String.[] (String.◌∷◌ d t) h k = absurd (cc (h, text_less_nil d t))
text_less_connex (String.◌∷◌ c s) String.[] h k = absurd (cc (k, text_less_nil c s))
text_less_connex (String.◌∷◌ c s) (String.◌∷◌ d t) h k =
    let here = text_less_lem c d s t in
    let there = text_less_lem d c t s in
    let c≡d = Char-path c d (ground (arith, here, there, h, k)) in
    let s≡t =
      text_less_connex s t (ground (arith, here, there, h, k))
        (ground (arith, here, there, h, k)) in
    λ i. String.◌∷◌ (c≡d i) (s≡t i)

pub text_less_flip :
    (x y : String) → text_less x y ≡ false → (y == x) ≡ false → text_less y x ≡ true
text_less_flip x y h apart = ground (arith, h, apart, eq_iff y x, text_less_connex x y)
