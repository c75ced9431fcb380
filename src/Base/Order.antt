-- ===== src/Base/Order.antt =====
-- The strict order of texts, by code points.
use Prim.Native.String
use Prim.Native.String.{String, then}
use Prim.Native.Char
use Prim.Native.Nat.{ℕ, Ordering, compare}
use mathlib.Core.Path.{◌≡◌, sym, ap, ◌∙◌}
use mathlib.Core.Bool.{Bool, true, false, false≢true}
use text.Mathlib.Text.{is_lt, is_eq, ◌==◌}
use native.Mathlib.Omega.{arith}

abbrev pub text_lt : String → String → Bool
text_lt a b = is_lt (String.compare a b)

asym-codes :
    (m n : ℕ) (r s : Ordering)
    → (is_lt r ≡ true → is_lt s ≡ false)
    → is_lt (then (compare m n) r) ≡ true
    → is_lt (then (compare n m) s) ≡ false
asym-codes m n r s later h = ground arith

pub text_lt-asym : (a b : String) → text_lt a b ≡ true → text_lt b a ≡ false
text_lt-asym String.[] String.[] h = absurd (false≢true (ap is_lt (sym String.compare.nil-nil) ∙ h))
text_lt-asym String.[] (String.◌∷◌ d t) h = ap is_lt (String.compare.cons-nil d t)
text_lt-asym (String.◌∷◌ c s) String.[] h =
    absurd (false≢true (ap is_lt (sym (String.compare.cons-nil c s)) ∙ h))
text_lt-asym (String.◌∷◌ c s) (String.◌∷◌ d t) h =
    ap is_lt (String.compare.cons-cons d c t s)
    ∙ asym-codes (Char.code c) (Char.code d) (String.compare s t) (String.compare t s)
        (text_lt-asym s t) (ap is_lt (sym (String.compare.cons-cons c d s t)) ∙ h)

trans-codes :
    (m n k : ℕ) (r s u : Ordering)
    → (is_lt r ≡ true → is_lt s ≡ true → is_lt u ≡ true)
    → is_lt (then (compare m n) r) ≡ true
    → is_lt (then (compare n k) s) ≡ true
    → is_lt (then (compare m k) u) ≡ true
trans-codes m n k r s u later h h' = ground arith

pub text_lt_trans : (a b c : String) → text_lt a b ≡ true → text_lt b c ≡ true → text_lt a c ≡ true
text_lt_trans String.[] String.[] c h k =
    absurd (false≢true (ap is_lt (sym String.compare.nil-nil) ∙ h))
text_lt_trans String.[] (String.◌∷◌ y b) String.[] h k =
    absurd (false≢true (ap is_lt (sym (String.compare.cons-nil y b)) ∙ k))
text_lt_trans String.[] (String.◌∷◌ y b) (String.◌∷◌ z c) h k =
    ap is_lt (String.compare.nil-cons z c)
text_lt_trans (String.◌∷◌ x a) String.[] c h k =
    absurd (false≢true (ap is_lt (sym (String.compare.cons-nil x a)) ∙ h))
text_lt_trans (String.◌∷◌ x a) (String.◌∷◌ y b) String.[] h k =
    absurd (false≢true (ap is_lt (sym (String.compare.cons-nil y b)) ∙ k))
text_lt_trans (String.◌∷◌ x a) (String.◌∷◌ y b) (String.◌∷◌ z c) h k =
    ap is_lt (String.compare.cons-cons x z a c)
    ∙ trans-codes (Char.code x) (Char.code y) (Char.code z) (String.compare a b)
        (String.compare b c) (String.compare a c) (text_lt_trans a b c)
        (ap is_lt (sym (String.compare.cons-cons x y a b)) ∙ h)
        (ap is_lt (sym (String.compare.cons-cons y z b c)) ∙ k)

apart-codes :
    (m n : ℕ) (r s : Ordering)
    → (is_eq r ≡ false → is_lt r ≡ false → is_lt s ≡ true)
    → is_eq (then (compare m n) r) ≡ false
    → is_lt (then (compare m n) r) ≡ false
    → is_lt (then (compare n m) s) ≡ true
apart-codes m n r s later h h' = ground arith

-- Of two different texts one comes first.
pub text_lt-total : (a b : String) → (a == b) ≡ false → text_lt a b ≡ false → text_lt b a ≡ true
text_lt-total String.[] String.[] e h =
    absurd (false≢true (sym e ∙ ap is_eq String.compare.nil-nil))
text_lt-total String.[] (String.◌∷◌ d t) e h =
    absurd (false≢true (sym h ∙ ap is_lt (String.compare.nil-cons d t)))
text_lt-total (String.◌∷◌ c s) String.[] e h = ap is_lt (String.compare.nil-cons c s)
text_lt-total (String.◌∷◌ c s) (String.◌∷◌ d t) e h =
    ap is_lt (String.compare.cons-cons d c t s)
    ∙ apart-codes (Char.code c) (Char.code d) (String.compare s t) (String.compare t s)
        (text_lt-total s t) (ap is_eq (sym (String.compare.cons-cons c d s t)) ∙ e)
        (ap is_lt (sym (String.compare.cons-cons c d s t)) ∙ h)
