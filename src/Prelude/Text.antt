-- ===== src/Prelude/Text.antt =====
-- Texts: Python's `strip` and `upper` on ASCII, `str` of a number, and the order of texts.
use Prim.Native.Char.{code}
use Prim.Native.Nat.{ℕ, zero, suc, ◌+◌, ◌-◌, ◌/◌, ◌%◌}
use Prim.Native.String.{String, ◌++◌}
use mathlib.Core.Path.{◌≡◌, refl, ap₂}
use native.Mathlib.Omega.{arith}
use text.Mathlib.TextEquality.{Char-path}
use mathlib.Core.Bool.{Bool, true, false, ◌&&◌, ◌||◌}
use mathlib.Core.List.{List, [], ◌∷◌, map, reverse}
use df_fabric.Prelude.Tests.{leb, ltb, ◌==◌, if◌then◌else◌}

-- The code points of a text.
abbrev pub codes : String → List ℕ
codes String.[] = []
codes (String.◌∷◌ c s) = code c ∷ codes s

is_space : ℕ → Bool
is_space c = c == 32 || (leb 9 c && leb c 13) || (leb 28 c && leb c 31)

lstrip : List ℕ → List ℕ
unfolding is_space
lstrip [] = []
lstrip (c ∷ s) = let rest = lstrip s in if is_space c then rest else c ∷ s

-- `s.strip()`
unfoldable pub strip : List ℕ → List ℕ
unfolding lstrip
strip s = reverse (lstrip (reverse (lstrip s)))

-- `c.upper()` of an ASCII character
unfoldable pub upper : ℕ → ℕ
upper c = if leb 97 c && leb c 122 then c - 32 else c

digit : ℕ → String
digit n =
    if n == 0
    then "0"
    else if n == 1
    then "1"
    else if n == 2
    then "2"
    else if n == 3
    then "3"
    else if n == 4
    then "4"
    else if n == 5
    then "5"
    else if n == 6
    then "6"
    else if n == 7
    then "7"
    else if n == 8
    then "8"
    else "9"

-- A number below 10 ^ fuel is written out in full.
digits : ℕ → ℕ → String
unfolding digit
digits zero n = ""
digits (suc fuel) n =
    let rest = digits fuel (n / 10) in if ltb n 10 then digit n else rest ++ digit (n % 10)

-- `str(n)`; n < 10 ^ (n + 1)
unfoldable pub str : ℕ → String
unfolding digits
str n = digits (suc n) n

-- Equality of two lists of code points.
unfoldable pub codes_eq : List ℕ → List ℕ → Bool
codes_eq [] [] = true
codes_eq (a ∷ s) (b ∷ t) = a == b && codes_eq s t
codes_eq _ _ = false

codes_ltb : List ℕ → List ℕ → Bool
codes_ltb [] [] = false
codes_ltb [] (b ∷ t) = true
codes_ltb (a ∷ s) [] = false
codes_ltb (a ∷ s) (b ∷ t) = if a == b then codes_ltb s t else ltb a b

-- `s < t` of two texts, by code points
unfoldable pub text_ltb : String → String → Bool
unfolding codes_ltb
text_ltb s t = codes_ltb (codes s) (codes t)

codes_asymm : (s t : List ℕ) → codes_ltb s t ≡ true → codes_ltb t s ≡ false
unfolding codes_ltb
codes_asymm [] [] h = refl
codes_asymm [] (b ∷ t) h = refl
codes_asymm (a ∷ s) [] h = cc
codes_asymm (a ∷ s) (b ∷ t) h = ground (arith, codes_asymm s t)

codes_trans : (s t u : List ℕ) → codes_ltb s t ≡ true → codes_ltb t u ≡ true → codes_ltb s u ≡ true
unfolding codes_ltb
codes_trans [] [] u h k = cc
codes_trans [] (b ∷ t) [] h k = cc
codes_trans [] (b ∷ t) (c ∷ u) h k = refl
codes_trans (a ∷ s) [] u h k = cc
codes_trans (a ∷ s) (b ∷ t) [] h k = cc
codes_trans (a ∷ s) (b ∷ t) (c ∷ u) h k = ground (arith, codes_trans s t u)

codes_total : (s t : List ℕ) → codes_ltb s t ≡ false → codes_ltb t s ≡ false → s ≡ t
unfolding codes_ltb
codes_total [] [] h k = refl
codes_total [] (b ∷ t) h k = cc
codes_total (a ∷ s) [] h k = cc
codes_total (a ∷ s) (b ∷ t) h k = ground (arith, codes_total s t)

codes-injective : (s t : String) → codes s ≡ codes t → s ≡ t
codes-injective String.[] String.[] p = refl
codes-injective String.[] (String.◌∷◌ d t) p = cc
codes-injective (String.◌∷◌ c s) String.[] p = cc
codes-injective (String.◌∷◌ c s) (String.◌∷◌ d t) p =
    let h : code c ≡ code d = cc in
    let r : codes s ≡ codes t = cc in ap₂ String.◌∷◌ (Char-path c d h) (codes-injective s t r)

-- The order of texts is a strict total order.
pub text_asymm : (s t : String) → text_ltb s t ≡ true → text_ltb t s ≡ false
unfolding text_ltb
text_asymm s t = codes_asymm (codes s) (codes t)

pub text_trans : (s t u : String) → text_ltb s t ≡ true → text_ltb t u ≡ true → text_ltb s u ≡ true
unfolding text_ltb
text_trans s t u = codes_trans (codes s) (codes t) (codes u)

pub text_total : (s t : String) → text_ltb s t ≡ false → text_ltb t s ≡ false → s ≡ t
unfolding text_ltb
text_total s t h k = codes-injective s t (codes_total (codes s) (codes t) h k)

codes_between : (s t u : List ℕ) → codes_ltb s u ≡ true → (codes_ltb s t || codes_ltb t u) ≡ true
unfolding codes_ltb
codes_between [] [] u h = h
codes_between [] (b ∷ t) u h = refl
codes_between (a ∷ s) t [] h = cc
codes_between (a ∷ s) [] (c ∷ u) h = refl
codes_between (a ∷ s) (b ∷ t) (c ∷ u) h = ground (arith, codes_between s t u)

-- A text lies on one side of any two texts.
pub text_between : (s t u : String) → text_ltb s u ≡ true → (text_ltb s t || text_ltb t u) ≡ true
unfolding text_ltb
text_between s t u = codes_between (codes s) (codes t) (codes u)

insert_sorted : String → List String → List String
insert_sorted x [] = x ∷ []
insert_sorted x (y ∷ ys) =
    let rest = insert_sorted x ys in if text_ltb y x then y ∷ rest else x ∷ y ∷ ys

-- `sorted(...)` of texts
unfoldable pub sorted : List String → List String
unfolding insert_sorted
sorted [] = []
sorted (x ∷ xs) = insert_sorted x (sorted xs)

-- `not s.strip()`
unfoldable pub is_blank : String → Bool
unfolding strip
is_blank s = elim (strip (codes s)) [ [] ↦ true | c ∷ cs ↦ false ]

-- `c.lower()` of an ASCII character
lower_code : ℕ → ℕ
lower_code c = if leb 65 c && leb c 90 then c + 32 else c

-- `s.lower()`, by code points
unfoldable pub lower : String → List ℕ
unfolding lower_code
lower s = map lower_code (codes s)

-- `sep.join(parts)`
unfoldable pub join : String → List String → String
join sep [] = ""
join sep (s ∷ []) = s
join sep (s ∷ t ∷ ts) = s ++ (sep ++ join sep (t ∷ ts))

-- the parts of an f-string
unfoldable pub concat : List String → String
concat [] = ""
concat (s ∷ ss) = s ++ concat ss
