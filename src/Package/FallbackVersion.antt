-- ===== src/Package/FallbackVersion.antt =====
-- package/fallback_version.h and fallback_version.cpp: versions that are lists of parts.
pub mod Parts
pub mod Compare
use linyaps.Prelude.{
  ℕ, zero, suc, ◌+◌, ◌-◌, ltb, ◌==◌, Bool, true, false, not, ◌&&◌, ◌||◌, Option, none, some, List,
  [], ◌∷◌, ◌++◌, Text, text_eq, length, is_empty, if◌then◌else◌, ℤ, pos, negsuc, ◌-ℤ◌, int_eq,
  wrap_int, is_negative, is_positive, is_zero, pos_part, neg_part,
}
use linyaps.Error.{Result, ok, err, parse_fallback_failed}
use linyaps.Qt.{Qt}

pub record FallbackVersion : Type 0 where
  pub list : List Text

unfoldable pub parse : Qt → Text → Result FallbackVersion
parse qt raw =
    let list = qt.split raw b'.' in
    if is_empty list then err parse_fallback_failed else ok (record { list = list })

-- The loop of `semanticMatch` over the parts of the fuzzy version, at most as many as `list` has.
unfoldable pub starts_with_parts : List Text → List Text → Bool
starts_with_parts list [] = true
starts_with_parts [] (p ∷ parts) = false
starts_with_parts (l ∷ list) (p ∷ parts) =
    if not (text_eq l p) then false else starts_with_parts list parts

unfoldable pub semantic_match : Qt → FallbackVersion → Text → Bool
unfolding starts_with_parts
semantic_match qt v version_str =
    let parts = qt.split version_str b'.' in
    if is_empty parts || ltb (length v.list) (length parts)
    then false
    else starts_with_parts v.list parts

unfoldable pub to_string : Qt → FallbackVersion → Text
to_string qt v = qt.join v.list b'.'

-- `operator==` of two `QStringList`.
unfoldable pub list_eq : List Text → List Text → Bool
list_eq [] [] = true
list_eq [] (q ∷ qs) = false
list_eq (p ∷ ps) [] = false
list_eq (p ∷ ps) (q ∷ qs) = text_eq p q && list_eq ps qs

-- `QStringList::value(i, "")`
abbrev pub part_at : List Text → ℕ → Text
part_at [] i = []
part_at (p ∷ ps) zero = p
part_at (p ∷ ps) (suc i) = part_at ps i

-- The body of the loop of `compare`: what it returns, or `none` to go on. A difference of two `int`
-- that no `int` holds is undefined in C++, and is taken to wrap around.
unfoldable pub compare_numbers : ℤ → ℤ → Option ℤ
compare_numbers a b = if not (int_eq a b) then some (wrap_int (a -ℤ b)) else none

unfoldable pub compare_texts : Qt → Text → Text → Option ℤ
compare_texts qt s t = if not (text_eq s t) then some (qt.compare s t) else none

compare_read : Qt → Text → Text → Option ℤ → Option ℤ → Option ℤ
unfolding compare_numbers compare_texts
compare_read qt s t (some a) (some b) = compare_numbers a b
compare_read qt s t a b = compare_texts qt s t

unfoldable pub compare_parts : Qt → Text → Text → Option ℤ
unfolding compare_read
compare_parts qt s t = compare_read qt s t (qt.to_int s) (qt.to_int t)

abbrev pub or_else : Option ℤ → ℤ → ℤ
or_else (some r) rest = r
or_else none rest = rest

-- The loop, with `n` rounds left.
unfoldable pub compare_loop : Qt → ℕ → ℕ → List Text → List Text → ℤ
compare_loop qt zero i xs ys = pos 0
compare_loop qt (suc n) i xs ys =
    let rest = compare_loop qt n (suc i) xs ys in
    or_else (compare_parts qt (part_at xs i) (part_at ys i)) rest

abbrev pub max_length : List Text → List Text → ℕ
max_length xs ys = if ltb (length xs) (length ys) then length ys else length xs

unfoldable pub compare : Qt → FallbackVersion → FallbackVersion → ℤ
unfolding compare_loop
compare qt v w = compare_loop qt (max_length v.list w.list) 0 v.list w.list

unfoldable pub eq : FallbackVersion → FallbackVersion → Bool
unfolding list_eq
eq v w = list_eq v.list w.list

unfoldable pub ne : FallbackVersion → FallbackVersion → Bool
unfolding eq
ne v w = not (eq v w)

unfoldable pub gt : Qt → FallbackVersion → FallbackVersion → Bool
unfolding compare
gt qt v w = is_positive (compare qt v w)

unfoldable pub lt : Qt → FallbackVersion → FallbackVersion → Bool
unfolding compare
lt qt v w = is_negative (compare qt v w)

unfoldable pub ge : Qt → FallbackVersion → FallbackVersion → Bool
unfolding eq gt
ge qt v w = eq v w || gt qt v w

unfoldable pub le : Qt → FallbackVersion → FallbackVersion → Bool
unfolding eq lt
le qt v w = eq v w || lt qt v w

compare_parsed : Qt → FallbackVersion → Result FallbackVersion → ℤ
compare_parsed qt v (err e) = pos 0
compare_parsed qt v (ok other) = compare qt v other

unfoldable pub compare_with_other_version : Qt → FallbackVersion → Text → ℤ
unfolding compare_parsed parse
compare_with_other_version qt v raw = compare_parsed qt v (parse qt raw)
