-- ===== src/Utils/Strings.antt =====
-- libs/utils/src/linglong/utils/strings.h
pub mod Split
pub mod Replace
use linyaps.Prelude.{
  ℕ, zero, suc, Bool, ◌||◌, true, false, not, ◌&&◌, List, [], ◌∷◌, ◌++◌, Text, text_eq, ◌==◌,
  is_empty, length, take, drop, ltb, leb, ◌-◌, ◌+◌, if◌then◌else◌,
}

-- The loop of `splitString` over the rest of the text, with `result` and `token` so far.
unfoldable pub split_loop : ℕ → List Text → Text → Text → List Text
split_loop d result token [] = if is_empty token then result else result ++ token ∷ []
split_loop d result token (ch ∷ rest) =
    split_loop d (if ch == d && not (is_empty token) then result ++ token ∷ [] else result)
      (if ch == d then [] else token ++ ch ∷ []) rest

unfoldable pub split_string : Text → ℕ → List Text
unfolding split_loop
split_string str delimiter = split_loop delimiter [] [] str

-- The parts with the delimiter between them.
unfoldable pub join : ℕ → List Text → Text
join d [] = []
join d (p ∷ []) = p
join d (p ∷ q ∷ ps) = p ++ d ∷ join d (q ∷ ps)

unfoldable pub has_prefix : Text → Text → Bool
has_prefix str prefix =
    if ltb (length str) (length prefix) then false else text_eq (take (length prefix) str) prefix

unfoldable pub has_suffix : Text → Text → Bool
has_suffix str suffix =
    if ltb (length str) (length suffix)
    then false
    else text_eq (drop (length str - length suffix) str) suffix

-- `tolower` in the C locale.
unfoldable pub to_lower : ℕ → ℕ
to_lower c = if leb b'A' c && leb c b'Z' then c + 32 else c

-- The lambda of `std::equal`, over both ranges at once.
unfoldable pub equal_lower : Text → Text → Bool
unfolding to_lower
equal_lower [] [] = true
equal_lower [] (y ∷ ys) = false
equal_lower (x ∷ xs) [] = false
equal_lower (x ∷ xs) (y ∷ ys) = to_lower x == to_lower y && equal_lower xs ys

unfoldable pub string_equal : Text → Text → Bool → Bool
unfolding equal_lower
string_equal str1 str2 case_sensitive =
    if case_sensitive then text_eq str1 str2 else equal_lower str1 str2

abbrev pub starts_with : Text → Text → Bool
starts_with [] str = true
starts_with (c ∷ cs) [] = false
starts_with (c ∷ cs) (d ∷ ds) = c == d && starts_with cs ds

-- The text from a place on, of which the first `skip` units are of a match.
unfoldable pub replace_from : Text → Text → ℕ → Text → Text
replace_from from to skip [] = []
replace_from from to zero (c ∷ cs) =
    let hit = starts_with from (c ∷ cs) in
    let rest = replace_from from to (if hit then length from - 1 else 0) cs in
    if hit then to ++ rest else c ∷ rest
replace_from from to (suc skip) (c ∷ cs) = replace_from from to skip cs

unfoldable pub replace_substring : Text → Text → Text → Text
unfolding replace_from
replace_substring str from to = if is_empty from then str else replace_from from to 0 str

-- `str.find(suffix) != npos`
unfoldable pub contains : Text → Text → Bool
contains [] suffix = is_empty suffix
contains (c ∷ cs) suffix = let later = contains cs suffix in starts_with suffix (c ∷ cs) || later
