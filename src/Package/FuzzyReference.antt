-- ===== src/Package/FuzzyReference.antt =====
-- package/fuzzy_reference.h and fuzzy_reference.cpp
pub mod Match
pub mod RoundTrip
use linyaps.Prelude.{
  ℕ, Bool, true, false, not, ◌&&◌, ◌||◌, Option, none, some, List, [], ◌∷◌, ◌++◌, Text, codes,
  text_eq, is_empty, if◌then◌else◌,
}
use linyaps.Error.{
  Result, ok, err, ◌>>=◌, or_fail, invalid_fuzzy_reference, empty_channel, empty_id,
}
use linyaps.Package.Architecture
use linyaps.Package.Architecture.{Architecture}
use linyaps.Package.FuzzyReference.Match.{Captured, match_whole}

pub record FuzzyReference : Type 0 where
  pub channel : Option Text
  pub id : Text
  pub version : Option Text
  pub arch : Option Architecture

-- `channel && channel->isEmpty()`
empty_given : Option Text → Bool
empty_given none = false
empty_given (some t) = is_empty t

-- The constructor, whose exceptions `create` hands on as errors.
unfoldable pub create :
    Option Text → Text → Option Text → Option Architecture → Result FuzzyReference
unfolding empty_given
create channel id version arch =
    if empty_given channel
    then err empty_channel
    else if is_empty id
    then err empty_id
    else ok (record { channel = channel; id = id; version = version; arch = arch })

-- A captured text counts unless it is empty or says `unknown`.
unfoldable pub given : Text → Option Text
given t = if is_empty t || text_eq t (codes "unknown") then none else some t

parse_arch : Option Text → Result (Option Architecture)
parse_arch none = ok none
parse_arch (some t) = do a ← Architecture.parse t; ok (some a)

unfoldable pub parse : Text → Result FuzzyReference
unfolding create given parse_arch
parse raw = do
  matches ← or_fail invalid_fuzzy_reference (match_whole raw)
  architecture ← parse_arch (given matches.architecture)
  create (given matches.channel) matches.id (given matches.version) architecture

or_unknown : Option Text → Text
or_unknown none = codes "unknown"
or_unknown (some t) = t

arch_or_unknown : Option Architecture → Text
arch_or_unknown none = codes "unknown"
arch_or_unknown (some a) = Architecture.to_string a

unfoldable pub to_string : FuzzyReference → Text
unfolding or_unknown arch_or_unknown
to_string f =
    or_unknown f.channel
    ++ (b':' ∷ (f.id ++ (b'/' ∷ (or_unknown f.version ++ (b'/' ∷ arch_or_unknown f.arch)))))
