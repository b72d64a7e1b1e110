-- ===== src/Package/Architecture/Names.antt =====
-- The names of architectures.
use linyaps.Prelude.{◌≡◌, ◌≢◌, ◌↔◌, refl, Text, codes, text_eq, text_eq→eq, arith, true}
use linyaps.Error.{ok}
use linyaps.Package.Architecture.{Architecture, unknow, parse, to_std_string, to_string, arch_eq}

-- The deprecated `toString` gives what `toStdString` gives.
pub to_string-to_std_string : (a : Architecture) → to_string a ≡ to_std_string a
unfolding to_string to_std_string
to_string-to_std_string unknow = refl
to_string-to_std_string a = refl

parse-known : (a : Architecture) → a ≢ unknow → parse (to_std_string a) ≡ ok a
unfolding parse to_std_string text_eq
parse-known unknow h = absurd (h refl)
parse-known a h = refl

parse_sound :
    (raw : Text) (a : Architecture) → parse raw ≡ ok a → (a ≢ unknow) × (raw ≡ to_std_string a)
unfolding parse to_std_string
parse_sound raw a h = ground (
  arith,
  text_eq→eq raw (codes "x86_64"),
  text_eq→eq raw (codes "arm64"),
  text_eq→eq raw (codes "loongarch64"),
  text_eq→eq raw (codes "loong64"),
  text_eq→eq raw (codes "sw64"),
  text_eq→eq raw (codes "mips64"),
)

-- `Architecture::parse` accepts exactly the names of the known architectures, each as its own.
pub parse_iff :
    (raw : Text) (a : Architecture) → (parse raw ≡ ok a) ↔ ((a ≢ unknow) × (raw ≡ to_std_string a))
parse_iff raw a = (parse_sound raw a, λ h. rw (h.1) (parse-known a h.0))

pub arch_eq_iff : (a b : Architecture) → (arch_eq a b ≡ true) ↔ (a ≡ b)
unfolding arch_eq
arch_eq_iff a b = ground arith
