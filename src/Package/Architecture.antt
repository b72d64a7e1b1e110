-- ===== src/Package/Architecture.antt =====
-- package/architecture.h and architecture.cpp
pub mod Names
use linyaps.Prelude.{
  ℕ, ◌/◌, ◌%◌, ◌==◌, Bool, true, false, ◌||◌, Option, none, some, Text, codes, text_eq,
  if◌then◌else◌,
}
use linyaps.Error.{Result, ok, err, unknown_architecture}

pub data Architecture : Type 0 where
  unknow : Architecture
  x86_64 : Architecture
  arm64 : Architecture
  loongarch64 : Architecture
  loong64 : Architecture
  sw64 : Architecture
  mips64 : Architecture

unfoldable pub to_std_string : Architecture → Text
to_std_string x86_64 = codes "x86_64"
to_std_string arm64 = codes "arm64"
to_std_string loongarch64 = codes "loongarch64"
to_std_string loong64 = codes "loong64"
to_std_string sw64 = codes "sw64"
to_std_string mips64 = codes "mips64"
to_std_string unknow = codes "unknown"

-- The deprecated member has the same cases over again.
unfoldable pub to_string : Architecture → Text
to_string x86_64 = codes "x86_64"
to_string arm64 = codes "arm64"
to_string loongarch64 = codes "loongarch64"
to_string loong64 = codes "loong64"
to_string sw64 = codes "sw64"
to_string mips64 = codes "mips64"
to_string unknow = codes "unknown"

unfoldable pub get_triplet : Architecture → Text
get_triplet unknow = codes "unknown"
get_triplet x86_64 = codes "x86_64-linux-gnu"
get_triplet arm64 = codes "aarch64-linux-gnu"
get_triplet loong64 = codes "loongarch64-linux-gnu"
get_triplet sw64 = codes "sw_64-linux-gnu"
get_triplet loongarch64 = codes "loongarch64-linux-gnu"
get_triplet mips64 = codes "mips64el-linux-gnuabi64"

-- `operator==` of the values.
unfoldable pub arch_eq : Architecture → Architecture → Bool
arch_eq unknow unknow = true
arch_eq x86_64 x86_64 = true
arch_eq arm64 arm64 = true
arch_eq loongarch64 loongarch64 = true
arch_eq loong64 loong64 = true
arch_eq sw64 sw64 = true
arch_eq mips64 mips64 = true
arch_eq a b = false

unfoldable pub parse : Text → Result Architecture
parse raw =
    if text_eq raw (codes "x86_64")
    then ok x86_64
    else if text_eq raw (codes "arm64")
    then ok arm64
    else if text_eq raw (codes "loongarch64")
    then ok loongarch64
    else if text_eq raw (codes "loong64")
    then ok loong64
    else if text_eq raw (codes "sw64")
    then ok sw64
    else if text_eq raw (codes "mips64")
    then ok mips64
    else err unknown_architecture

-- The test of the flags of the process's own ELF header; `none` where the file cannot be read or is
-- no ELF file.
unfoldable pub is_new_world_loong_arch : Option ℕ → Bool
is_new_world_loong_arch none = false
is_new_world_loong_arch (some e_flags) = e_flags / 64 % 2 == 1

-- `cpu` is the name that `QSysInfo::currentCpuArchitecture` gives.
unfoldable pub current_cpu_architecture : Text → Option ℕ → Result Architecture
unfolding parse is_new_world_loong_arch
current_cpu_architecture cpu e_flags =
    let arch = if text_eq cpu (codes "sw_64") then codes "sw64" else cpu in
    let arch' =
      if text_eq arch (codes "loongarch64") || text_eq arch (codes "loong64")
      then (if is_new_world_loong_arch e_flags then codes "loong64" else codes "loongarch64")
      else arch in
    parse arch'
