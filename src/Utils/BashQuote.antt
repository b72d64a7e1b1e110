-- ===== src/Utils/BashQuote.antt =====
-- libs/utils/src/linglong/utils/bash_quote.h
pub mod Unquote
use linyaps.Prelude.{ℕ, ◌==◌, List, [], ◌∷◌, ◌++◌, Text, if◌then◌else◌}

-- The loop over the text: in place of a quote the three units `'\'` come before it and one quote
-- behind it, and the loop goes on behind these.
unfoldable pub escape : Text → Text
escape [] = []
escape (c ∷ cs) =
    let rest = escape cs in if c == b'\'' then b'\'' ∷ b'\\' ∷ b'\'' ∷ b'\'' ∷ rest else c ∷ rest

unfoldable pub quote_bash_arg : Text → Text
unfolding escape
quote_bash_arg arg = b'\'' ∷ (escape arg ++ b'\'' ∷ [])
