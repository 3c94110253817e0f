-- ===== src/Json.antt =====
-- JSON string literals: `push_json_str` of crates/ndn-boltffi/src/discovery.rs, which is in
-- crates/ndn-boltffi/src/offer.rs as well.
pub mod Reader
use ndn_mobile.Prelude.{ℕ, ltb, ◌==◌, if◌then◌else◌, List, [], ◌∷◌, ◌++◌}
use ndn_mobile.Text.{Text, codes}

-- What the literal has for a character.
unfoldable pub escape : ℕ → Text
escape c =
    if c == b'"'
    then codes "\\\""
    else if c == b'\\'
    then codes "\\\\"
    else if c == b'\n'
    then codes "\\n"
    else if c == b'\r'
    then codes "\\r"
    else if c == b'\t'
    then codes "\\t"
    else if ltb c 32
    then codes " "
    else c ∷ []

unfoldable pub push_chars : Text → Text → Text
push_chars out [] = out
push_chars out (c ∷ s) = push_chars (out ++ escape c) s

unfoldable pub push_json_str : Text → Text → Text
push_json_str out s = push_chars (out ++ codes "\"") s ++ codes "\""
