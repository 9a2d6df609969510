-- ===== src/Lua/Hmac.antt =====
-- src/lua/engine.rs, `hmac_sha256_raw`. The HMAC is a parameter, which takes a message and a key of
-- any size and gives bytes. A text is the list of its bytes.
pub mod Latin
use dgsw_class_pg_proxy.Prelude.{ℕ, List, [], ◌∷◌, ◌++◌}
use dgsw_class_pg_proxy.Prelude.Text.{Bytes, utf8_char}

-- `iter().map(|&b| b as char).collect()`: each byte becomes the character of that number.
unfoldable pub latin1 : Bytes → Bytes
unfolding utf8_char
latin1 [] = []
latin1 (b ∷ bs) = utf8_char b ++ latin1 bs

unfoldable pub hmac_sha256_raw : (Bytes → Bytes → Bytes) → Bytes → Bytes → Bytes
unfolding latin1
hmac_sha256_raw hmac msg secret = latin1 (hmac secret msg)
