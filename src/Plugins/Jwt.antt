-- ===== src/Plugins/Jwt.antt =====
-- src/plugins/lib/jwt.lua: tokens that are verified and signed. A text is the list of its bytes.
-- Lua's numbers are a parameter, and so are the HMAC and the time, which `now` is at the check of
-- "exp" and `later` at that of "nbf". `hmac.sha256` is always there: the engine registers it.
pub mod Url
pub mod Split
pub mod Verified
pub mod Signed
pub mod Standard
use dgsw_class_pg_proxy.Prelude.{
  ℕ, zero, suc, ◌+◌, ◌-◌, ◌%◌, String, Bool, true, false, not, ◌&&◌, ◌||◌, Option, none, some, List,
  [], ◌∷◌, ◌++◌, map, length, replicate, ◌==◌, leb, if◌then◌else◌,
}
use dgsw_class_pg_proxy.Prelude.Text.{Bytes, codes}
use dgsw_class_pg_proxy.Lua.Base64.{base64_encode, lua_base64_decode, pad}
use dgsw_class_pg_proxy.Lua.Hmac.{hmac_sha256_raw}
use dgsw_class_pg_proxy.Plugins.Claims.{
  LuaNumbers, text, number, boolean, Value, Fields, field, parse_json_obj,
}
use dgsw_class_pg_proxy.Plugins.Patterns.{
  is_empty, skip_spaces, trim, after_spaces, after_word, until, free_of, same_bytes,
}

abbrev pub replace : ℕ → ℕ → Bytes → Bytes
replace old new s = map (λ c. if c == old then new else c) s

unfoldable pub b64url_decode : Bytes → Bytes
unfolding lua_base64_decode
b64url_decode s =
    let padded = replace 45 43 s in
    let s' = replace 95 47 padded in
    lua_base64_decode (s' ++ replicate ((4 - length s' % 4) % 4) pad)

-- `gsub("=+$", "")`.
unfoldable pub strip_pad : Bytes → Bytes
strip_pad [] = []
strip_pad (c ∷ s) = let rest = strip_pad s in if (c == pad) && is_empty rest then [] else c ∷ rest

unfoldable pub b64url_encode : Bytes → Bytes
unfolding base64_encode strip_pad
b64url_encode s = strip_pad (replace 47 95 (replace 43 45 (base64_encode s)))

-- `^([^.]+)%.([^.]+)%.([^.]+)$`.
abbrev third : Bytes → Bytes → Bytes → Option (Bytes × Bytes × Bytes)
third h p s = if not (is_empty s) && free_of 46 s then some (h, p, s) else none

abbrev second : Bytes → Option (Bytes × Bytes) → Option (Bytes × Bytes × Bytes)
second h none = none
second h (some (p, s)) = if is_empty p then none else third h p s

abbrev first : Option (Bytes × Bytes) → Option (Bytes × Bytes × Bytes)
first none = none
first (some (h, rest)) = if is_empty h then none else second h (until 46 rest)

unfoldable pub split_dots : Bytes → Option (Bytes × Bytes × Bytes)
unfolding until
split_dots raw = first (until 46 raw)

-- `^[Bb]earer%s+(.+)`, and `^[Bb]earer`.
abbrev pub bearer : Bytes → Option Bytes
bearer [] = none
bearer (c ∷ s) = if (c == 66) || (c == 98) then after_word (codes "earer") s else none

unfoldable pub raw_token : Bytes → Bytes
unfolding after_word after_spaces trim
raw_token token = elim (bearer token) [
  | none ↦ trim token
  | some rest ↦ elim (after_spaces rest) [ none ↦ trim token | some raw ↦ trim raw ]
]

module _ (hmac : Bytes → Bytes → Bytes) where
  unfoldable pub hmac_sha256_b64url : Bytes → Bytes → Bytes
  unfolding b64url_encode hmac_sha256_raw
  hmac_sha256_b64url msg secret = b64url_encode (hmac_sha256_raw hmac msg secret)

  -- `claims` is the text that `json.encode` makes of the table.
  unfoldable pub sign : Bytes → Bytes → Bytes
  unfolding b64url_encode hmac_sha256_b64url
  sign claims secret =
      let header = b64url_encode (codes "{\"alg\":\"HS256\",\"typ\":\"JWT\"}") in
      let signing_input = header ++ 46 ∷ b64url_encode claims in
      signing_input ++ 46 ∷ hmac_sha256_b64url signing_input secret

module _ (numbers : LuaNumbers) where
  open numbers use {Number, less_than, more_than, number_text}

  -- How `jwt.verify` ends: with an error of Lua, with `nil` and a message, or with the claims.
  pub data Verdict : Type 0 where
    raised : Verdict
    refused : Bytes → Verdict
    verified : Fields numbers → Verdict

  -- `"unsupported algorithm: " .. (header.alg or "none")`.
  abbrev unsupported : Option (Value numbers) → Verdict
  unsupported none = refused (codes "unsupported algorithm: none")
  unsupported (some (boolean false)) = refused (codes "unsupported algorithm: none")
  unsupported (some (boolean true)) = raised
  unsupported (some (text alg)) = refused (codes "unsupported algorithm: " ++ alg)
  unsupported (some (number n)) = refused (codes "unsupported algorithm: " ++ number_text n)

  abbrev pub is_hs256 : Option (Value numbers) → Bool
  is_hs256 (some (text alg)) = same_bytes alg (codes "HS256")
  is_hs256 _ = false

  -- A check of a time among the claims: a field that is there and not `false` is compared, which
  -- raises an error unless it is a number.
  abbrev timed : Option (Value numbers) → (Number → Bool) → Bytes → Verdict → Verdict
  timed none fails message next = next
  timed (some (boolean false)) fails message next = next
  timed (some (boolean true)) fails message next = raised
  timed (some (text t)) fails message next = raised
  timed (some (number n)) fails message next = if fails n then refused message else next

  module _ (now later : ℕ) where
    unfoldable pub check_times : Fields numbers → Verdict
    unfolding field
    check_times claims =
        timed (field numbers (codes "exp") claims) (λ n. less_than n now) (codes "token expired")
          (timed (field numbers (codes "nbf") claims) (λ n. more_than n later)
            (codes "token not yet valid") (verified claims))

    module _ (hmac : Bytes → Bytes → Bytes) where
      abbrev check_parts : Bytes → Bytes × Bytes × Bytes → Verdict
      check_parts secret (h, p, s) =
          let alg = field numbers (codes "alg") (parse_json_obj numbers (b64url_decode h)) in
          if is_hs256 alg
          then (if same_bytes (hmac_sha256_b64url hmac (h ++ 46 ∷ p) secret) s
              then check_times (parse_json_obj numbers (b64url_decode p))
              else refused (codes "signature verification failed"))
          else unsupported alg

      unfoldable pub verify : Bytes → Bytes → Verdict
      unfolding raw_token split_dots field parse_json_obj b64url_decode hmac_sha256_b64url
          check_times
      verify token secret = elim (split_dots (raw_token token)) [
        | none ↦ refused (codes "invalid JWT format")
        | some parts ↦ check_parts secret parts
      ]
