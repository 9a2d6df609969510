-- ===== src/Plugins/Jwt/Signed.antt =====
-- lib/jwt.lua: verifying a token that `jwt.sign` has made.
use dgsw_class_pg_proxy.Prelude.{
  ℕ, ◌<◌, ◌≡◌, refl, ap, ◌∙◌, not, Bool, true, false, some, [], ◌∷◌, ◌++◌, All, all, arith, inl,
  inr, Bool-cases, sym, subst, if◌then◌else◌,
}
use dgsw_class_pg_proxy.Prelude.Text.{Bytes, codes, utf8_char}
use dgsw_class_pg_proxy.Lua.Base64.{
  base64_encode, base64_decode, lua_base64_decode, is_utf8, utf8_from,
}
use dgsw_class_pg_proxy.Lua.Base64.RoundTrip.{whole, decode_groups-encode}
use dgsw_class_pg_proxy.Lua.Hmac.{latin1, hmac_sha256_raw}
use dgsw_class_pg_proxy.Plugins.Patterns.{
  is_empty, is_space, skip_spaces, drop_spaces, trim, after_spaces, after_word,
}
use dgsw_class_pg_proxy.Plugins.Claims.{LuaNumbers, text, field, parse_json_obj}
use dgsw_class_pg_proxy.Plugins.Jwt.{
  b64url_encode, raw_token, hmac_sha256_b64url, sign, check_times, verify,
}
use dgsw_class_pg_proxy.Plugins.Jwt.Split.{IsPart, dotted}
use dgsw_class_pg_proxy.Plugins.Jwt.Url.{
  is_letter, b64url_encode-letters, b64url_decode-encode, b64url_encode-IsPart,
}
use dgsw_class_pg_proxy.Plugins.Jwt.Verified.{verify_parts}

-- What base64 decoding leaves of a text: its whole chunks of three bytes, if they are UTF-8.
abbrev pub readable : Bytes → Bytes
readable s = if is_utf8 (whole s) then whole s else []

decode-readable :
    (s : Bytes) → All (λ b. b < 256) s → lua_base64_decode (base64_encode s) ≡ readable s
unfolding lua_base64_decode base64_decode
decode-readable s h = elim (Bool-cases (is_utf8 (whole s))) [
  | inl e ↦ rw (decode_groups-encode s h, lua_base64_decode, e) refl
  | inr e ↦ rw (decode_groups-encode s h, lua_base64_decode, e) refl
]

abbrev no_spaces : Bytes → Bool
no_spaces s = all (λ c. not (is_space c)) s

letters_no_spaces : (s : Bytes) → all is_letter s ≡ true → no_spaces s ≡ true
letters_no_spaces [] h = refl
letters_no_spaces (c ∷ s) h = ground (arith, letters_no_spaces s)

no_spaces-append :
    (s t : Bytes) → no_spaces s ≡ true → no_spaces t ≡ true → no_spaces (s ++ 46 ∷ t) ≡ true
no_spaces-append [] t h k = k
no_spaces-append (c ∷ s) t h k = ground (arith, no_spaces-append s t)

skip_spaces_none : (s : Bytes) → no_spaces s ≡ true → skip_spaces s ≡ s
unfolding skip_spaces
skip_spaces_none [] h = refl
skip_spaces_none (c ∷ s) h = let e : is_space c ≡ false = ground arith in rw e refl

drop_spaces_none : (s : Bytes) → no_spaces s ≡ true → drop_spaces s ≡ s
unfolding drop_spaces
drop_spaces_none [] h = refl
drop_spaces_none (c ∷ s) h =
    let e : is_space c ≡ false = ground arith in
    let more : no_spaces s ≡ true = ground arith in rw (e, drop_spaces_none s more) refl

trim_none : (s : Bytes) → no_spaces s ≡ true → trim s ≡ s
unfolding trim
trim_none s h = rw (skip_spaces_none s h, drop_spaces_none s h) refl

-- Behind the word, a text without spaces is the raw token.
raw_token-bearer :
    (s : Bytes) → is_empty s ≡ false → no_spaces s ≡ true → raw_token (codes "Bearer " ++ s) ≡ s
unfolding raw_token after_word after_spaces
raw_token-bearer [] e h = absurd (ground arith)
raw_token-bearer (c ∷ s) e h = rw (skip_spaces_none (c ∷ s) h, raw_token) (trim_none (c ∷ s) h)

latin1_some : (s : Bytes) → is_empty s ≡ false → is_empty (latin1 s) ≡ false
unfolding latin1 utf8_char
latin1_some [] h = h
latin1_some (c ∷ s) h = ground arith

abbrev head : Bytes
head = codes "{\"alg\":\"HS256\",\"typ\":\"JWT\"}"

head_size : All (λ b. b < 256) head
head_size = omega arith

head_readable : readable head ≡ head
unfolding whole utf8_from
head_readable = refl

head_alg :
    (numbers : LuaNumbers)
    → field numbers (codes "alg") (parse_json_obj numbers head) ≡ some (text (codes "HS256"))
unfolding field parse_json_obj
head_alg numbers = refl

module _ (numbers : LuaNumbers) (now later : ℕ) (hmac : Bytes → Bytes → Bytes) where
  abbrev signature : Bytes → Bytes → Bytes
  signature claims secret =
      hmac_sha256_b64url hmac (b64url_encode head ++ 46 ∷ b64url_encode claims) secret

  signature-IsPart :
      ((key msg : Bytes) → is_empty (hmac key msg) ≡ false)
      → (claims secret : Bytes) → IsPart (signature claims secret)
  unfolding hmac_sha256_b64url hmac_sha256_raw
  signature-IsPart some_hash claims secret =
      let msg = b64url_encode head ++ 46 ∷ b64url_encode claims in
      b64url_encode-IsPart (latin1 (hmac secret msg))
        (latin1_some (hmac secret msg) (some_hash secret msg))

  signed_no_spaces : (claims secret : Bytes) → no_spaces (sign hmac claims secret) ≡ true
  unfolding sign hmac_sha256_b64url
  signed_no_spaces claims secret =
      let spaceless =
        λ (s : Bytes). letters_no_spaces (b64url_encode s) (b64url_encode-letters s) in
      let msg = b64url_encode head ++ 46 ∷ b64url_encode claims in
      no_spaces-append msg (signature claims secret)
        (no_spaces-append (b64url_encode head) (b64url_encode claims) (spaceless head)
          (spaceless claims))
        (spaceless (hmac_sha256_raw hmac msg secret))

  dotted_some : (h p s : Bytes) → is_empty h ≡ false → is_empty (dotted h p s) ≡ false
  dotted_some [] p s e = absurd (ground arith)
  dotted_some (c ∷ h) p s e = refl

  sign-dotted :
      (claims secret : Bytes)
      → sign hmac claims secret
        ≡ dotted (b64url_encode head) (b64url_encode claims) (signature claims secret)
  unfolding sign
  sign-dotted claims secret = refl

  -- A token that is made of the bytes of claims and sent as a bearer is verified under its secret,
  -- but for the times: the claims are read from the whole chunks of three bytes of their text, and
  -- from nothing if those are not UTF-8. The HMAC is assumed to give at least a byte.
  pub verify-sign :
      ((key msg : Bytes) → is_empty (hmac key msg) ≡ false)
      → (claims secret : Bytes) → All (λ b. b < 256) claims
      → is_empty claims ≡ false
      → verify numbers now later hmac (codes "Bearer " ++ sign hmac claims secret) secret
        ≡ check_times numbers now later (parse_json_obj numbers (readable claims))
  verify-sign some_hash claims secret size given =
      verify_parts numbers now later hmac (codes "Bearer " ++ sign hmac claims secret) secret
        (b64url_encode head) (b64url_encode claims) (signature claims secret)
        (raw_token-bearer (sign hmac claims secret)
            (subst (λ t. is_empty t ≡ false) (sym (sign-dotted claims secret))
              (dotted_some (b64url_encode head) (b64url_encode claims) (signature claims secret)
                (b64url_encode-IsPart head refl).0))
            (signed_no_spaces claims secret)
          ∙ sign-dotted claims secret)
        (b64url_encode-IsPart head refl) (b64url_encode-IsPart claims given)
        (signature-IsPart some_hash claims secret) refl
        (ap (λ s. field numbers (codes "alg") (parse_json_obj numbers s))
            (b64url_decode-encode head ∙ decode-readable head head_size ∙ head_readable)
          ∙ head_alg numbers)
      ∙ ap (λ s. check_times numbers now later (parse_json_obj numbers s))
          (b64url_decode-encode claims ∙ decode-readable claims size)
