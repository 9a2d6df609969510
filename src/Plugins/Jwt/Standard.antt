-- ===== src/Plugins/Jwt/Standard.antt =====
-- lib/jwt.lua: tokens that were signed elsewhere, with the bytes of the HMAC themselves.
use dgsw_class_pg_proxy.Prelude.{
  ℕ, ◌<◌, ◌≡◌, refl, sym, ap, ◌∙◌, inl, inr, Bool, true, false, some, [], ◌∷◌, ◌++◌, All, all,
  length, filter, ltb, arith, Bool-cases, if◌then◌else◌,
}
use dgsw_class_pg_proxy.Prelude.Text.{Bytes, codes}
use dgsw_class_pg_proxy.Lua.Hmac.{latin1, hmac_sha256_raw}
use dgsw_class_pg_proxy.Lua.Hmac.Latin.{is_high, latin1-ascii, length-latin1}
use dgsw_class_pg_proxy.Plugins.Patterns.{is_empty, same_bytes}
use dgsw_class_pg_proxy.Plugins.Claims.{LuaNumbers, text, field, parse_json_obj}
use dgsw_class_pg_proxy.Plugins.Jwt.{
  b64url_encode, b64url_decode, refused, split_dots, raw_token, hmac_sha256_b64url, check_times,
  verify,
}
use dgsw_class_pg_proxy.Plugins.Jwt.Split.{IsPart, dotted, same_bytes_sound, split_dots_complete}
use dgsw_class_pg_proxy.Plugins.Jwt.Url.{length-b64url_encode, b64url_encode-IsPart}
use dgsw_class_pg_proxy.Plugins.Jwt.Verified.{verify_parts}

-- Every byte is one of ASCII.
abbrev pub is_ascii : Bytes → Bool
is_ascii bs = all (λ b. ltb b 128) bs

ascii_bytes : (bs : Bytes) → is_ascii bs ≡ true → All (λ b. b < 128) bs
ascii_bytes [] h = tt
ascii_bytes (b ∷ bs) h = (ground arith, ascii_bytes bs (ground arith))

some_high : (bs : Bytes) → is_ascii bs ≡ false → 0 < length (filter is_high bs)
some_high [] h = absurd (ground arith)
some_high (b ∷ bs) h = elim (Bool-cases (is_high b)) [
  | inl e ↦ rw e (omega arith)
  | inr e ↦ rw e (some_high bs (ground arith))
]

-- The two encodings have different lengths if a byte is 128 or more.
differs :
    (digest : Bytes)
    → All (λ b. b < 256) digest
    → is_ascii digest ≡ false
    → same_bytes (b64url_encode (latin1 digest)) (b64url_encode digest) ≡ false
differs digest small high =
    elim (Bool-cases (same_bytes (b64url_encode (latin1 digest)) (b64url_encode digest))) [
      | inr e ↦ e
      | inl e ↦
          let same = same_bytes_sound (b64url_encode (latin1 digest)) (b64url_encode digest) e in
          absurd (
            omega (
              arith,
              ap (λ (s : Bytes). length s) same,
              length-b64url_encode digest,
              length-b64url_encode (latin1 digest),
              length-latin1 digest small,
              some_high digest high,
            ))
    ]

module _ (numbers : LuaNumbers) (now later : ℕ) (hmac : Bytes → Bytes → Bytes) where
  unsigned :
      (token secret h p s : Bytes)
      → raw_token token ≡ dotted h p s
      → IsPart h
      → IsPart p
      → IsPart s
      → same_bytes (hmac_sha256_b64url hmac (h ++ 46 ∷ p) secret) s ≡ false
      → field numbers (codes "alg") (parse_json_obj numbers (b64url_decode h))
        ≡ some (text (codes "HS256"))
      → verify numbers now later hmac token secret ≡ refused (codes "signature verification failed")
  unfolding verify same_bytes
  unsigned token secret h p s joined h_ok p_ok s_ok other alg =
      let split = ap split_dots joined ∙ split_dots_complete h p s h_ok p_ok s_ok in
      rw (split, verify, alg, other) refl

  -- A token for HS256 whose signature is the base64url of the bytes of its HMAC, as the standard
  -- has it, is verified, but for the times, only if all those bytes are below 128. With any other
  -- HMAC it is refused.
  pub verify-standard :
      (token secret h p : Bytes)
      → raw_token token ≡ dotted h p (b64url_encode (hmac secret (h ++ 46 ∷ p)))
      → IsPart h
      → IsPart p
      → is_empty (hmac secret (h ++ 46 ∷ p)) ≡ false
      → All (λ b. b < 256) (hmac secret (h ++ 46 ∷ p))
      → field numbers (codes "alg") (parse_json_obj numbers (b64url_decode h))
        ≡ some (text (codes "HS256"))
      → verify numbers now later hmac token secret ≡ (
          if is_ascii (hmac secret (h ++ 46 ∷ p))
          then check_times numbers now later (parse_json_obj numbers (b64url_decode p))
          else refused (codes "signature verification failed"))
  unfolding hmac_sha256_b64url hmac_sha256_raw
  verify-standard token secret h p joined h_ok p_ok given small alg =
      let digest = hmac secret (h ++ 46 ∷ p) in
      let s_ok = b64url_encode-IsPart digest given in
      elim (Bool-cases (is_ascii digest)) [
        | inl e ↦ rw e (
            verify_parts numbers now later hmac token secret h p (b64url_encode digest) joined h_ok
              p_ok s_ok (ap b64url_encode (sym (latin1-ascii digest (ascii_bytes digest e)))) alg)
        | inr e ↦ rw e (
            unsigned token secret h p (b64url_encode digest) joined h_ok p_ok s_ok
              (differs digest small e) alg)
      ]
