-- ===== src/Plugins/Jwt/Verified.antt =====
-- lib/jwt.lua: what a token is whose claims `verify` returns.
use dgsw_class_pg_proxy.Prelude.{
  ℕ, ◌≡◌, ◌↔◌, refl, sym, ap, ◌∙◌, subst, inl, inr, Bool, true, false, Option, none, some, ◌∷◌,
  ◌++◌, arith, Bool-cases, Option-cases,
}
use dgsw_class_pg_proxy.Prelude.Text.{Bytes, codes}
use dgsw_class_pg_proxy.Plugins.Patterns.{same_bytes}
use dgsw_class_pg_proxy.Plugins.Claims.{
  LuaNumbers, text, number, boolean, Value, Fields, field, parse_json_obj,
}
use dgsw_class_pg_proxy.Plugins.Jwt.{
  b64url_decode, Verdict, refused, verified, unsupported, is_hs256, timed, split_dots, raw_token,
  hmac_sha256_b64url, check_times, check_parts, verify,
}
use dgsw_class_pg_proxy.Plugins.Jwt.Split.{
  IsPart, dotted, same_bytes_sound, same_bytes_refl, split_dots_sound, split_dots_complete,
}

module _ (numbers : LuaNumbers) (now later : ℕ) (hmac : Bytes → Bytes → Bytes) where
  open numbers use {Number, less_than, more_than}

  -- A time among the claims that is not there, is `false`, or is a number that passes its check.
  abbrev pub Within : Option (Value numbers) → (Number → Bool) → Type 0
  Within none fails = Unit {0}
  Within (some (boolean false)) fails = Unit {0}
  Within (some (number n)) fails = fails n ≡ false
  Within (some (boolean true)) fails = ⊥
  Within (some (text t)) fails = ⊥

  -- A token in three parts, none of them empty or with a dot: the header names HS256, the third
  -- part is the signature of the other two under the secret, and the claims are those of the second
  -- and are within their times.
  pub record Holds (token secret : Bytes) (claims : Fields numbers) : Type 0 where
    pub header : Bytes
    pub payload : Bytes
    pub signature : Bytes
    pub made : signature ≡ hmac_sha256_b64url hmac (header ++ 46 ∷ payload) secret
    pub joined : raw_token token ≡ dotted header payload signature
    pub cut : IsPart header × IsPart payload × IsPart signature
    pub alg :
        field numbers (codes "alg") (parse_json_obj numbers (b64url_decode header))
        ≡ some (text (codes "HS256"))
    pub read : claims ≡ parse_json_obj numbers (b64url_decode payload)
    pub exp : Within (field numbers (codes "exp") claims) (λ n. less_than n now)
    pub nbf : Within (field numbers (codes "nbf") claims) (λ n. more_than n later)

  abbrev accepted : Fields numbers → Verdict numbers
  accepted claims = verified claims

  timed_sound :
      (v : Option (Value numbers)) (fails : Number → Bool) (message : Bytes)
      (next : Verdict numbers) (claims : Fields numbers)
      → timed numbers v fails message next ≡ verified claims
      → Within v fails × (next ≡ verified claims)
  timed_sound none fails message next claims e = (tt, e)
  timed_sound (some (boolean false)) fails message next claims e = (tt, e)
  timed_sound (some (boolean true)) fails message next claims e = absurd (ground arith)
  timed_sound (some (text t)) fails message next claims e = absurd (ground arith)
  timed_sound (some (number n)) fails message next claims e = elim (Bool-cases (fails n)) [
    | inl k ↦ absurd (let e' : refused message ≡ verified claims = rw k at e in ground arith)
    | inr k ↦ (k, rw k at e)
  ]

  is_hs256_sound :
      (v : Option (Value numbers)) → is_hs256 numbers v ≡ true → v ≡ some (text (codes "HS256"))
  is_hs256_sound none e = absurd (ground arith)
  is_hs256_sound (some (boolean b)) e = absurd (ground arith)
  is_hs256_sound (some (number n)) e = absurd (ground arith)
  is_hs256_sound (some (text alg)) e =
      ap (λ t. some (text t)) (same_bytes_sound alg (codes "HS256") e)

  unsupported_refused :
      (v : Option (Value numbers)) (claims : Fields numbers)
      → ¬ (unsupported numbers v ≡ verified claims)
  unsupported_refused none claims e = ground arith
  unsupported_refused (some (boolean true)) claims e = ground arith
  unsupported_refused (some (boolean false)) claims e = ground arith
  unsupported_refused (some (number n)) claims e = ground arith
  unsupported_refused (some (text alg)) claims e = ground arith

  times_sound :
      (given claims : Fields numbers)
      → check_times numbers now later given ≡ verified claims
      → (given ≡ claims)
        × Within (field numbers (codes "exp") given) (λ n. less_than n now)
        × Within (field numbers (codes "nbf") given) (λ n. more_than n later)
  unfolding check_times
  times_sound given claims e =
      let (exp, e') =
        timed_sound (field numbers (codes "exp") given) (λ n. less_than n now) _ _ claims e in
      let (nbf, e'') =
        timed_sound (field numbers (codes "nbf") given) (λ n. more_than n later) _ _ claims e' in
      let same : accepted given ≡ accepted claims = e'' in (ground arith, exp, nbf)

  parts_sound :
      (token secret h p s : Bytes) (claims : Fields numbers)
      → raw_token token ≡ dotted h p s
      → IsPart h × IsPart p × IsPart s
      → check_parts numbers now later hmac secret (h, p, s) ≡ verified claims
      → Holds token secret claims
  parts_sound token secret h p s claims whole cut e =
      let alg = field numbers (codes "alg") (parse_json_obj numbers (b64url_decode h)) in
      let sig = hmac_sha256_b64url hmac (h ++ 46 ∷ p) secret in
      let given = parse_json_obj numbers (b64url_decode p) in
      elim (Bool-cases (is_hs256 numbers alg)) [
        | inr k ↦ absurd (unsupported_refused alg claims (rw k at e))
        | inl k ↦ elim (Bool-cases (same_bytes sig s)) [
          | inr l ↦ absurd (
              let e' : refused (codes "signature verification failed") ≡ verified claims =
                rw (k, l) at e in
              ground arith)
          | inl l ↦
              let (same, exp, nbf) = times_sound given claims (rw (k, l) at e) in
              record {
                header = h;
                payload = p;
                signature = s;
                made = sym (same_bytes_sound sig s l);
                joined = whole;
                cut = cut;
                alg = is_hs256_sound alg k;
                read = sym same;
                exp =
                    subst (λ c. Within (field numbers (codes "exp") c) (λ n. less_than n now)) same
                      exp;
                nbf =
                    subst (λ c. Within (field numbers (codes "nbf") c) (λ n. more_than n later))
                      same nbf;
              }
        ]
      ]

  verify_sound :
      (token secret : Bytes) (claims : Fields numbers)
      → verify numbers now later hmac token secret ≡ verified claims
      → Holds token secret claims
  unfolding verify
  verify_sound token secret claims e = elim (Option-cases (split_dots (raw_token token))) [
    | inl k ↦ absurd (
        let e' : refused (codes "invalid JWT format") ≡ verified claims = rw (k, verify) at e in
        ground arith)
    | inr ((h, p, s), k) ↦
        let r = split_dots_sound (raw_token token) h p s k in
        parts_sound token secret h p s claims r.0 (r.1, r.2, r.3) (rw (k, verify) at e)
  ]

  timed_complete :
      (v : Option (Value numbers)) (fails : Number → Bool) (message : Bytes)
      (next : Verdict numbers)
      → Within v fails
      → timed numbers v fails message next ≡ next
  timed_complete none fails message next h = refl
  timed_complete (some (boolean false)) fails message next h = refl
  timed_complete (some (boolean true)) fails message next h = absurd h
  timed_complete (some (text t)) fails message next h = absurd h
  timed_complete (some (number n)) fails message next h = rw h refl

  -- The code's answer to a token whose parts are as they should be: the checks of its times.
  pub verify_parts :
      (token secret h p s : Bytes)
      → raw_token token ≡ dotted h p s
      → IsPart h
      → IsPart p
      → IsPart s
      → s ≡ hmac_sha256_b64url hmac (h ++ 46 ∷ p) secret
      → field numbers (codes "alg") (parse_json_obj numbers (b64url_decode h))
        ≡ some (text (codes "HS256"))
      → verify numbers now later hmac token secret
        ≡ check_times numbers now later (parse_json_obj numbers (b64url_decode p))
  unfolding verify same_bytes
  verify_parts token secret h p s joined h_ok p_ok s_ok made alg =
      let split = ap split_dots joined ∙ split_dots_complete h p s h_ok p_ok s_ok in
      rw (split, verify, alg, ← made, same_bytes_refl s) refl

  verify_complete :
      (token secret : Bytes) (claims : Fields numbers)
      → Holds token secret claims
      → verify numbers now later hmac token secret ≡ verified claims
  unfolding check_times
  verify_complete token secret claims h =
      let (h_ok, p_ok, s_ok) = h.cut in
      let exp = timed_complete (field numbers (codes "exp") claims) (λ n. less_than n now) in
      let nbf = timed_complete (field numbers (codes "nbf") claims) (λ n. more_than n later) in
      verify_parts token secret h.header h.payload h.signature h.joined h_ok p_ok s_ok h.made h.alg
      ∙ rw (← h.read)
          (exp (codes "token expired") _ h.exp ∙ nbf (codes "token not yet valid") _ h.nbf)

  -- `verify` returns claims exactly for a token, without its "Bearer ", of three parts that are not
  -- empty: the header names HS256, the third part is the signature of the other two under the
  -- secret, and the claims are those of the second and within their times.
  pub verify_iff :
      (token secret : Bytes) (claims : Fields numbers)
      → (verify numbers now later hmac token secret ≡ verified claims) ↔ Holds token secret claims
  verify_iff token secret claims =
      (verify_sound token secret claims, verify_complete token secret claims)
