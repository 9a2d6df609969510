-- ===== src/Tests/Tokens.antt =====
-- Examples of tokens and of addresses.
use dgsw_class_pg_proxy.Prelude.{
  ℕ, ◌+◌, ◌*◌, ◌-◌, ◌%◌, ◌≡◌, ◌↔◌, refl, String, Option, none, some, List, [], ◌∷◌, ◌++◌, ◌∙◌,
  length, ltb, leb, arith, if◌then◌else◌,
}
use dgsw_class_pg_proxy.Prelude.Text.{Bytes, codes, decimal}
use dgsw_class_pg_proxy.Lua.Context.{run_script, req_field, apply}
use dgsw_class_pg_proxy.Lua.Base64.{utf8_from}
use dgsw_class_pg_proxy.Lua.Base64.RoundTrip.{whole}
use dgsw_class_pg_proxy.Plugins.Claims.{text, LuaNumbers, field, number, parse_json_obj}
use dgsw_class_pg_proxy.Plugins.Jwt.{
  raw_token, b64url_encode, b64url_decode, sign, verify, verified, refused, check_times,
}
use dgsw_class_pg_proxy.Plugins.Jwt.Verified.{Holds, verify_iff}
use dgsw_class_pg_proxy.Plugins.Jwt.Standard.{is_ascii, verify-standard}
use dgsw_class_pg_proxy.Plugins.Jwt.Split.{dotted}
use dgsw_class_pg_proxy.Plugins.Jwt.Signed.{readable, verify-sign}
use dgsw_class_pg_proxy.Plugins.IpFilter
use dgsw_class_pg_proxy.Plugins.IpFilter.Lists.{Passes, on_request-Passes_iff}
use dgsw_class_pg_proxy.Tests.{same_text}
use dgsw_class_pg_proxy.Tests.Scripts.{stranger}

-- Whole numbers, without signs or points.
unfoldable pub read_digits : Bytes → ℕ → Option ℕ
read_digits [] n = some n
read_digits (c ∷ s) n =
    let rest = read_digits s (n * 10 + (c - 48)) in
    if leb 48 c then (if leb c 57 then rest else none) else none

abbrev pub whole_numbers : LuaNumbers
whole_numbers = record {
  Number = ℕ;
  tonumber = λ s. read_digits s 0;
  less_than = λ n time. ltb n time;
  more_than = λ n time. ltb time n;
  number_text = decimal;
}

-- A byte for the lengths of the two texts.
abbrev pub short_hmac : Bytes → Bytes → Bytes
short_hmac key msg = (length key + length msg) % 128 ∷ []

abbrev pub secret : Bytes
secret = codes "secret"

abbrev claims : Bytes
claims = codes "{\"sub\":\"anna\",\"exp\":90}"

abbrev token : Bytes
token = codes "Bearer " ++ sign short_hmac claims secret

-- Of the 23 bytes the last two are lost, and with them a digit of the time.
exp_written :
    field whole_numbers (codes "exp") (parse_json_obj whole_numbers claims) ≡ some (number 90)
unfolding field parse_json_obj read_digits
exp_written = refl

exp_read :
    field whole_numbers (codes "exp") (parse_json_obj whole_numbers (readable claims))
    ≡ some (number 9)
unfolding field parse_json_obj read_digits whole utf8_from
exp_read = refl

verify-sign_example :
    verify whole_numbers 10 10 short_hmac token secret
    ≡ check_times whole_numbers 10 10 (parse_json_obj whole_numbers (readable claims))
verify-sign_example =
    verify-sign whole_numbers 10 10 short_hmac (λ key msg. refl) claims secret (omega arith) refl

expired : verify whole_numbers 10 10 short_hmac token secret ≡ refused (codes "token expired")
unfolding check_times field parse_json_obj read_digits whole utf8_from
expired = verify-sign_example ∙ refl

-- Claims whose bytes are a multiple of three.
abbrev admin_claims : Bytes
admin_claims = codes "{\"role\":\"admin\",\"exp\":9000}"

admin_size : length admin_claims % 3 ≡ 0
admin_size = refl

abbrev admin_token : Bytes
admin_token = codes "Bearer " ++ sign short_hmac admin_claims secret

verify_iff_example :
    (verify whole_numbers 10 10 short_hmac admin_token secret
      ≡ verified (parse_json_obj whole_numbers admin_claims))
    ↔ Holds whole_numbers 10 10 short_hmac admin_token secret
        (parse_json_obj whole_numbers admin_claims)
verify_iff_example =
    verify_iff whole_numbers 10 10 short_hmac admin_token secret
      (parse_json_obj whole_numbers admin_claims)

admin_verified :
    verify whole_numbers 10 10 short_hmac admin_token secret
    ≡ verified (parse_json_obj whole_numbers admin_claims)
unfolding check_times field parse_json_obj read_digits whole utf8_from
admin_verified =
    verify-sign whole_numbers 10 10 short_hmac (λ key msg. refl) admin_claims secret (omega arith)
      refl
    ∙ refl

admin-Holds :
    Holds whole_numbers 10 10 short_hmac admin_token secret
      (parse_json_obj whole_numbers admin_claims)
admin-Holds = verify_iff_example.0 admin_verified

abbrev blocked : List String
blocked = "10.0.*" ∷ "192.168.1.100" ∷ []

on_request-Passes_iff_example :
    ((run_script same_text (IpFilter.on_request blocked []) stranger).1.rejected ≡ none)
    ↔ Passes blocked [] stranger.client_ip
on_request-Passes_iff_example = on_request-Passes_iff blocked [] same_text stranger refl

stranger-blocked :
    (run_script same_text (IpFilter.on_request blocked []) stranger).1.rejected
    ≡ some (403, "Forbidden: your IP is blocked")
unfolding run_script apply IpFilter.on_request req_field
stranger-blocked = refl

-- An entry of the list in CIDR notation blocks no address of its range.
cidr-unblocked :
    (run_script same_text (IpFilter.on_request ("10.0.0.0/8" ∷ []) []) stranger).1.rejected ≡ none
unfolding run_script apply IpFilter.on_request req_field
cidr-unblocked = refl

-- An HMAC with one byte above 127, and a token that was signed by its bytes.
abbrev high_hmac : Bytes → Bytes → Bytes
high_hmac key msg = 200 ∷ []

abbrev head_part : Bytes
head_part = codes "eyJhbGciOiJIUzI1NiIsInR5cCI6IkpXVCJ9"

abbrev payload_part : Bytes
payload_part = codes "e30"

abbrev foreign : Bytes
foreign = codes "Bearer " ++ dotted head_part payload_part (b64url_encode (200 ∷ []))

foreign_parts : raw_token foreign ≡ dotted head_part payload_part (b64url_encode (200 ∷ []))
unfolding raw_token b64url_encode
foreign_parts = refl

foreign_alg :
    field whole_numbers (codes "alg") (parse_json_obj whole_numbers (b64url_decode head_part))
    ≡ some (text (codes "HS256"))
unfolding field parse_json_obj b64url_decode read_digits utf8_from
foreign_alg = refl

verify-standard_example : verify whole_numbers 10 10 high_hmac foreign secret ≡ (
    if is_ascii (200 ∷ [])
    then check_times whole_numbers 10 10 (parse_json_obj whole_numbers (b64url_decode payload_part))
    else refused (codes "signature verification failed"))
verify-standard_example =
    verify-standard whole_numbers 10 10 high_hmac foreign secret head_part payload_part
      foreign_parts (refl, refl) (refl, refl) refl (omega arith) foreign_alg
