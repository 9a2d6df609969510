-- ===== src/Handler/Laws.antt =====
-- handler.rs: what the handler relies on of the HTTP library and of the standard library, and the
-- headers that it collects and sends.
use dgsw_class_pg_proxy.Prelude.{
  ℕ, ◌≤◌, ◌<◌, ◌≡◌, ◌↔◌, String, true, none, some, [], ◌∷◌, arith, str_eq, if◌then◌else◌,
}
use dgsw_class_pg_proxy.Prelude.Maps.{StrMap, lookup, insert, lookup-insert}
use dgsw_class_pg_proxy.Prelude.Text.{Bytes}
use dgsw_class_pg_proxy.Lua.Base64.{is_utf8}
use dgsw_class_pg_proxy.Lua.Context.Valid.{IsMap, IsLower, insert-IsMap, insert-IsLower, Idempotent}
use dgsw_class_pg_proxy.Handler.{Http, RawHeaders, collect_headers, forward_headers}

-- The documented behaviour of the HTTP library: a status is a number from 100 to 999, and the
-- content type of JSON is a header.
pub record HttpLaws (http : Http) : Type 0 where
  pub status_iff : (s : ℕ) → (http.valid_status s ≡ true) ↔ ((100 ≤ s) × (s < 1000))
  pub json_header : http.valid_header "content-type" "application/json" ≡ true

-- The documented behaviour of `String::from_utf8_lossy`: UTF-8 stays as it is, the result is UTF-8,
-- and something stands for every byte that is none.
pub record LossyLaws (from_utf8_lossy : Bytes → Bytes) : Type 0 where
  pub keeps : (bs : Bytes) → is_utf8 bs ≡ true → from_utf8_lossy bs ≡ bs
  pub is_text : (bs : Bytes) → is_utf8 (from_utf8_lossy bs) ≡ true
  pub nonempty : (bs : Bytes) → from_utf8_lossy bs ≡ [] → bs ≡ []

-- The headers that the handler collects, of a request and of an answer, have distinct names in
-- lower case.
collect_headers-IsValid :
    (lower : String → String) (raw : RawHeaders) (headers : StrMap String)
    → Idempotent lower
    → IsMap headers
    → IsLower lower headers
    → IsMap (collect_headers lower raw headers) × IsLower lower (collect_headers lower raw headers)
unfolding collect_headers
collect_headers-IsValid lower [] headers idem m l = (m, l)
collect_headers-IsValid lower ((k, none) ∷ raw) headers idem m l =
    collect_headers-IsValid lower raw headers idem m l
collect_headers-IsValid lower ((k, some v) ∷ raw) headers idem m l =
    collect_headers-IsValid lower raw (insert (lower k) v headers) idem
      (insert-IsMap (lower k) v headers m) (insert-IsLower lower (lower k) v headers (idem k) l)

-- The request to the upstream names the client's address and the proxy, whatever the plugins wrote
-- under these two names, and has every other header as the plugins left it.
lookup-forward_headers :
    (ip k : String) (headers : StrMap String)
    → lookup k (forward_headers ip headers) ≡ (
        if str_eq "x-proxy" k
        then some "rust-lua-proxy/0.1"
        else if str_eq "x-forwarded-for" k
        then some ip
        else lookup k headers)
unfolding forward_headers
lookup-forward_headers ip k headers = ground (
  arith,
  lookup-insert "x-proxy" k "rust-lua-proxy/0.1" (insert "x-forwarded-for" ip headers),
  lookup-insert "x-forwarded-for" k ip headers,
)
