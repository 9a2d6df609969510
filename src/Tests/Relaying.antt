-- ===== src/Tests/Relaying.antt =====
-- Examples of requests that are handled without plugins.
use dgsw_class_pg_proxy.Prelude.{◌≡◌, refl, some, [], ◌∷◌, str_eq, concat}
use dgsw_class_pg_proxy.Prelude.Maps.{insert}
use dgsw_class_pg_proxy.Prelude.Text.{trim_end_slashes}
use dgsw_class_pg_proxy.Lua.Base64.{utf8_from}
use dgsw_class_pg_proxy.Handler.{Request, collect_headers}
use dgsw_class_pg_proxy.Handler.Relay.{relay}
use dgsw_class_pg_proxy.Tests.{same_text, lossy, http, request}

abbrev home : Request
home = record request { path = "/" }

-- What comes back from a home page, and from a page that is gone.
home_relayed :
    relay same_text lossy http home [] [] "10.0.0.1" (some "http://one/")
    ≡ some (record { status = 200; headers = []; body = 104 ∷ 105 ∷ [] })
unfolding collect_headers concat trim_end_slashes str_eq utf8_from insert
home_relayed = refl
