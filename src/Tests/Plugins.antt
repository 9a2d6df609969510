-- ===== src/Tests/Plugins.antt =====
-- Examples of the plugins' context, of their pipelines, and of base64.
use dgsw_class_pg_proxy.Prelude.{
  ◌<◌, ◌≡◌, refl, String, true, false, Option, none, some, List, [], ◌∷◌, In, inl, inr, All, arith,
  if◌then◌else◌, str_eq, str_eq_iff,
}
use dgsw_class_pg_proxy.Prelude.Maps.{lookup, insert}
use dgsw_class_pg_proxy.Prelude.Text.{Bytes, codes}
use dgsw_class_pg_proxy.Config.{PluginsConfig}
use dgsw_class_pg_proxy.Lua.Context.{new_ctx, is_rejected, apply, run_script}
use dgsw_class_pg_proxy.Lua.Context.Laws.{Extends}
use dgsw_class_pg_proxy.Lua.Context.Valid.{IsValid}
use dgsw_class_pg_proxy.Lua.Engine.{
  Session, Outcome, nothing, attempt, chosen, run_on_request, run_on_route, run_on_transform,
  run_on_response, every_plugin, call_function, load_plugin, stops,
}
use dgsw_class_pg_proxy.Lua.Engine.Frame.{hooks-Extends, hooks-IsValid}
use dgsw_class_pg_proxy.Lua.Engine.Pipeline.{with_pipeline, Silent, on_request-rejects}
use dgsw_class_pg_proxy.Lua.Base64.{
  base64_encode, base64_decode, is_utf8, utf8_from, utf8_step, char_of, chars,
}
use dgsw_class_pg_proxy.Lua.Base64.RoundTrip.{base64_decode-encode}
use dgsw_class_pg_proxy.Tests.{same_text, vm, sources, plugins, ctx}

abbrev start : Session same_text vm
start = (none, ctx)

abbrev denied : Session same_text vm
denied = (some "deny", record ctx { vars = ("seen", "log") ∷ []; rejected = some (403, "no") })

abbrev run : List String → Session same_text vm
run names = run_on_request same_text vm (with_pipeline names sources) start

log_passes : is_rejected (run ("log.lua" ∷ [])).1 ≡ false
unfolding run_on_request attempt load_plugin call_function run_script apply lookup insert str_eq
    new_ctx stops
log_passes = refl

deny_called :
    attempt same_text vm "on_request" "deny.lua" sources (run ("log.lua" ∷ []))
    ≡ (some nothing, denied)
unfolding run_on_request attempt load_plugin call_function run_script apply lookup insert str_eq
    new_ctx stops
deny_called = refl

on_request-rejects_example : run ("log.lua" ∷ "deny.lua" ∷ "red.lua" ∷ []) ≡ denied
on_request-rejects_example =
    on_request-rejects same_text vm sources ("log.lua" ∷ []) ("red.lua" ∷ []) "deny.lua" start
      nothing denied log_passes deny_called refl

log-Silent : Silent same_text vm sources ("log.lua" ∷ []) start
unfolding attempt load_plugin call_function run_script apply lookup insert str_eq
log-Silent = (refl, tt)

abbrev routed : List String → Option String × Session same_text vm
routed names = run_on_route same_text vm (with_pipeline names sources) start

abbrev logged : Session same_text vm
logged = every_plugin same_text vm "on_route" ("log.lua" ∷ []) sources start

abbrev by_red : Option Outcome × Session same_text vm
by_red = attempt same_text vm "on_route" "red.lua" sources logged

red_chosen : chosen same_text vm by_red.0 ≡ some "red"
unfolding every_plugin attempt load_plugin call_function run_script apply lookup insert str_eq
red_chosen = refl

hooks-Extends_example :
    let srcs = plugins ("log.lua" ∷ "deny.lua" ∷ []) in
    Extends ctx (run_on_request same_text vm srcs start).1
    × Extends ctx (run_on_route same_text vm srcs start).1.1
    × Extends ctx (run_on_transform same_text vm srcs start).1
    × Extends ctx (run_on_response same_text vm srcs start).1
hooks-Extends_example = hooks-Extends same_text vm (plugins ("log.lua" ∷ "deny.lua" ∷ [])) start

ctx-IsValid : IsValid same_text ctx
unfolding new_ctx
ctx-IsValid = record {
  req_map = tt;
  req_lower = tt;
  res_map = tt;
  res_lower = tt;
  status = omega arith;
  rejection = tt;
}

hooks-IsValid_example :
    let srcs = plugins ("log.lua" ∷ "deny.lua" ∷ []) in
    IsValid same_text (run_on_request same_text vm srcs start).1
    × IsValid same_text (run_on_route same_text vm srcs start).1.1
    × IsValid same_text (run_on_transform same_text vm srcs start).1
    × IsValid same_text (run_on_response same_text vm srcs start).1
hooks-IsValid_example =
    hooks-IsValid same_text vm (λ s. refl) (plugins ("log.lua" ∷ "deny.lua" ∷ [])) start ctx-IsValid

abbrev files : String → Option String
files path = if str_eq path "plugins/log.lua" then some "log" else none

abbrev plugins_config : PluginsConfig
plugins_config = record { dir = "plugins"; pipeline = "log.lua" ∷ "gone.lua" ∷ [] }

not_listed : ¬ In "other.lua" plugins_config.pipeline
unfolding str_eq
not_listed (inl e) = ground (arith, str_eq_iff "other.lua" "log.lua")
not_listed (inr (inl e)) = ground (arith, str_eq_iff "other.lua" "gone.lua")
not_listed (inr (inr m)) = m

abbrev man : Bytes
man = codes "Man"

man_small : All (λ b. b < 256) man
man_small = (omega arith, (omega arith, (omega arith, tt)))

man_utf8 : is_utf8 man ≡ true
unfolding utf8_from utf8_step
man_utf8 = refl

man_encoded : base64_encode man ≡ codes "TWFu"
unfolding base64_encode char_of chars
man_encoded = refl

base64_decode-encode_example : base64_decode (base64_encode man) ≡ some man
base64_decode-encode_example = base64_decode-encode man man_small man_utf8 refl
