-- ===== src/Lua/Context/Laws.antt =====
-- context.rs: what plugins can and cannot do to a context.
use dgsw_class_pg_proxy.Prelude.{◌⊎◌, ◌≡◌, String, true, false, arith}
use dgsw_class_pg_proxy.Lua.Context.{
  RequestCtx, is_rejected, Method, req, apply, Script, finish, access, run_script,
}

-- The parts of the request that no method writes.
pub record SameRequest (c d : RequestCtx) : Type 0 where
  pub method : d.req_method ≡ c.req_method
  pub path : d.req_path ≡ c.req_path
  pub body : d.req_body ≡ c.req_body
  pub ip : d.client_ip ≡ c.client_ip

-- Nor does a method write the body of the response, or take a rejection back.
pub record Extends (c d : RequestCtx) : Type 0 where
  pub request : SameRequest c d
  pub res_body : d.res_body ≡ c.res_body
  pub rejection : (is_rejected c ≡ false) ⊎ (is_rejected d ≡ true)

pub Extends-refl : (c : RequestCtx) → Extends c c
Extends-refl c = ground arith

pub Extends-trans : {c d e : RequestCtx} → Extends c d → Extends d e → Extends c e
Extends-trans p q = ground arith

pub apply-Extends :
    (lower : String → String) (m : Method) (c : RequestCtx) → Extends c (apply lower m c).1
unfolding apply
apply-Extends lower req c = Extends-refl c
apply-Extends lower m c = ground arith

-- Whatever a script does, the method, the path, the body and the address of the request and the
-- body of the response stay as they were, and a rejected request stays rejected.
pub run_script-Extends :
    {A : Type 0} (lower : String → String) (p : Script A) (c : RequestCtx)
    → Extends c (run_script lower p c).1
unfolding run_script
run_script-Extends lower (finish a) c = Extends-refl c
run_script-Extends lower (access m k) c =
    Extends-trans (apply-Extends lower m c)
      (run_script-Extends lower (k (apply lower m c).0) (apply lower m c).1)
