-- ===== src/Lua/Context.antt =====
-- src/lua/context.rs. The mutex around the context is a value that each method returns anew. Texts
-- that are bodies are lists of bytes. `to_lowercase`, which follows the tables of Unicode, is a
-- parameter. A number of the script that is no `u16` makes the binding raise an error before the
-- method's body runs.
pub mod Laws
pub mod Valid
use dgsw_class_pg_proxy.Prelude.{
  ℕ, ◌^◌, String, Bool, true, false, Option, none, some, List, [], ◌∷◌, ltb, if◌then◌else◌,
}
use dgsw_class_pg_proxy.Prelude.Maps.{StrMap, lookup, insert}
use dgsw_class_pg_proxy.Prelude.Text.{Bytes}

pub record RequestCtx : Type 0 where
  pub req_method : String
  pub req_path : String
  pub req_headers : StrMap String
  pub req_body : Bytes
  pub client_ip : String
  pub res_status : ℕ
  pub res_headers : StrMap String
  pub res_body : Bytes
  pub vars : StrMap String
  pub rejected : Option (ℕ × String)

unfoldable pub new_ctx : String → String → StrMap String → Bytes → String → RequestCtx
new_ctx method path headers body client_ip = record {
  req_method = method;
  req_path = path;
  req_headers = headers;
  req_body = body;
  client_ip = client_ip;
  res_status = 200;
  res_headers = [];
  res_body = [];
  vars = [];
  rejected = none;
}

abbrev pub is_some {ℓ} : {A : Type ℓ} → Option A → Bool
is_some none = false
is_some (some a) = true

abbrev pub is_rejected : RequestCtx → Bool
is_rejected c = is_some c.rejected

abbrev pub upstream_var : String
upstream_var = "__upstream__"

-- The fields and methods of the userdata `LuaCtx`, with a script's arguments.
pub data Method : Type 0 where
  req res vars : Method
  reject : ℕ → String → Method
  set_var : String → String → Method
  get_var : String → Method
  set_req_header : String → String → Method
  set_res_header : String → String → Method
  set_res_status : ℕ → Method
  get_req_header : String → Method
  upstream : String → Method

-- The tables that the three fields give.
pub record ReqTable : Type 0 where
  pub method : String
  pub path : String
  pub body : Bytes
  pub ip : String
  pub headers : StrMap String

pub record ResTable : Type 0 where
  pub status : ℕ
  pub body : Bytes
  pub headers : StrMap String

-- What a script gets back: `nil`, a text, a table, or an error that the binding raises.
pub data Answer : Type 0 where
  nil raised : Answer
  text : String → Answer
  req_table : ReqTable → Answer
  res_table : ResTable → Answer
  vars_table : StrMap String → Answer

abbrev pub of_option : Option String → Answer
of_option none = nil
of_option (some s) = text s

abbrev pub u16_mod : ℕ
u16_mod = 2 ^ 16

module _ (to_lowercase : String → String) where
  -- `for (k, v) in headers { h.set(k.to_lowercase(), v) }`.
  unfoldable pub set_lowercase : StrMap String → StrMap String → StrMap String
  set_lowercase [] table = table
  set_lowercase ((k, v) ∷ headers) table = set_lowercase headers (insert (to_lowercase k) v table)

  unfoldable pub req_field : RequestCtx → ReqTable
  unfolding set_lowercase
  req_field c = record {
    method = c.req_method;
    path = c.req_path;
    body = c.req_body;
    ip = c.client_ip;
    headers = set_lowercase c.req_headers [];
  }

  unfoldable pub res_field : RequestCtx → ResTable
  unfolding set_lowercase
  res_field c = record {
    status = c.res_status;
    body = c.res_body;
    headers = set_lowercase c.res_headers [];
  }

  unfoldable pub set_vars : StrMap String → StrMap String → StrMap String
  set_vars [] table = table
  set_vars ((k, v) ∷ given) table = set_vars given (insert k v table)

  abbrev with_u16 : ℕ → RequestCtx → RequestCtx → Answer × RequestCtx
  with_u16 status c changed = if ltb status u16_mod then (nil, changed) else (raised, c)

  -- One access of a script to the context.
  unfoldable pub apply : Method → RequestCtx → Answer × RequestCtx
  unfolding req_field res_field set_vars
  apply req c = (req_table (req_field c), c)
  apply res c = (res_table (res_field c), c)
  apply vars c = (vars_table (set_vars c.vars []), c)
  apply (reject status msg) c = with_u16 status c (record c { rejected = some (status, msg) })
  apply (set_var k v) c = (nil, record c { vars = insert k v c.vars })
  apply (get_var k) c = (of_option (lookup k c.vars), c)
  apply (set_req_header k v) c =
      (nil, record c { req_headers = insert (to_lowercase k) v c.req_headers })
  apply (set_res_header k v) c =
      (nil, record c { res_headers = insert (to_lowercase k) v c.res_headers })
  apply (set_res_status status) c = with_u16 status c (record c { res_status = status })
  apply (get_req_header k) c = (of_option (lookup (to_lowercase k) c.req_headers), c)
  apply (upstream name) c = (nil, record c { vars = insert upstream_var name c.vars })

-- What a piece of Lua code does, as far as the context can tell: it ends with a value, or accesses
-- the context and goes on by the answer.
pub data Script (A : Type 0) : Type 0 where
  finish : A → Script A
  access : Method → (Answer → Script A) → Script A

unfoldable pub run_script :
    {A : Type 0} → (String → String) → Script A → RequestCtx → A × RequestCtx
run_script lower (finish a) c = (a, c)
run_script lower (access m k) c =
    let (answer, c') = apply lower m c in run_script lower (k answer) c'
