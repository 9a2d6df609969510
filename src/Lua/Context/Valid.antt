-- ===== src/Lua/Context/Valid.antt =====
-- context.rs: the invariant of a context, and the two ways to read a header.
use dgsw_class_pg_proxy.Prelude.{
  ℕ, ◌<◌, ◌≡◌, refl, sym, ap, String, inl, inr, Option, none, some, [], ◌∷◌, arith, str_eq,
  str_eq_iff, if◌then◌else◌, Bool-cases,
}
use dgsw_class_pg_proxy.Prelude.Maps.{StrMap, lookup, insert, lookup-insert}
use dgsw_class_pg_proxy.Lua.Context.{
  RequestCtx, upstream_var, Method, req, res, vars, reject, set_var, get_var, set_req_header,
  set_res_header, set_res_status, get_req_header, upstream, text, u16_mod, set_lowercase, req_field,
  apply, of_option, Script, finish, access, run_script,
}

-- No key stands twice, as in every `HashMap`.
abbrev pub IsMap : StrMap String → Type 0
IsMap [] = Unit {0}
IsMap ((k, v) ∷ m) = (lookup k m ≡ none) × IsMap m

-- Every key is what `to_lowercase` makes of it.
abbrev pub IsLower : (String → String) → StrMap String → Type 0
IsLower lower [] = Unit {0}
IsLower lower ((k, v) ∷ m) = (lower k ≡ k) × IsLower lower m

pub insert-IsMap : (k v : String) (m : StrMap String) → IsMap m → IsMap (insert k v m)
unfolding insert lookup
insert-IsMap k v [] h = (refl, tt)
insert-IsMap k v ((j, w) ∷ m) h = elim (Bool-cases (str_eq j k)) [
  | inl same ↦ rw same h
  | inr other ↦ rw other (
    ground (arith, lookup-insert k j v m, str_eq_iff j k, str_eq_iff k j),
    insert-IsMap k v m h.1,
  )
]

pub insert-IsLower :
    (lower : String → String) (k v : String) (m : StrMap String)
    → lower k ≡ k
    → IsLower lower m
    → IsLower lower (insert k v m)
unfolding insert
insert-IsLower lower k v [] e h = (e, tt)
insert-IsLower lower k v ((j, w) ∷ m) e h = elim (Bool-cases (str_eq j k)) [
  | inl same ↦ rw same h
  | inr other ↦ rw other (h.0, insert-IsLower lower k v m e h.1)
]

abbrev pub RejectionInRange : Option (ℕ × String) → Type 0
RejectionInRange none = Unit {0}
RejectionInRange (some (status, msg)) = status < u16_mod

-- Header names are distinct and in lower case, and statuses fit a `u16`.
pub record IsValid (lower : String → String) (c : RequestCtx) : Type 0 where
  pub req_map : IsMap c.req_headers
  pub req_lower : IsLower lower c.req_headers
  pub res_map : IsMap c.res_headers
  pub res_lower : IsLower lower c.res_headers
  pub status : c.res_status < u16_mod
  pub rejection : RejectionInRange c.rejected

-- `to_lowercase` changes nothing in its own results.
abbrev pub Idempotent : (String → String) → Type 0
Idempotent lower = (s : String) → lower (lower s) ≡ lower s

abbrev or_else : Option String → Option String → Option String
or_else none b = b
or_else (some a) b = some a

or_else-none : (o : Option String) → or_else o none ≡ o
or_else-none none = refl
or_else-none (some a) = refl

module _ (lower : String → String) (idem : Idempotent lower) where
  pub apply-IsValid :
      (m : Method) (c : RequestCtx) → IsValid lower c → IsValid lower (apply lower m c).1
  unfolding apply
  apply-IsValid req c v = v
  apply-IsValid res c v = v
  apply-IsValid vars c v = v
  apply-IsValid (reject status msg) c v = ground arith
  apply-IsValid (set_var k w) c v = ground arith
  apply-IsValid (get_var k) c v = v
  apply-IsValid (set_req_header k w) c v = record {
    req_map = insert-IsMap (lower k) w c.req_headers v.req_map;
    req_lower = insert-IsLower lower (lower k) w c.req_headers (idem k) v.req_lower;
    res_map = v.res_map;
    res_lower = v.res_lower;
    status = v.status;
    rejection = v.rejection;
  }
  apply-IsValid (set_res_header k w) c v = record {
    req_map = v.req_map;
    req_lower = v.req_lower;
    res_map = insert-IsMap (lower k) w c.res_headers v.res_map;
    res_lower = insert-IsLower lower (lower k) w c.res_headers (idem k) v.res_lower;
    status = v.status;
    rejection = v.rejection;
  }
  apply-IsValid (set_res_status status) c v = ground arith
  apply-IsValid (get_req_header k) c v = v
  apply-IsValid (upstream name) c v = ground arith

  -- Whatever a script does, header names stay distinct and in lower case, and statuses stay within
  -- a `u16`.
  pub run_script-IsValid :
      {A : Type 0} (p : Script A) (c : RequestCtx)
      → IsValid lower c
      → IsValid lower (run_script lower p c).1
  unfolding run_script
  run_script-IsValid (finish a) c v = v
  run_script-IsValid (access m k) c v =
      run_script-IsValid (k (apply lower m c).0) (apply lower m c).1 (apply-IsValid m c v)

  lookup-set_lowercase :
      (k : String) (headers table : StrMap String)
      → IsMap headers
      → IsLower lower headers
      → lookup k (set_lowercase lower headers table) ≡ or_else (lookup k headers) (lookup k table)
  unfolding set_lowercase lookup
  lookup-set_lowercase k [] table d l = refl
  lookup-set_lowercase k ((j, w) ∷ headers) table d l = rw (l.0) (
      ground (
        arith,
        lookup-set_lowercase k headers (insert j w table) d.1 l.1,
        lookup-insert j k w table,
        str_eq_iff j k,
      ))

  -- A script that reads a header by `ctx.req.headers[k]`, at a name in lower case, gets what
  -- `ctx:get_req_header(k)` gives, or `nil` where that gives `nil`.
  req_field-get_req_header :
      (k : String) (c : RequestCtx)
      → IsValid lower c
      → lower k ≡ k
      → (apply lower (get_req_header k) c).0 ≡ of_option (lookup k (req_field lower c).headers)
  unfolding apply req_field lookup
  req_field-get_req_header k c v e =
      rw (e, lookup-set_lowercase k c.req_headers [] v.req_map v.req_lower)
        (ap of_option (sym (or_else-none (lookup k c.req_headers))))

-- A header that was set is read back under every spelling of its name, and the others are as
-- they were.
get_req_header-set_req_header :
    (lower : String → String) (j k v : String) (c : RequestCtx)
    → (apply lower (get_req_header j) (apply lower (set_req_header k v) c).1).0
      ≡ (if str_eq (lower k) (lower j) then text v else (apply lower (get_req_header j) c).0)
unfolding apply
get_req_header-set_req_header lower j k v c =
    ground (arith, lookup-insert (lower k) (lower j) v c.req_headers)

-- A variable that was set is read back, by its exact name; `upstream` sets "__upstream__".
get_var-set :
    (lower : String → String) (j k v : String) (c : RequestCtx)
    → ((apply lower (get_var j) (apply lower (set_var k v) c).1).0
        ≡ (if str_eq k j then text v else (apply lower (get_var j) c).0))
      × ((apply lower (get_var j) (apply lower (upstream v) c).1).0
          ≡ (if str_eq upstream_var j then text v else (apply lower (get_var j) c).0))
unfolding apply
get_var-set lower j k v c = (
  ground (arith, lookup-insert k j v c.vars),
  ground (arith, lookup-insert upstream_var j v c.vars),
)
