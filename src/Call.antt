-- ===== src/Call.antt =====
-- src/http/ngx_http_wasm_call.c: the HTTP call that a plugin asks for is kept in the context of the
-- request, and taken out by the Lua code that makes it.
pub mod Loop
pub mod Count
pub mod Laws
pub mod Get
use wasm_nginx_module.Prelude.{
  ℕ, zero, suc, ◌+◌, ◌-◌, ◌%◌, Bool, true, false, List, [], ◌∷◌, ◌++◌, Option, none, some, length,
  if◌then◌else◌, ◌==◌,
}
use wasm_nginx_module.Words.{u32, is_neg32, add32}
use wasm_nginx_module.Run.{Run, M, ok, fault, out_of_fuel, pure, undefined, ◌>>=◌, ◌>>◌}
use wasm_nginx_module.Memory.{Memory}
use wasm_nginx_module.Map.{Iter, Entry, Next, done, entry, init_iter, next}
use wasm_nginx_module.Map.Layout.{Header}
use wasm_nginx_module.Map.Walk.{entry_texts}
use wasm_nginx_module.Vm.{ngx_ok, ngx_error}
use wasm_nginx_module.Host.{Host, Nginx, Callout}
use wasm_nginx_module.Pseudo.{
  Pseudo, scheme, path, method, authority, status, PseudoHeader, pseudo_header, find_pseudo, bytes,
  starts_with_colon,
}

-- NGX_DECLINED, -5.
abbrev pub ngx_declined : ℕ
ngx_declined = u32 - 5

-- `ngx_http_wasm_call_register`: a return code, and the id where the code is NGX_OK.
unfoldable pub call_register : Nginx → List ℕ → Option Memory → Option (List ℕ) → ℕ → M Host (ℕ × ℕ)
call_register ng up map_data body timeout h = elim h.ctx.callout [
  | some c ↦ ok (ngx_error, 0) h
  | none ↦
      let h' : Host = record h { plugin = record { mem = h.mem; tick = suc h.tick } } in
      if ng.palloc h.tick 32
      then (if is_neg32 timeout
          then ok (ngx_error, 0) h'
          else ok (ngx_ok, h.cur_callout_id)
              (record h' {
                ctx = record (h.ctx) {
                  callout =
                      some (record {
                        timeout_ms = timeout;
                        up = up;
                        map_data = map_data;
                        body = body;
                      });
                  callout_id = h.cur_callout_id;
                };
                cur_callout_id = add32 h.cur_callout_id 1;
              }))
      else ok (ngx_declined, 0) h'
]

-- A function on the callout's map, which is a block of its own; NULL where there were no headers.
unfoldable pub on_map : {A : Type 0} → Option Memory → M Memory A → M Host A
on_map none f h = fault
on_map (some m) f h = elim (f m) [ ok a m' ↦ ok a h | fault ↦ fault | out_of_fuel ↦ out_of_fuel ]

-- `ngx_http_wasm_call_max_headers_count`.
unfoldable pub count_headers : Option Callout → M Host ℕ
count_headers none = undefined
count_headers (some c) = do it ← on_map c.map_data (init_iter 0); pure it.len

unfoldable pub max_headers_count : M Host ℕ
unfolding count_headers
max_headers_count h = count_headers h.ctx.callout h

-- The out parameters of `ngx_http_wasm_call_get`. The caller's `path`, `method` and `scheme` come in
-- with what they held before.
pub record CallOut : Type 0 where
  pub method : List ℕ
  pub scheme : List ℕ
  pub host : List ℕ
  pub path : List ℕ
  pub headers : List Header
  pub body : List ℕ
  pub timeout : ℕ

-- `proxy_wasm_pseudo_headers`.
abbrev pub call_table : List PseudoHeader
call_table =
    pseudo_header ":path" path
    ∷ pseudo_header ":method" method
    ∷ pseudo_header ":scheme" scheme
    ∷ pseudo_header ":authority" authority
    ∷ []

-- `headers->key = ...; headers->value = ...; headers++`.
abbrev pub push_header : CallOut → List ℕ → List ℕ → CallOut
push_header o k v = record o { headers = o.headers ++ (record { key = k; value = v } ∷ []) }

-- The switch on the type of a pseudo header.
unfoldable pub set_pseudo : Pseudo → Header → CallOut → CallOut
set_pseudo path h o = record o { path = h.value }
set_pseudo method h o = record o { method = h.value }
set_pseudo scheme h o = record o { scheme = h.value }
set_pseudo authority h o = push_header o (bytes "host") h.value
set_pseudo status h o = push_header o h.key h.value

-- The body of the loop of `ngx_http_wasm_call_get`, for an entry whose key is not empty.
unfoldable pub take_header : Nginx → Header → CallOut → CallOut
unfolding set_pseudo
take_header ng h o =
    if starts_with_colon h.key
    then (elim (find_pseudo ng call_table h.key) [
      | some ty ↦ set_pseudo ty h o
      | none ↦ push_header o h.key h.value
    ])
    else push_header o h.key h.value

-- The loop. An entry with an empty key is passed over.
unfoldable pub call_loop : Nginx → ℕ → Iter → CallOut → M Memory CallOut
unfolding next
call_loop ng zero it o = λ m. out_of_fuel
call_loop ng (suc k) it o = do
  n ← next it
  elim n [
    | done ↦ pure o
    | entry e it' ↦
        let rest = call_loop ng k it' o in
        if e.key_len == 0
        then rest
        else (do h ← entry_texts e; call_loop ng k it' (take_header ng h o))
  ]

-- `ngx_http_wasm_call_get`. The loop gets as many rounds as the map has entries, and one.
unfoldable pub call_get : Nginx → CallOut → M Host CallOut
unfolding on_map
call_get ng old h = elim h.ctx.callout [
  | none ↦ fault
  | some c ↦
      (do
        it ← on_map c.map_data (init_iter 0)
        o ← on_map c.map_data (
            call_loop ng (suc it.len) it
              (record old { host = c.up; timeout = c.timeout_ms; headers = [] }))
        pure (record o { body = elim c.body [ none ↦ [] | some b ↦ b ] }))
        (record h { ctx = record (h.ctx) { callout = none } })
]
