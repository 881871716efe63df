-- ===== src/Host.antt =====
-- What the host functions of src/http/ngx_http_wasm_api.c work on: the running plugin, the current
-- state of src/http/ngx_http_wasm_state.c, the request, the module's context of the request
-- (src/http/ngx_http_wasm_ctx.h), and its main configuration (src/http/ngx_http_wasm_module.h).
use wasm_nginx_module.Prelude.{ℕ, ◌≢◌, Bool, List, [], ◌∷◌, ◌++◌, Option, none, some, All}
use wasm_nginx_module.Run.{M, Run, ok, fault, out_of_fuel, pure, ◌>>=◌}
use wasm_nginx_module.Memory.{Memory, get_memory}
use wasm_nginx_module.Vm.{Plugin}
use wasm_nginx_module.Map.Layout.{Header}

-- `proxy_result_t`, the values that the host functions give.
pub data ProxyResult : Type 0 where
  result_ok not_found bad_argument invalid_memory_access internal_failure unimplemented :
      ProxyResult

-- `ngx_http_wasm_state_t`. `has_req` tells whether `r` is not NULL.
pub record WasmState : Type 0 where
  pub conf : List ℕ
  pub body : List ℕ
  pub has_req : Bool
  pub plugin_name : List ℕ

-- `ngx_table_elt_t`: a header of nginx. A `hash` of zero marks a header that was removed.
pub record TableElt : Type 0 where
  pub hash : ℕ
  pub key : List ℕ
  pub value : List ℕ

-- The parts of `ngx_list_t`: the first, and those behind it.
pub record Parts : Type 0 where
  pub part : List TableElt
  pub next : List (List TableElt)

-- The list that the parts of an `ngx_list_t` stand for.
abbrev pub elements : List TableElt → List (List TableElt) → List TableElt
elements part [] = part
elements part (part' ∷ next) = part ++ elements part' next

-- `ngx_list_push` makes a part when it has an element to put into it.
abbrev pub IsList : Parts → Type 0
IsList p = All (λ part. part ≢ []) p.next

-- The members of `ngx_http_request_t` that the module reads and writes.
pub record Request : Type 0 where
  pub uri : List ℕ
  pub unparsed_uri : List ℕ
  pub method_name : List ℕ
  pub internal : Bool
  pub valid_unparsed_uri : Bool
  pub valid_location : Bool
  pub uri_changed : Bool
  pub ssl : Bool
  pub err_status : ℕ
  pub status : ℕ
  -- `headers_in.host`, which is NULL for a request without that header
  pub host : Option (List ℕ)
  pub headers_in : Parts
  pub headers_out : Parts
  pub content_type : List ℕ
  -- whether `headers_out.content_length` is set, and `content_length_n` where it is not negative
  pub content_length : Bool
  pub content_length_n : Option ℕ
  pub keepalive : Bool
  pub chunked : Bool

-- `proxy_wasm_callout_t`. The map is a block of the request's pool; NULL if there were no headers.
pub record Callout : Type 0 where
  pub timeout_ms : ℕ
  pub up : List ℕ
  pub map_data : Option Memory
  pub body : Option (List ℕ)

-- `ngx_http_wasm_ctx_t`, less its list of HTTP contexts.
pub record ModuleCtx : Type 0 where
  pub callout : Option Callout
  pub callout_id : ℕ
  pub call_resp_headers : List Header
  pub call_resp_body : Option (List ℕ)

-- `ngx_http_wasm_main_conf_t`: the response that a plugin asked for. Of `body` the length and the
-- data are set at different times.
pub record MainConf : Type 0 where
  pub code : ℕ
  pub body_len : ℕ
  pub body_data : Option (List ℕ)

-- A call of `ngx_log_error` for a message of a plugin: its level, whether it goes to the log of the
-- request's connection or to that of the cycle, the pointer to the message, and its `int32_t` size.
pub record LogCall : Type 0 where
  pub level : ℕ
  pub of_request : Bool
  pub message : ℕ
  pub size : ℕ

pub record Host : Type 0 where
  pub plugin : Plugin
  pub open plugin use *
  pub cur_state : Option WasmState
  pub r : Request
  pub ctx : ModuleCtx
  pub wmcf : MainConf
  -- `cur_callout_id` of src/http/ngx_http_wasm_call.c
  pub cur_callout_id : ℕ
  -- the messages of plugins, the latest first
  pub logged : List LogCall

-- The functions of nginx and of lua-nginx-module that the host functions call. They are not in src/.
-- A result of type ℕ is the bit pattern of an `int`; `palloc` tells whether an allocation succeeds,
-- by the number of calls made so far and the size.
pub record Nginx : Type 0 where
  pub palloc : ℕ → ℕ → Bool
  pub parse_url : List ℕ → Bool
  pub get_phase : Request → ℕ
  -- `none` is NULL, `some none` a variable that is not found
  pub get_variable : Request → List ℕ → Option (Option (List ℕ))
  -- The value is NULL where there is none; the result holds the message of an error.
  pub set_variable : Request → List ℕ → Option (List ℕ) → ℕ × List ℕ × Request
  -- whether `ngx_log_error` reads arguments when it is given the text as its format
  pub takes_arguments : List ℕ → Bool
  pub get_req_headers_count : Request → ℕ
  pub get_req_headers : Request → Option (List Header)
  pub get_resp_header : Request → List ℕ → ℕ × List ℕ
  pub set_req_header : Request → List ℕ → Option (List ℕ) → Bool → ℕ × Request
  pub set_resp_header : Request → List ℕ → Bool → Option (List ℕ) → Bool → ℕ × Request
  pub set_resp_status : Request → ℕ → ℕ × Request
  pub atoi : List ℕ → Option ℕ
  -- `ngx_sprintf` with "%ui" or "%O" of a number that is not negative
  pub sprintf : ℕ → List ℕ
  -- whether `ngx_strncasecmp` of two texts of one length gives zero
  pub strncasecmp_eq : List ℕ → List ℕ → Bool
  pub strlow : List ℕ → List ℕ
  pub set_exten : Request → Request

-- The host with another memory in its plugin.
abbrev pub with_mem : Host → Memory → Host
with_mem h m = record h { plugin = record { mem = m; tick = h.tick } }

-- The host with another number of calls made so far.
abbrev pub ticked : Host → ℕ → Host
ticked h t = record h { plugin = record { mem = h.mem; tick = t } }

-- The host behind a run on its plugin's memory, or on its plugin.
abbrev pub after_mem : {A : Type 0} → Host → Run Memory A → Run Host A
after_mem h (ok a m) = ok a (with_mem h m)
after_mem h fault = fault
after_mem h out_of_fuel = out_of_fuel

abbrev pub after_plugin : {A : Type 0} → Host → Run Plugin A → Run Host A
after_plugin h (ok a p) = ok a (record h { plugin = p })
after_plugin h fault = fault
after_plugin h out_of_fuel = out_of_fuel

-- A C function on the plugin's memory, or on the plugin, as one on the host.
unfoldable pub on_mem : {A : Type 0} → M Memory A → M Host A
on_mem f h = after_mem h (f h.mem)

unfoldable pub on_plugin : {A : Type 0} → M Plugin A → M Host A
on_plugin f h = after_plugin h (f h.plugin)

-- `ngx_wasm_vm->get_memory`.
unfoldable pub get_mem : ℕ → ℕ → M Host (Option ℕ)
unfolding get_memory
get_mem addr size h = ok (get_memory h.mem addr size) h

-- `must_get_memory`: the rest of the function runs only where the range is in memory.
unfoldable pub must_get_memory : ℕ → ℕ → (ℕ → M Host ProxyResult) → M Host ProxyResult
unfolding get_mem
must_get_memory addr size rest = do
  p ← get_mem addr size
  elim p [ none ↦ pure invalid_memory_access | some q ↦ rest q ]
