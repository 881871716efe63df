-- ===== src/HostApi/Effects.antt =====
-- Which host functions of the tables of src/http/ngx_http_wasm_api_wasmtime.h and
-- src/http/ngx_http_wasm_api_wasmedge.h can change a request.
use Prim.Native.String.{String}
use text.Mathlib.Text.{◌==◌ as str_eq}
use wasm_nginx_module.Prelude.{
  ℕ, ◌≡◌, refl, ap, sym, ◌∙◌, Bool, false, ◌||◌, List, Option, some, get_elem?, map, All,
}
use wasm_nginx_module.Run.{Run, ok, fault, out_of_fuel, and_then}
use wasm_nginx_module.Vm.{Engine}
use wasm_nginx_module.Host.{Host, Nginx, Request, WasmState, MainConf, ProxyResult}
use wasm_nginx_module.HostApi.{i32s, Api, FuncType}
use wasm_nginx_module.HostApi.Declared.{HostApiDef, Prototype, prototype, declared}
use wasm_nginx_module.HostApi.Wasmtime.{Val, kind, host_apis, host_api_func}
use wasm_nginx_module.HostApi.Agreement.{Implements, kinds, answer, ◌&◌, host_apis-Implements}
use wasm_nginx_module.HostApi.Functions.{host_functions}
pub use wasm_nginx_module.HostApi.Every.{
  Every, Every-apply, Every-map, Pairwise-get_elem?, All-get_elem?,
}
use wasm_nginx_module.HostApi.Frames.{Frames, IfEnds, IgnoresPlugin, ok-Frames}
use wasm_nginx_module.HostApi.Readers.{
  get_buffer_bytes-Frames, get_configuration-Frames, get_header_map_value-Frames,
  get_property-Frames,
}
use wasm_nginx_module.HostApi.ReadPairs.{get_header_map_pairs-Frames}
use wasm_nginx_module.HostApi.Writers.{IgnoresLog, IgnoresCall, log-Frames, http_call-Frames}

pub answer-IfEnds :
    (Q : Host → Type 0) (r : Run Host ProxyResult)
    → IfEnds (λ _. Q) r
    → IfEnds (λ _. Q) (and_then r answer)
answer-IfEnds Q (ok a h) q = q
answer-IfEnds Q fault q = tt
answer-IfEnds Q out_of_fuel q = q

-- The names of the host functions that write the request.
unfoldable pub writes_request : String → Bool
writes_request name =
    str_eq name "proxy_set_property"
    || (str_eq name "proxy_send_local_response"
        || (str_eq name "proxy_send_http_response"
            || (str_eq name "proxy_remove_header_map_value"
                || (str_eq name "proxy_replace_header_map_value"
                    || str_eq name "proxy_add_header_map_value"))))

pub ruleset row_rules = (
  ok-Frames, log-Frames, get_buffer_bytes-Frames, get_configuration-Frames,
  get_header_map_value-Frames, get_property-Frames, get_header_map_pairs-Frames, http_call-Frames,
)

module _ {X : Type 0} {view : Host → X} (free : IgnoresPlugin view) (log : IgnoresLog view)
    (calls : IgnoresCall view) (e : Engine) (ng : Nginx) where
  -- What holds of every row: what follows from keeping a view, and what the six rows have that write
  -- the request or the response.
  pub rows-Every :
      (Q : Prototype → Type 0)
      → ((p : Prototype) → Every (Frames view) p.shape p.function → Q p)
      → Q (prototype "proxy_set_property" (i32s 4) (host_functions e ng).proxy_set_property)
      → Q (
          prototype "proxy_send_local_response"
            (i32s 8)
            (host_functions e ng).proxy_send_local_response)
      → Q (
          prototype "proxy_send_http_response"
            (i32s 8)
            (host_functions e ng).proxy_send_http_response)
      → Q (
          prototype "proxy_remove_header_map_value"
            (i32s 3)
            (host_functions e ng).proxy_remove_header_map_value)
      → Q (
          prototype "proxy_replace_header_map_value"
            (i32s 5)
            (host_functions e ng).proxy_replace_header_map_value)
      → Q (
          prototype "proxy_add_header_map_value"
            (i32s 5)
            (host_functions e ng).proxy_add_header_map_value)
      → All Q (declared (host_functions e ng))
  unfolding declared host_functions
  rows-Every Q calm property response http_response removed replaced added =
      calm _ (search row_rules)
      & calm _ (search row_rules)
      & property
      & calm _ (search row_rules)
      & calm _ (search row_rules)
      & calm _ (search row_rules)
      & response
      & http_response
      & calm _ (search row_rules)
      & calm _ (search row_rules)
      & calm _ (search row_rules)
      & calm _ (search row_rules)
      & calm _ (search row_rules)
      & calm _ (search row_rules)
      & removed
      & replaced
      & added
      & calm _ (search row_rules)
      & calm _ (search row_rules)
      & calm _ (search row_rules)
      & calm _ (search row_rules)
      & calm _ (search row_rules)
      & calm _ (search row_rules)
      & calm _ (search row_rules)
      & calm _ (search row_rules)
      & calm _ (search row_rules)
      & calm _ (search row_rules)
      & calm _ (search row_rules)
      & calm _ (search row_rules)
      & calm _ (search row_rules)
      & calm _ (search row_rules)
      & calm _ (search row_rules)
      & calm _ (search row_rules)
      & calm _ (search row_rules)
      & calm _ (search row_rules)
      & calm _ (search row_rules)
      & calm _ (search row_rules)
      & calm _ (search row_rules)
      & calm _ (search row_rules)
      & calm _ (search row_rules)
      & calm _ (search row_rules)
      & tt

  -- The rows whose function keeps a view.
  rows-Frames :
      All
        (λ p. writes_request p.name ≡ false → Every (Frames view) p.shape p.function)
        (declared (host_functions e ng))
  unfolding writes_request
  rows-Frames =
      rows-Every _ (λ p every writes. every) (λ writes. absurd (cc)) (λ writes. absurd (cc))
        (λ writes. absurd (cc)) (λ writes. absurd (cc)) (λ writes. absurd (cc))
        (λ writes. absurd (cc))

-- The members of the host that only a few host functions write.
abbrev pub Kept : Type 0
Kept = Option WasmState × Request × MainConf

abbrev pub kept : Host → Kept
kept h = (h.cur_state, h.r, h.wmcf)

kept_plugin : IgnoresPlugin kept
kept_plugin = record { ignores = λ h p. refl }

kept_log : IgnoresLog kept
kept_log = record { ignores = λ h l. refl }

kept_calls : IgnoresCall kept
kept_calls = record { ignores = λ h c n. refl }

-- The prototype that a row of the table implements.
pub row_of :
    (d : HostApiDef) (i : ℕ) (api : Api Val)
    → get_elem? (host_apis d) i ≡ some api
    → (p : Prototype) × (get_elem? (declared d) i ≡ some p) × Implements p api
row_of d i api at =
    Pairwise-get_elem? Implements (declared d) (host_apis d) i api (host_apis-Implements d) at

pub params-kinds :
    (p : Prototype) (api : Api Val) (args : List Val)
    → Implements p api
    → map kind args ≡ (host_api_func api).params
    → map kind args ≡ kinds p.shape
params-kinds p api args row k = k ∙ ap (λ (t : FuncType). t.params) row.typed

-- Whatever arguments of its types a host function is called with through the table, and whatever the
-- plugin's allocator answers: if its name is not one that `writes_request` lists, then the call comes
-- to an end, and where it returns, the request, the current state and the response that a plugin asked for
-- are what they were.
pub host_apis-kept :
    (e : Engine) (ng : Nginx) (i : ℕ) (api : Api Val) (args : List Val) (h : Host)
    → get_elem? (host_apis (host_functions e ng)) i ≡ some api
    → writes_request api.name ≡ false
    → map kind args ≡ (host_api_func api).params
    → IfEnds (λ _ h'. kept h' ≡ kept h) (api.cb args h)
host_apis-kept e ng i api args h at reads k =
    let d = host_functions e ng in
    let (p, at', row) = row_of d i api at in
    let k' = params-kinds p api args row k in
    let every =
      All-get_elem? _ (declared d) i p (rows-Frames kept_plugin kept_log kept_calls e ng) at'
        (ap writes_request (sym row.named) ∙ reads) in
    rw (row.runs args h k') (
      answer-IfEnds (λ h'. kept h' ≡ kept h) _
        ((Every-apply (Frames kept) p.shape p.function args every k').keeps h))
