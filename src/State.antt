-- ===== src/State.antt =====
-- src/http/ngx_http_wasm_state.c: the state that the host functions find, of the plugin context that
-- runs. A state is an object that its plugin or plugin context owns; `cur_state` points to one.
pub mod Laws
use wasm_nginx_module.Prelude.{
  ℕ, Bool, true, false, List, [], Option, none, some, ◌==◌, if◌then◌else◌,
}
use wasm_nginx_module.Run.{Run, M, ok, fault, pure, ◌>>=◌}
use wasm_nginx_module.Host.{WasmState, Host, ProxyResult, bad_argument}

pub record States : Type 0 where
  pub cur_state : Option ℕ
  pub object : ℕ → WasmState

abbrev pub update_object : States → ℕ → WasmState → States
update_object s p o = record s { object = λ q. if q == p then o else s.object q }

-- `ngx_http_wasm_set_state`. To clear the state when there is none is a write through NULL.
unfoldable pub set_state : Option ℕ → M States (Unit {0})
set_state (some state) s = ok tt (record s { cur_state = some state })
set_state none s = elim s.cur_state [
  | none ↦ fault
  | some p ↦
      ok tt (record (update_object s p (record (s.object p) { body = [] })) { cur_state = none })
]

-- The state as a host function finds it.
unfoldable pub current : States → Option WasmState
current s = elim s.cur_state [ none ↦ none | some p ↦ some (s.object p) ]

-- The getters; `none` is NULL.
unfoldable pub get_conf : Option WasmState → Option (List ℕ)
get_conf none = none
get_conf (some s) = some s.conf

unfoldable pub get_req : Option WasmState → Bool
get_req none = false
get_req (some s) = s.has_req

-- `ngx_http_wasm_get_log`: whether it gives the log of the request's connection, not the cycle's.
unfoldable pub get_log : Option WasmState → Bool
get_log none = false
get_log (some s) = s.has_req

unfoldable pub get_plugin_name : Option WasmState → Option (List ℕ)
get_plugin_name none = none
get_plugin_name (some s) = some s.plugin_name

unfoldable pub get_body : Option WasmState → Option (List ℕ)
get_body none = none
get_body (some s) = some s.body

-- `must_get_req`: the rest of a host function runs only with a request.
unfoldable pub must_get_req : M Host ProxyResult → M Host ProxyResult
unfolding get_req
must_get_req rest h = if get_req h.cur_state then rest h else ok bad_argument h
