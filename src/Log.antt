-- ===== src/Log.antt =====
-- `proxy_log` of src/http/ngx_http_wasm_api.c: a plugin writes a message to nginx's log.
pub mod Laws
use wasm_nginx_module.Prelude.{ℕ, Bool, List, ◌∷◌, if◌then◌else◌, ◌==◌}
use wasm_nginx_module.Run.{M, ok}
use wasm_nginx_module.Host.{Host, LogCall, ProxyResult, result_ok, must_get_memory}
use wasm_nginx_module.State.{get_log}

-- The switch on the level: PROXY_LOG_TRACE is 0 and PROXY_LOG_CRITICAL is 5. NGX_LOG_EMERG is 1,
-- NGX_LOG_ERR 4, NGX_LOG_WARN 5, NGX_LOG_INFO 7, and NGX_LOG_DEBUG 8.
unfoldable pub host_log_level : ℕ → ℕ
host_log_level log_level =
    if log_level == 5
    then 1
    else if log_level == 4
    then 4
    else if log_level == 3
    then 5
    else if log_level == 2
    then 7
    else if log_level == 1
    then 8
    else if log_level == 0
    then 8
    else 4

-- `ngx_log_error(level, log, 0, "%*s", size, p)`.
unfoldable pub write_log : ℕ → ℕ → ℕ → M Host ProxyResult
unfolding get_log
write_log level p size h =
    let entry : LogCall = record {
      level = level;
      of_request = get_log h.cur_state;
      message = p;
      size = size;
    } in
    ok result_ok (record h { logged = entry ∷ h.logged })

-- `proxy_log`.
unfoldable pub log : ℕ → ℕ → ℕ → M Host ProxyResult
unfolding host_log_level write_log must_get_memory
log log_level addr size = must_get_memory addr size λ p. write_log (host_log_level log_level) p size
