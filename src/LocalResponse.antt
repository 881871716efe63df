-- ===== src/LocalResponse.antt =====
-- `proxy_send_local_response` of src/http/ngx_http_wasm_api.c, with which a plugin answers a request
-- itself, and `ngx_http_wasm_fetch_local_body` of src/http/ngx_http_wasm_module.c, with which the Lua code
-- gets the body of that answer.
pub mod Laws
pub mod Clean
use wasm_nginx_module.Prelude.{
  ℕ, zero, suc, Bool, true, false, List, Option, none, some, if◌then◌else◌, ◌==◌,
}
use wasm_nginx_module.Words.{sext64}
use wasm_nginx_module.Run.{M, ok, out_of_fuel, pure, ◌>>=◌, ◌>>◌}
use wasm_nginx_module.Memory.{copy_out}
use wasm_nginx_module.Map.{Iter, done, entry, init_iter, next}
use wasm_nginx_module.Map.Walk.{entry_texts}
use wasm_nginx_module.Host.{
  Host, Nginx, MainConf, ProxyResult, result_ok, bad_argument, internal_failure, on_mem,
  must_get_memory,
}
use wasm_nginx_module.State.{must_get_req}
use wasm_nginx_module.SetHeader.{palloc, set_resp_header}
use wasm_nginx_module.HttpCall.{positive}

-- A change of `wmcf`.
abbrev pub set_conf : (MainConf → MainConf) → M Host (Unit {0})
set_conf f h = ok tt (record h { wmcf = f h.wmcf })

module _ (ng : Nginx) where
  -- The loop over the headers. The result tells whether all of them were set; the first that is not
  -- ends the loop.
  unfoldable pub set_headers : ℕ → Iter → M Host Bool
  unfolding next entry_texts set_resp_header on_mem
  set_headers zero it = λ h. out_of_fuel
  set_headers (suc k) it = do
    n ← on_mem (next it)
    elim n [
      | done ↦ pure true
      | entry e it' ↦ do
        h ← on_mem (entry_texts e)
        rc ← set_resp_header ng h.key false (some h.value) false
        let rest = set_headers k it'
        if rc then rest else pure false
    ]

  -- The branches on `headers_size` and `body_size`. The loop gets as many rounds as the map has
  -- entries, and one.
  unfoldable pub with_resp_headers : ℕ → ℕ → M Host ProxyResult → M Host ProxyResult
  unfolding set_headers init_iter must_get_memory
  with_resp_headers headers headers_size rest =
      let given = must_get_memory headers headers_size λ p. on_mem (init_iter p) >>= λ it.
      set_headers (suc it.len) it >>= λ set. if set then rest else pure bad_argument in
      if positive headers_size then given else rest

  unfoldable pub put_resp_body : ℕ → ℕ → M Host ProxyResult
  unfolding palloc must_get_memory
  put_resp_body body body_size =
      let copied : ℕ → M Host ProxyResult = λ p. on_mem (copy_out p body_size) >>= λ bs.
      set_conf (λ c. record c { body_data = some bs }) >> pure result_ok in
      let failed = set_conf (λ c. record c { body_data = none }) >> pure internal_failure in
      let given =
        must_get_memory body body_size
          λ p. palloc ng body_size >>= λ room. if room then copied p else failed in
      if positive body_size then given else pure result_ok

  -- `proxy_send_local_response`. The details and the status of gRPC are not used.
  unfoldable pub send_local_response : ℕ → ℕ → ℕ → ℕ → ℕ → M Host ProxyResult
  unfolding with_resp_headers put_resp_body must_get_req
  send_local_response res_code body body_size headers headers_size = must_get_req (
      set_conf (λ c. record c { code = res_code; body_len = sext64 body_size })
      >> with_resp_headers headers headers_size (put_resp_body body body_size))

  -- `proxy_send_http_response`.
  unfoldable pub send_http_response : ℕ → ℕ → ℕ → ℕ → ℕ → M Host ProxyResult
  unfolding send_local_response
  send_http_response = send_local_response

-- `ngx_http_wasm_fetch_local_body`: NULL, or the length and the data of the body.
unfoldable pub fetch_local_body : MainConf → Option (ℕ × Option (List ℕ))
fetch_local_body wmcf = if wmcf.body_len == 0 then none else some (wmcf.body_len, wmcf.body_data)
