-- ===== src/Tests/LocalResponses.antt =====
-- The theorems on local responses, at a plugin with a map and a body in its memory.
use wasm_nginx_module.Prelude.{◌≡◌, refl, [], ◌∷◌, arith, some, none}
use wasm_nginx_module.Words.{add32, sext64}
use wasm_nginx_module.Run.{Returns}
use wasm_nginx_module.Memory.{read, get_memory}
use wasm_nginx_module.Host.{result_ok, invalid_memory_access}
use wasm_nginx_module.State.{get_req}
use wasm_nginx_module.LocalResponse.{send_local_response, fetch_local_body}
use wasm_nginx_module.LocalResponse.Laws.{
  set_all, send_local_response-fetch_local_body, send_local_response_stale,
}
use wasm_nginx_module.Tests.Data.{nginx}
use wasm_nginx_module.Tests.Calls.{headers}
use wasm_nginx_module.Tests.HttpCalls.{asking, headers_at}

send_local_response-fetch_local_body_example :
    Returns
      (λ res h'.
        (res ≡ result_ok)
        × (h'.r ≡ asking.r)
        × (h'.wmcf.code ≡ 403)
        × (fetch_local_body h'.wmcf ≡ some (1, some (120 ∷ [])))
        × (h'.mem ≡ asking.mem))
      (send_local_response nginx 403 33 1 0 32 asking)
unfolding get_req set_all read
send_local_response-fetch_local_body_example =
    send_local_response-fetch_local_body nginx asking headers 403 33 1 0 refl (λ k size. refl)
      headers_at (omega arith) refl (record { fits = omega arith; low = omega arith }) (omega arith)

send_local_response_stale_example :
    Returns
      (λ res h'.
        (res ≡ invalid_memory_access)
        × (h'.wmcf.code ≡ 403)
        × (fetch_local_body h'.wmcf ≡ some (40, none)))
      (send_local_response nginx 403 250 40 0 0 asking)
unfolding get_req get_memory add32 sext64
send_local_response_stale_example =
    send_local_response_stale nginx asking 403 250 40 0 0 refl refl refl refl
