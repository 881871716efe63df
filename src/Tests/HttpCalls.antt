-- ===== src/Tests/HttpCalls.antt =====
-- The theorems on `proxy_http_call`, at a plugin that asks for a call with a map, and without one.
use wasm_nginx_module.Prelude.{◌≡◌, refl, [], ◌∷◌, ◌++◌, arith}
use wasm_nginx_module.Run.{ok, fault, Returns}
use wasm_nginx_module.Memory.{Memory, word, read}
use wasm_nginx_module.Words.{of_le32}
use wasm_nginx_module.Host.{Host, Nginx, result_ok}
use wasm_nginx_module.State.{get_req}
use wasm_nginx_module.Call.{CallOut, call_get, max_headers_count}
use wasm_nginx_module.Call.Get.{taken}
use wasm_nginx_module.HttpCall.{http_call, is_yieldable}
use wasm_nginx_module.HttpCall.Laws.{
  Registers, HeadersAt, Told, Delivered, http_call-call_get, http_call_without_headers,
}
use wasm_nginx_module.Tests.Data.{host, nginx}
use wasm_nginx_module.Tests.Calls.{headers, nth, map_bytes, before}

-- The map, the upstream `h`, and the body `x`, one behind the other.
abbrev pub memory : Memory
memory = record { size = 256; byte = nth (map_bytes ++ 104 ∷ 120 ∷ []) }

abbrev pub asking : Host
asking = record host { plugin = record { mem = memory; tick = 0 } }

-- nginx in the rewrite phase.
abbrev rewriting : Nginx
rewriting = record nginx { get_phase = λ r. 2 }

registers : Registers rewriting asking 32 1 33 1 500 40
unfolding is_yieldable get_req
registers = record {
  req = refl;
  yieldable = refl;
  room = λ n size. refl;
  free = refl;
  up = record { fits = omega arith; low = omega arith };
  url = refl;
  body = λ e. record { fits = omega arith; low = omega arith };
  not_negative = omega arith;
  cell = record { fits = omega arith; low = omega arith };
}

pub headers_at : HeadersAt asking headers 0
unfolding word read of_le32
headers_at = record {
  inside = record { fits = omega arith; low = omega arith };
  is_map = record {
    count = refl;
    entries = (
      record {
        key_len = refl;
        val_len = refl;
        key = refl;
        key_nul = refl;
        val = refl;
        val_nul = refl;
      },
      (
        record {
          key_len = refl;
          val_len = refl;
          key = refl;
          key_nul = refl;
          val = refl;
          val_nul = refl;
        },
        tt,
      ),
    );
  };
}

http_call-call_get_example :
    Returns
      (λ res h'.
        (res ≡ result_ok)
        × Told asking h' 40
        × ((o : CallOut) × (call_get rewriting before h' ≡ ok o (taken h'))
            × Delivered rewriting asking headers 32 1 33 1 500 before o))
      (http_call rewriting 32 1 0 32 33 1 500 40 asking)
http_call-call_get_example =
    http_call-call_get rewriting asking headers 32 1 0 33 1 500 40 before registers headers_at

http_call_without_headers_example :
    Returns
      (λ res h'.
        (res ≡ result_ok)
        × Told asking h' 40
        × (call_get rewriting before h' ≡ fault)
        × (max_headers_count h' ≡ fault))
      (http_call rewriting 32 1 0 0 33 1 500 40 asking)
http_call_without_headers_example =
    http_call_without_headers rewriting asking 32 1 0 0 33 1 500 40 before registers refl
