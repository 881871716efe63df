-- ===== src/Tests/Contexts.antt =====
-- The theorems on the contexts, at a plugin at 0, its context at 1, and a request at 2.
use wasm_nginx_module.Prelude.{
  if◌then◌else◌, ◌==◌, ℕ, ◌≡◌, refl, ◌⊎◌, true, false, List, [], ◌∷◌, none, arith,
}
use wasm_nginx_module.Run.{ok, Returns}
use wasm_nginx_module.Vm.{Plugin}
use wasm_nginx_module.Contexts.{Store, World, no_state, delete_plugin_ctx}
use wasm_nginx_module.Contexts.Http.{fetch_http_ctx, http_request_headers, on_http, cleanup}
use wasm_nginx_module.Contexts.HttpLaws.{Asked}
use wasm_nginx_module.Contexts.FetchLaws.{Later, fetch_http_ctx-again}
use wasm_nginx_module.Contexts.CallbackLaws.{Left, on_http-Left}
use wasm_nginx_module.Contexts.CleanupLaws.{EndedAmong, delete_plugin_ctx-cleanup}
use wasm_nginx_module.Tests.Data.{zeros}

abbrev plugin : Plugin
plugin = record { mem = zeros; tick = 0 }

abbrev willing : World
willing = record {
  call = λ _ _. record { rc = 0; code = none; callout = false };
  alloc = λ _. true;
  array_push = λ _. true;
  uninitialised = [];
}

-- The store with the given HTTP contexts in use.
abbrev pub store : List ℕ → Store
store busy = record {
  plugin_at = λ _. record {
    cur_ctx_id = 1;
    abi_version = 1;
    occupied = 1 ∷ [];
    free = [];
    done = false;
    freed = false;
  };
  ctx_at = λ _. record {
    id = 1;
    hw_plugin = 0;
    has_pool = true;
    occupied = busy;
    free = [];
    done = false;
    conf = [];
    req = none;
    body = [];
  };
  http_at = λ _. record { id = 2; hwp_ctx = 1 };
  req_at = λ _. record { has_ctx = false; has_array = false; http_ctxs = []; callout = false };
  vm_inited = true;
  code = 0;
  next = 10;
  cur_state = no_state;
  calls = [];
  unloaded = [];
}

fetch_http_ctx-again_example :
    Returns
      (λ got s'.
        (s'.cur_state ≡ no_state)
        × Asked willing [] got s'.calls
        × ((got ≡ none)
            ⊎ ((t : Store) → Later willing 2 s' t → fetch_http_ctx willing 1 2 t ≡ ok got t)))
      (fetch_http_ctx willing 1 2 (store []))
fetch_http_ctx-again_example = fetch_http_ctx-again willing 1 2 (store []) tt λ n. refl

on_http-Left_example :
    Returns
      (Left willing 1 http_request_headers [])
      (on_http willing 1 2 http_request_headers none 0 1 (store []))
on_http-Left_example =
    on_http-Left willing 1 2 http_request_headers none 0 1 (store []) refl tt λ n. refl

-- Beside the HTTP context at 5, those at 6 and 7 are of another plugin context.
abbrev shared : Store
shared = record (store (5 ∷ [])) {
  http_at = λ x. record { id = x; hwp_ctx = if x == 5 then 1 else 3 };
}

delete_plugin_ctx-cleanup_example :
    (s1 : Store) × (delete_plugin_ctx willing 1 shared ≡ ok tt s1)
    × (s1.calls ≡ shared.calls)
    × Returns (λ _. EndedAmong 5 1 shared) (cleanup willing (6 ∷ 5 ∷ 7 ∷ []) s1)
delete_plugin_ctx-cleanup_example =
    delete_plugin_ctx-cleanup willing 5 1 (6 ∷ []) (7 ∷ []) shared refl refl
      ((λ e. ground arith), tt) ((λ e. ground arith), tt)
