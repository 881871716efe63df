-- ===== src/HttpCall.antt =====
-- `proxy_http_call` of src/http/ngx_http_wasm_api.c: a plugin asks for an HTTP call. What it passes
-- lies in its memory, and is copied into the request's pool before the call is registered.
pub mod Blocks
pub mod Laws
use Prim.Native.Nat.{bit_and}
use wasm_nginx_module.Prelude.{
  ℕ, zero, suc, ◌+◌, Bool, true, false, not, ◌||◌, List, [], Option, none, some, if◌then◌else◌,
  ◌==◌,
}
use wasm_nginx_module.Words.{is_neg32, sext64, add64}
use wasm_nginx_module.Run.{M, ok, fault, pure, ◌>>=◌, ◌>>◌}
use wasm_nginx_module.Memory.{Memory, fits, copy_out, store32}
use wasm_nginx_module.Vm.{ngx_ok}
use wasm_nginx_module.Host.{
  Host, Nginx, Request, ProxyResult, result_ok, bad_argument, internal_failure, on_mem,
  must_get_memory,
}
use wasm_nginx_module.State.{must_get_req}
use wasm_nginx_module.SetHeader.{palloc}
use wasm_nginx_module.Call.{call_register}

-- `size > 0` for an `int32_t`.
abbrev pub positive : ℕ → Bool
positive size = not (is_neg32 size || size == 0)

-- A block of its own with the `n` bytes at `p`.
abbrev pub block : Memory → ℕ → ℕ → Memory
block m p n = record { size = n; byte = λ x. m.byte (p + x) }

unfoldable pub copy_block : ℕ → ℕ → M Memory Memory
copy_block p n m = if fits m p n then ok (block m p n) m else fault

-- The rest of the function runs only where there was memory.
abbrev pub or_failure : {A : Type 0} → Option A → (A → M Host ProxyResult) → M Host ProxyResult
or_failure none rest = pure internal_failure
or_failure (some a) rest = rest a

module _ (ng : Nginx) where
  -- `ngx_http_wasm_is_yieldable`. NGX_HTTP_WASM_YIELDABLE is 0x8e.
  unfoldable pub is_yieldable : Request → Bool
  is_yieldable r =
      if is_neg32 (ng.get_phase r) then false else not (bit_and (ng.get_phase r) 0x8e == 0)

  -- `ngx_http_wasm_copy_as_str`.
  unfoldable pub copy_as_str : ℕ → ℕ → M Host (Option (List ℕ))
  unfolding palloc
  copy_as_str src size = do
    room ← palloc ng (add64 16 size)
    if room then (do s ← on_mem (copy_out src size); pure (some s)) else pure none

  -- The copy of the headers, as the bytes of their map.
  unfoldable pub copy_headers : ℕ → ℕ → M Host (Option Memory)
  unfolding palloc copy_block
  copy_headers p headers_size = do
    room ← palloc ng headers_size
    if room then (do m ← on_mem (copy_block p headers_size); pure (some m)) else pure none

  -- The branches on `headers_size` and on `body_size`, with what comes behind them.
  unfoldable pub with_headers : ℕ → ℕ → (Option Memory → M Host ProxyResult) → M Host ProxyResult
  unfolding copy_headers must_get_memory
  with_headers headers_data headers_size rest =
      let given =
        must_get_memory headers_data headers_size
          λ p. copy_headers p headers_size >>= λ headers. or_failure headers λ m. rest (some m) in
      if positive headers_size then given else rest none

  unfoldable pub with_body : ℕ → ℕ → (Option (List ℕ) → M Host ProxyResult) → M Host ProxyResult
  unfolding copy_as_str must_get_memory
  with_body body_data body_size rest =
      let given =
        must_get_memory body_data body_size
          λ p. copy_as_str p body_size >>= λ body. or_failure body λ s. rest (some s) in
      if positive body_size then given else rest none

  -- The registration, and the id for the plugin.
  unfoldable pub register_call :
      List ℕ → Option Memory → Option (List ℕ) → ℕ → ℕ → M Host ProxyResult
  unfolding call_register must_get_memory
  register_call up headers body timeout callout_addr = do
    (rc, callout_id) ← call_register ng up headers body timeout
    let reported =
        must_get_memory callout_addr 4
          λ p_callout. on_mem (store32 p_callout callout_id) >> pure result_ok
    if rc == ngx_ok then reported else pure internal_failure

  -- `proxy_http_call`, behind the copy of the upstream's address. The trailers are not used.
  unfoldable pub call_upstream : ℕ → ℕ → ℕ → ℕ → ℕ → ℕ → List ℕ → M Host ProxyResult
  unfolding with_headers with_body register_call
  call_upstream headers_data headers_size body_data body_size timeout callout_addr up =
      let rest = with_headers headers_data headers_size λ headers.
        with_body body_data body_size λ body. register_call up headers body timeout callout_addr in
      if ng.parse_url up then rest else pure bad_argument

  unfoldable pub http_call : ℕ → ℕ → ℕ → ℕ → ℕ → ℕ → ℕ → ℕ → M Host ProxyResult
  unfolding is_yieldable call_upstream copy_as_str must_get_memory must_get_req
  http_call up_data up_size headers_data headers_size body_data body_size timeout callout_addr =
      let rest = call_upstream headers_data headers_size body_data body_size timeout callout_addr in
      let asked =
        must_get_memory up_data up_size
          λ p. copy_as_str p (sext64 up_size) >>= λ up. or_failure up rest in
      must_get_req λ h. (if is_yieldable h.r then asked else pure bad_argument) h
