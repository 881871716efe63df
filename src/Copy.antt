-- ===== src/Copy.antt =====
-- How a value gets from the host into a plugin: `proxy_wasm_memory_alloc` of
-- src/proxy_wasm/proxy_wasm_memory.c, and `ngx_http_wasm_copy_to_wasm` and
-- `ngx_http_wasm_get_buf_to_write` of src/http/ngx_http_wasm_api.c.
pub mod Laws
use wasm_nginx_module.Prelude.{
  ℕ, ◌≤◌, Bool, true, List, [], ◌∷◌, Option, none, some, ◌==◌, leb, if◌then◌else◌, length, take,
}
use wasm_nginx_module.Words.{sext64}
use wasm_nginx_module.Run.{M, fault, pure, ◌>>=◌, ◌>>◌, undefined}
use wasm_nginx_module.Memory.{Memory, copy_in, store32}
use wasm_nginx_module.Vm.{Engine, call}
use wasm_nginx_module.Host.{
  Host, ProxyResult, result_ok, internal_failure, invalid_memory_access, on_mem, on_plugin, get_mem,
  must_get_memory,
}

module _ (e : Engine) where
  -- `proxy_wasm_memory_alloc`: the plugin's own allocator, or its `malloc`.
  unfoldable pub memory_alloc : ℕ → M Host ℕ
  unfolding on_plugin call
  memory_alloc size = do
    addr ← on_plugin (call e "proxy_on_memory_allocate" true 2 (size ∷ []))
    if addr == 0 then on_plugin (call e "malloc" true 2 (size ∷ [])) else pure addr

  -- `ngx_memcpy(buf, data, len)` out of a host buffer that holds `data`.
  unfoldable pub copy_from_host : ℕ → List ℕ → ℕ → M Host (Unit {0})
  unfolding on_mem copy_in sext64
  copy_from_host buf host_data len =
      if leb (sext64 len) (length host_data)
      then on_mem (copy_in buf (take len host_data))
      else undefined

  -- `ngx_http_wasm_copy_to_wasm`.
  unfoldable pub copy_to_wasm : List ℕ → ℕ → ℕ → ℕ → M Host ProxyResult
  unfolding memory_alloc copy_from_host must_get_memory store32
  copy_to_wasm host_data len addr size_addr = must_get_memory size_addr 4 λ p_size. do
    on_mem (store32 p_size len)
    if len == 0 then pure result_ok else do
      buf_addr ← memory_alloc len
      if buf_addr == 0
          then pure internal_failure
          else must_get_memory buf_addr len λ buf. do
            copy_from_host buf host_data len
            must_get_memory addr 4 λ p. do on_mem (store32 p buf_addr); pure result_ok

  -- `ngx_http_wasm_get_buf_to_write`: a buffer in the plugin for the caller to fill, or NULL.
  unfoldable pub get_buf_to_write : ℕ → ℕ → ℕ → M Host (Option ℕ)
  unfolding memory_alloc get_mem store32
  get_buf_to_write len addr size_addr = do
    buf_addr ← memory_alloc len
    if buf_addr == 0 then pure none else do
      buf ← get_mem buf_addr len
      elim buf [
        | none ↦ pure none
        | some b ↦ do
          p ← get_mem addr 4
          elim p [
            | none ↦ pure none
            | some q ↦ do
              on_mem (store32 q buf_addr)
              p_size ← get_mem size_addr 4
              elim p_size [ none ↦ pure none | some z ↦ do on_mem (store32 z len); pure (some b) ]
          ]
      ]
