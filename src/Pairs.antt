-- ===== src/Pairs.antt =====
-- `proxy_get_header_map_pairs` of src/http/ngx_http_wasm_api.c and its three getters, which hand all
-- headers over as one map.
pub mod Laws
pub mod ReqHeaders
pub mod Response
pub mod ResponseLaws
pub mod RespHeaders
use wasm_nginx_module.Prelude.{
  ℕ, zero, suc, ◌+◌, ◌*◌, ◌%◌, Bool, true, false, List, [], ◌∷◌, ◌++◌, Option, none, some, length,
  ltb, if◌then◌else◌, ◌==◌, take, leb,
}
use wasm_nginx_module.Words.{u32, half32, is_neg32}
use wasm_nginx_module.Run.{M, fault, pure, ok, undefined, ◌>>=◌, ◌>>◌}
use wasm_nginx_module.Memory.{Memory}
use wasm_nginx_module.Map.{Iter, Slot, init_map, init_iter}
use wasm_nginx_module.Map.Layout.{Header}
use wasm_nginx_module.Map.Build.{put_headers}
use wasm_nginx_module.Map.Full.{start}
use wasm_nginx_module.Vm.{Engine}
use wasm_nginx_module.Host.{
  Host, Nginx, Request, ProxyResult, result_ok, bad_argument, internal_failure,
  invalid_memory_access, not_found, unimplemented, on_mem,
}
use wasm_nginx_module.Copy.{get_buf_to_write}
use wasm_nginx_module.Pseudo.{PseudoHeader, req_table, getter}

-- The `int` sum of the lengths of the texts, with a NUL behind each.
unfoldable pub count_texts : List Header → ℕ → ℕ
count_texts [] size = size
count_texts (h ∷ hs) size = count_texts hs ((size + length h.key + length h.value + 2) % u32)

-- `size += 4 + count * 2 * 4`.
unfoldable pub count_map : ℕ → ℕ → ℕ
count_map count size = (size + 4 + count * 2 * 4) % u32

-- `FFI_BAD_CONTEXT`, -101.
abbrev pub ffi_bad_context : ℕ
ffi_bad_context = 4294967195

-- `ngx_http_wasm_get_string_buf`: the static buffer of STR_BUF_SIZE bytes, or one of the pool.
unfoldable pub get_string_buf : Nginx → ℕ → M Host Bool
get_string_buf ng size h =
    if ltb 4096 size
    then ok (ng.palloc h.tick size)
        (record h { plugin = record { mem = h.mem; tick = suc h.tick } })
    else ok true h

module _ (e : Engine) where
  -- `ngx_http_wasm_http_call_resp_get_headers`.
  unfoldable pub http_call_resp_get_headers : ℕ → ℕ → M Host ProxyResult
  http_call_resp_get_headers addr size_addr h =
      let hs = h.ctx.call_resp_headers in
      let n = length hs in
      (if n == 0 then pure not_found else do
        buf ← get_buf_to_write e (count_map n (count_texts hs 0)) addr size_addr
        elim buf [
          | none ↦ pure invalid_memory_access
          | some p ↦ do
            it ← on_mem (init_map p n >> init_iter p)
            on_mem (put_headers (start it) hs)
            pure result_ok
        ])
        h

module _ (ng : Nginx) where
  -- The pseudo headers with their values, where every getter has one.
  unfoldable pub pseudo_headers : List PseudoHeader → Request → Option (List Header)
  unfolding getter
  pseudo_headers [] r = some []
  pseudo_headers (wh ∷ whs) r = elim (getter ng wh.ty r) [
    | none ↦ none
    | some s ↦ elim (pseudo_headers whs r) [
      | none ↦ none
      | some hs ↦ some (record { key = wh.name; value = s } ∷ hs)
    ]
  ]

  -- The request's headers, as lua-nginx-module gives them; an early return is an error result. A
  -- negative count other than FFI_BAD_CONTEXT is taken on, and no header is asked for.
  unfoldable pub fetch_req_headers : ℕ → M Host (ProxyResult × List Header)
  unfolding get_string_buf
  fetch_req_headers count h =
      if count == 0
      then ok (result_ok, []) h
      else if is_neg32 count
      then ok (result_ok, []) h
      else (do
        got ← get_string_buf ng (count * 32)
        if got
            then (elim (ng.get_req_headers h.r) [
              | none ↦ pure (internal_failure, [])
              | some hs ↦
                  if leb count (length hs) then pure (result_ok, take count hs) else undefined
            ])
            else pure (internal_failure, []))
          h

module _ (e : Engine) (ng : Nginx) where
  -- `ngx_http_wasm_req_get_headers`, behind the fetch of the headers.
  unfoldable pub write_req_headers : ℕ → List Header → ℕ → ℕ → M Host ProxyResult
  write_req_headers count hs addr size_addr h = elim (pseudo_headers ng req_table h.r) [
    | none ↦ fault
    | some ps ↦
        (do
          let size = count_texts ps (count_texts hs 0)
          buf ←
              get_buf_to_write e (count_map ((count + length req_table) % u32) size) addr size_addr
          elim buf [
            | none ↦ pure invalid_memory_access
            | some p ↦ do
              it ← on_mem (init_map p ((count + length req_table) % u32) >> init_iter p)
              s ← on_mem (put_headers (start it) hs)
              on_mem (put_headers s ps)
              pure result_ok
          ])
          h
  ]

  -- `ngx_http_wasm_req_get_headers`.
  unfoldable pub req_get_headers : ℕ → ℕ → M Host ProxyResult
  req_get_headers addr size_addr h =
      let count = ng.get_req_headers_count h.r in
      if count == ffi_bad_context
      then ok bad_argument h
      else (do
        (res, hs) ← fetch_req_headers ng count
        elim res [ result_ok ↦ write_req_headers count hs addr size_addr | other ↦ pure other ])
          h
