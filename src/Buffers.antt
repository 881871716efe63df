-- ===== src/Buffers.antt =====
-- What a plugin reads besides headers: `proxy_get_buffer_bytes` and `proxy_get_configuration` of
-- src/http/ngx_http_wasm_api.c.
pub mod Laws
use wasm_nginx_module.Prelude.{
  ℕ, suc, ◌+◌, ◌-◌, ◌%◌, Bool, true, false, not, ◌||◌, List, [], ◌∷◌, Option, none, some, length,
  drop, if◌then◌else◌, ◌==◌,
}
use wasm_nginx_module.Words.{u32, is_neg32, slt32, add32}
use wasm_nginx_module.Run.{M, ok, pure, ◌>>=◌}
use wasm_nginx_module.Vm.{Engine}
use wasm_nginx_module.Host.{Host, ProxyResult, result_ok, not_found, bad_argument, unimplemented}
use wasm_nginx_module.State.{get_conf, get_body, must_get_req}
use wasm_nginx_module.Copy.{copy_to_wasm}

-- `if (start + size > len) { size = len - start; }`. The sum is of two `int32_t`.
unfoldable pub clamp : ℕ → ℕ → ℕ → ℕ
unfolding add32
clamp start size len = if slt32 len (add32 start size) then len - start else size

module _ (e : Engine) where
  -- The part of the buffer that was asked for, or the error.
  unfoldable pub copy_part : List ℕ → ℕ → ℕ → ℕ → ℕ → M Host ProxyResult
  unfolding clamp
  copy_part buffer start size addr size_addr =
      let len = length buffer % u32 in
      if is_neg32 start || ((is_neg32 size || size == 0) || not (slt32 start len))
      then pure bad_argument
      else copy_to_wasm e (drop start buffer) (clamp start size len) addr size_addr

  -- `proxy_get_buffer_bytes` behind the choice of the buffer; `none` is NULL. The configuration is
  -- fetched as a whole.
  unfoldable pub copy_buffer : Bool → ℕ → ℕ → ℕ → ℕ → Option (List ℕ) → M Host ProxyResult
  unfolding copy_part
  copy_buffer whole start size addr size_addr none = pure not_found
  copy_buffer whole start size addr size_addr (some buffer) =
      let len = length buffer % u32 in
      if len == 0
      then pure not_found
      else if whole
      then copy_to_wasm e buffer len addr size_addr
      else copy_part buffer start size addr size_addr

  -- `proxy_get_buffer_bytes`.
  unfoldable pub get_buffer_bytes : ℕ → ℕ → ℕ → ℕ → ℕ → M Host ProxyResult
  unfolding copy_buffer get_conf get_body
  get_buffer_bytes type start size addr size_addr h =
      if type == 7
      then copy_buffer true start size addr size_addr (get_conf h.cur_state) h
      else if type == 0 || type == 1
      then copy_buffer false start size addr size_addr (get_body h.cur_state) h
      else if type == 4
      then must_get_req (copy_buffer false start size addr size_addr h.ctx.call_resp_body) h
      else ok unimplemented h

  -- `proxy_get_configuration`.
  unfoldable pub get_configuration : ℕ → ℕ → M Host ProxyResult
  unfolding get_conf
  get_configuration addr size_addr h = elim (get_conf h.cur_state) [
    | none ↦ ok not_found h
    | some conf ↦ copy_to_wasm e conf (length conf % u32) addr size_addr h
  ]
