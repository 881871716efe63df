-- ===== src/Log/Laws.antt =====
-- What `proxy_log` of src/http/ngx_http_wasm_api.c hands to nginx's log.
use wasm_nginx_module.Prelude.{ℕ, ◌+◌, ◌≤◌, ◌<◌, ◌≡◌, ◌⊎◌, inl, inr, ◌∷◌, some, arith}
use wasm_nginx_module.Words.{half32, u32, add32, sext64}
use wasm_nginx_module.Run.{ok}
use wasm_nginx_module.Memory.{get_memory}
use wasm_nginx_module.Memory.Laws.{get_memory_sound}
use wasm_nginx_module.Host.{Host, LogCall, result_ok, invalid_memory_access}
use wasm_nginx_module.State.{get_log}
use wasm_nginx_module.Log.{log, host_log_level}

-- The message as nginx gets it.
abbrev pub message : ℕ → ℕ → ℕ → Host → LogCall
message log_level p size h = record {
  level = host_log_level log_level;
  of_request = get_log h.cur_state;
  message = p;
  size = size;
}

-- For an address and a size that are not negative: a message that lies in the plugin's memory and ends
-- below 2 GiB is logged once, at the level of the switch and in the request's log if there is a
-- request; any other is refused with PROXY_RESULT_INVALID_MEMORY_ACCESS. Nothing else is changed, and
-- the level is one from NGX_LOG_EMERG to NGX_LOG_DEBUG.
pub log-message :
    (log_level addr size : ℕ) (h : Host)
    → addr < half32
    → size < half32
    → h.mem.size ≤ u32
    → (((addr + size ≤ h.mem.size) × (addr + size < half32))
        × (log log_level addr size h
            ≡ ok result_ok (record h { logged = message log_level addr size h ∷ h.logged }))
        × (1 ≤ host_log_level log_level)
        × (host_log_level log_level ≤ 8))
      ⊎ (((h.mem.size < addr + size) ⊎ (half32 ≤ addr + size))
          × (log log_level addr size h ≡ ok invalid_memory_access h))
unfolding log host_log_level
log-message log_level addr size h na ns small =
    elim (get_memory_sound h.mem addr size na ns small) [
      | inl (e, inside, low) ↦ inl ((inside, low), rw e, ground arith, ground arith)
      | inr (e, outside) ↦ inr (outside, rw e)
    ]

-- A negative size passes where the address is not negative and the sum of both is in the memory: nginx
-- is then told to log a message at that address of that size, which as a `size_t` is larger than the
-- whole memory of the plugin.
pub log_negative_size :
    (log_level addr size : ℕ) (h : Host)
    → addr < half32
    → half32 ≤ size
    → size < u32
    → u32 ≤ addr + size
    → addr + size ≤ u32 + h.mem.size
    → h.mem.size ≤ u32
    → (log log_level addr size h
        ≡ ok result_ok (record h { logged = message log_level addr size h ∷ h.logged }))
      × (h.mem.size < sext64 size)
unfolding log host_log_level get_memory add32 sext64
log_negative_size log_level addr size h na neg word over inside small =
    let e : get_memory h.mem addr size ≡ some addr = ground arith in (rw e, ground arith)
