-- ===== src/HostApi/Writers.antt =====
-- `proxy_log`, `proxy_http_call` and `proxy_set_property` of src/http/ngx_http_wasm_api.c: what they leave
-- alone.
use wasm_nginx_module.Prelude.{ℕ, suc, ◌≡◌, refl, ◌∙◌, List, Option, none, some, ◌==◌}
use wasm_nginx_module.Words.{is_neg32, sext64, add64}
use wasm_nginx_module.Run.{M}
use wasm_nginx_module.Memory.{Memory, copy_out}
use wasm_nginx_module.Vm.{ngx_ok}
use wasm_nginx_module.Host.{Host, Nginx, ModuleCtx, LogCall, ProxyResult, on_mem, get_mem}
use wasm_nginx_module.Log.{log}
use wasm_nginx_module.Call.{call_register}
use wasm_nginx_module.HttpCall.{
  is_yieldable, copy_as_str, copy_headers, with_headers, with_body, register_call, call_upstream,
  http_call, or_failure,
}
use wasm_nginx_module.Property.{value_at, write_variable, set_property}
use wasm_nginx_module.HostApi.Endings.{copy_out-Ending}
use wasm_nginx_module.HostApi.Frames.{
  Frames, IgnoresPlugin, frame_rules, bind-Frames, ok-Frames, undefined-Frames, if_Frames,
  if_IfEnds, option_IfEnds, on_mem-Frames, must_get_req-Frames, must_get_memory-Frames,
  get_mem-Frames, get_string_buf-Frames,
}

-- A view that does not look at the messages.
pub record IgnoresLog {X : Type 0} (view : Host → X) : Type 0 where
  pub ignores : (h : Host) (l : List LogCall) → view (record h { logged = l }) ≡ view h

-- A view that does not look at the call that waits, nor at the counter of the calls.
pub record IgnoresCall {X : Type 0} (view : Host → X) : Type 0 where
  pub ignores :
      (h : Host) (c : ModuleCtx) (n : ℕ) → view (record h { ctx = c; cur_callout_id = n }) ≡ view h

module _ {X : Type 0} {view : Host → X} where
  pub log-Frames :
      IgnoresLog view → (log_level addr size : ℕ) → Frames view (log log_level addr size)
  unfolding log
  log-Frames free log_level addr size =
      must_get_memory-Frames addr size _ λ p. record { keeps = λ h. free.ignores h _ }

module _ {X : Type 0} {view : Host → X} (free : IgnoresPlugin view) (ng : Nginx) where
  copy_as_str-Frames : (src size : ℕ) → Frames view (copy_as_str ng src size)
  unfolding copy_as_str
  copy_as_str-Frames src size = search frame_rules depth 10

  copy_headers-Frames : (p headers_size : ℕ) → Frames view (copy_headers ng p headers_size)
  unfolding copy_headers
  copy_headers-Frames p headers_size = search frame_rules depth 10

  or_failure-Frames :
      {A : Type 0} (o : Option A) (rest : A → M Host ProxyResult)
      → ((a : A) → Frames view (rest a))
      → Frames view (or_failure o rest)
  or_failure-Frames none rest fr = ok-Frames _
  or_failure-Frames (some a) rest fr = fr a

  with_headers-Frames :
      (headers_data headers_size : ℕ) (rest : Option Memory → M Host ProxyResult)
      → ((m : Option Memory) → Frames view (rest m))
      → Frames view (with_headers ng headers_data headers_size rest)
  unfolding with_headers
  with_headers-Frames headers_data headers_size rest fr =
      search (frame_rules, copy_headers-Frames, or_failure-Frames) depth 10

  with_body-Frames :
      (body_data body_size : ℕ) (rest : Option (List ℕ) → M Host ProxyResult)
      → ((s : Option (List ℕ)) → Frames view (rest s))
      → Frames view (with_body ng body_data body_size rest)
  unfolding with_body
  with_body-Frames body_data body_size rest fr =
      search (frame_rules, copy_as_str-Frames, or_failure-Frames) depth 10

  module _ (calls : IgnoresCall view) where
    call_register-Frames :
        (up : List ℕ) (map_data : Option Memory) (body : Option (List ℕ)) (timeout : ℕ)
        → Frames view (call_register ng up map_data body timeout)
    unfolding call_register
    call_register-Frames up map_data body timeout = record {
      keeps = λ h.
          option_IfEnds _ h.ctx.callout _ _
            (if_IfEnds _ (ng.palloc h.tick 32) _ _
              (if_IfEnds _ (is_neg32 timeout) _ _ (free.ignores h _) (
                calls.ignores (record h { plugin = record { mem = h.mem; tick = suc h.tick } }) _ _
                ∙ free.ignores h _))
              (free.ignores h _))
            λ c. refl;
    }

    register_call-Frames :
        (up : List ℕ) (m : Option Memory) (body : Option (List ℕ)) (timeout callout_addr : ℕ)
        → Frames view (register_call ng up m body timeout callout_addr)
    unfolding register_call
    register_call-Frames up m body timeout callout_addr =
        bind-Frames _ _ (call_register-Frames up m body timeout)
          λ got. if_Frames (got.0 == ngx_ok) _ _ (search frame_rules depth 10) (ok-Frames _)

    call_upstream-Frames :
        (headers_data headers_size body_data body_size timeout callout_addr : ℕ) (up : List ℕ)
        → Frames view
            (call_upstream ng headers_data headers_size body_data body_size timeout callout_addr up)
    unfolding call_upstream
    call_upstream-Frames headers_data headers_size body_data body_size timeout callout_addr up =
        search (frame_rules, with_headers-Frames, with_body-Frames, register_call-Frames) depth 10

    pub http_call-Frames :
        (up_data up_size headers_data headers_size body_data body_size timeout callout_addr : ℕ)
        → Frames view (
            http_call ng up_data up_size headers_data headers_size body_data body_size timeout
              callout_addr)
    unfolding http_call
    http_call-Frames up_data up_size headers_data headers_size body_data body_size timeout
          callout_addr =
        must_get_req-Frames _ (record {
          keeps = λ h.
              (if_Frames (is_yieldable ng h.r) _ _
                  (must_get_memory-Frames up_data up_size _ λ p.
                    bind-Frames _ _ (copy_as_str-Frames p (sext64 up_size)) λ up.
                      or_failure-Frames up _ (
                        call_upstream-Frames headers_data headers_size body_data body_size timeout
                          callout_addr))
                  (ok-Frames _)).keeps
                h;
        })

  -- A view that `set_variable` keeps.
  pub set_property-Frames :
      ((h : Host) (key : List ℕ) (value : Option (List ℕ))
        → view (record h { r = (ng.set_variable h.r key value).2 }) ≡ view h)
      → (path_data path_size value_data size : ℕ)
      → Frames view (set_property ng path_data path_size value_data size)
  unfolding set_property
  set_property-Frames kept path_data path_size value_data size = must_get_req-Frames _ (
      must_get_memory-Frames path_data path_size _ λ key.
        bind-Frames (get_mem value_data size) _ (get_mem-Frames value_data size) λ value.
          bind-Frames _ _ (get_string_buf-Frames free ng (add64 (sext64 path_size) 256))
            λ key_lowcase.
              if_Frames key_lowcase _ _
                (bind-Frames (on_mem (copy_out key (sext64 path_size))) _
                  (on_mem-Frames free _ (copy_out-Ending key (sext64 path_size)))
                  λ k. bind-Frames _ (write_variable ng k) (found value) λ v. record {
                    keeps = λ h.
                        let (result, errmsg, r) = ng.set_variable h.r k v in
                        if_IfEnds _ (result == ngx_ok) _ _ (kept h k v)
                          (if_IfEnds _ (ng.takes_arguments errmsg) _ _ tt (kept h k v));
                  })
                undefined-Frames)
    where
      found : (value : Option ℕ) → Frames view (value_at ng value size)
      found none = ok-Frames _
      found (some p) = search frame_rules depth 10
