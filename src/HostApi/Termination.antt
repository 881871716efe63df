-- ===== src/HostApi/Termination.antt =====
-- Every host function of the tables of src/http/ngx_http_wasm_api_wasmtime.h and
-- src/http/ngx_http_wasm_api_wasmedge.h comes to an end, and leaves the current state as it is.
use wasm_nginx_module.Prelude.{ℕ, ◌≡◌, refl, Bool, true, false, List, some, get_elem?, map, All}
use wasm_nginx_module.Run.{M}
use wasm_nginx_module.Vm.{Engine}
use wasm_nginx_module.Host.{Host, Nginx, ProxyResult}
use wasm_nginx_module.SetHeader.{
  put_header_map_value, remove_header_map_value, replace_header_map_value, add_header_map_value,
}
use wasm_nginx_module.SetHeader.Laws.{IsBytes}
use wasm_nginx_module.LocalResponse.{send_local_response, send_http_response}
use wasm_nginx_module.HostApi.{Api}
use wasm_nginx_module.HostApi.Declared.{declared}
use wasm_nginx_module.HostApi.Wasmtime.{Val, kind, host_apis, host_api_func}
use wasm_nginx_module.HostApi.Functions.{host_functions}
use wasm_nginx_module.HostApi.Frames.{Frames, IfEnds, IgnoresPlugin}
use wasm_nginx_module.HostApi.Setters.{
  IgnoresRequest, remove_header_map_value-Frames, put_header_map_value-Frames,
}
use wasm_nginx_module.HostApi.Writers.{IgnoresLog, IgnoresCall, set_property-Frames}
use wasm_nginx_module.HostApi.Effects.{
  Every, Every-apply, answer-IfEnds, All-get_elem?, row_of, params-kinds, rows-Every, Every-map,
}
use wasm_nginx_module.HostApi.Loops.{current, send_local_response-IfEnds}

current_plugin : IgnoresPlugin current
current_plugin = record { ignores = λ h p. refl }

current_request : IgnoresRequest current
current_request = record { ignores = λ h r. refl }

current_log : IgnoresLog current
current_log = record { ignores = λ h l. refl }

current_calls : IgnoresCall current
current_calls = record { ignores = λ h c n. refl }

-- A host function that ends on a memory of bytes, in the same current state.
record EndsOnBytes (f : M Host ProxyResult) : Type 0 where
  ends : (h : Host) → IsBytes h.mem → IfEnds (λ _ h'. current h' ≡ current h) (f h)

Frames-EndsOnBytes : {f : M Host ProxyResult} → Frames current f → EndsOnBytes f
Frames-EndsOnBytes {f} ff = record { ends = λ h bytes. ff.keeps h }

module _ (e : Engine) (ng : Nginx) where
  local_ends :
      (res_code body body_size headers headers_size : ℕ)
      → EndsOnBytes (send_local_response ng res_code body body_size headers headers_size)
  local_ends res_code body body_size headers headers_size = record {
    ends = send_local_response-IfEnds ng res_code body body_size headers headers_size;
  }

  remove_ends :
      (type key_data key_size : ℕ) → EndsOnBytes (remove_header_map_value ng type key_data key_size)
  remove_ends type key_data key_size =
      Frames-EndsOnBytes
        (remove_header_map_value-Frames current_plugin current_request ng type key_data key_size)

  put_ends :
      (override : Bool) (type key_data key_size val_data size : ℕ)
      → EndsOnBytes (put_header_map_value ng override type key_data key_size val_data size)
  put_ends override type key_data key_size val_data size = Frames-EndsOnBytes (
      put_header_map_value-Frames current_plugin current_request ng override type key_data key_size
        val_data size)

  -- Every row.
  rows-EndsOnBytes :
      All (λ p. Every EndsOnBytes p.shape p.function) (declared (host_functions e ng))
  unfolding host_functions send_http_response replace_header_map_value add_header_map_value
  rows-EndsOnBytes =
      rows-Every current_plugin current_log current_calls e ng _
        (λ p. Every-map (Frames current) EndsOnBytes p.shape p.function λ f. Frames-EndsOnBytes)
        (λ a b c d.
          Frames-EndsOnBytes (set_property-Frames current_plugin ng (λ h k v. refl) a b c d))
        (λ a b c d e1 f g h. local_ends a d e1 f g) (λ a b c d e1 f g h. local_ends a d e1 f g)
        remove_ends (put_ends true) (put_ends false)

  -- Whichever of the 41 host functions the plugin calls through the table of the wasmtime build, with
  -- whatever arguments of the types that the engine was told, and whatever bytes its memory holds, the
  -- map of headers of `proxy_send_local_response` included: the call comes to an end. It is undefined
  -- behaviour of C, or it returns and the current state is the one that the module had set. The plugin's
  -- allocator is taken to come back.
  pub host_apis-IfEnds :
      (i : ℕ) (api : Api Val) (args : List Val) (h : Host)
      → get_elem? (host_apis (host_functions e ng)) i ≡ some api
      → map kind args ≡ (host_api_func api).params
      → IsBytes h.mem
      → IfEnds (λ _ h'. current h' ≡ current h) (api.cb args h)
  host_apis-IfEnds i api args h at k bytes =
      let d = host_functions e ng in
      let (p, at', row) = row_of d i api at in
      let k' = params-kinds p api args row k in
      let every = All-get_elem? _ (declared d) i p rows-EndsOnBytes at' in
      rw (row.runs args h k') (
        answer-IfEnds (λ h'. current h' ≡ current h) _
          ((Every-apply EndsOnBytes p.shape p.function args every k').ends h bytes))
