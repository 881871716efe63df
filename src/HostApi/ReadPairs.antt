-- ===== src/HostApi/ReadPairs.antt =====
-- `proxy_get_header_map_pairs` of src/http/ngx_http_wasm_api.c, and the host functions that keep a
-- record of what they were asked: what they leave alone.
use wasm_nginx_module.Prelude.{ℕ, ◌*◌, refl, List, [], ◌∷◌, Option, none, some, length, leb, ◌==◌}
use wasm_nginx_module.Words.{is_neg32}
use wasm_nginx_module.Run.{M, pure}
use wasm_nginx_module.Map.Layout.{Header}
use wasm_nginx_module.Vm.{Engine}
use wasm_nginx_module.Host.{
  Host, Nginx, ProxyResult, TableElt, result_ok, bad_argument, not_found, invalid_memory_access,
  internal_failure, unimplemented,
}
use wasm_nginx_module.Pseudo.{req_table}
use wasm_nginx_module.Pairs.{
  ffi_bad_context, http_call_resp_get_headers, pseudo_headers, fetch_req_headers, write_req_headers,
  req_get_headers,
}
use wasm_nginx_module.Pairs.Response.{
  Count, count_parts, count_rest, asked_length, asked_status, with_number, write_resp_headers,
  resp_get_headers, get_header_map_pairs,
}
use wasm_nginx_module.HostApi.Frames.{
  Frames, IgnoresPlugin, frame_rules, bind-Frames, ok-Frames, undefined-Frames, if_Frames,
  option_Frames, if_IfEnds, option_IfEnds, get_string_buf-Frames, get_buf_to_write-Frames,
}

module _ {X : Type 0} {view : Host → X} (free : IgnoresPlugin view) (e : Engine) (ng : Nginx) where
  http_call_resp_get_headers-Frames :
      (addr size_addr : ℕ) → Frames view (http_call_resp_get_headers e addr size_addr)
  unfolding http_call_resp_get_headers
  http_call_resp_get_headers-Frames addr size_addr = record {
    keeps = λ h.
        let hs = h.ctx.call_resp_headers in
        (if_Frames (length hs == 0) _ _ (ok-Frames _) (
            bind-Frames _ _ (get_buf_to_write-Frames free e _ addr size_addr)
              λ buf. option_Frames buf _ _ (ok-Frames _) λ p. search frame_rules depth 10)).keeps
          h;
  }

  fetch_req_headers-Frames : (count : ℕ) → Frames view (fetch_req_headers ng count)
  unfolding fetch_req_headers
  fetch_req_headers-Frames count = record {
    keeps = λ h. if_IfEnds _ (count == 0) _ _ refl (
        if_IfEnds _ (is_neg32 count) _ _ refl (
          (bind-Frames _ _ (get_string_buf-Frames free ng (count * 32)) λ got.
              if_Frames got _ _
                (option_Frames (ng.get_req_headers h.r) _ _ (ok-Frames _)
                  λ hs. if_Frames (leb count (length hs)) _ _ (ok-Frames _) undefined-Frames)
                (ok-Frames _)).keeps
            h));
  }

  write_req_headers-Frames :
      (count : ℕ) (hs : List Header) (addr size_addr : ℕ)
      → Frames view (write_req_headers e ng count hs addr size_addr)
  unfolding write_req_headers
  write_req_headers-Frames count hs addr size_addr = record {
    keeps = λ h. option_IfEnds _ (pseudo_headers ng req_table h.r) _ _ tt λ ps.
        (bind-Frames _ _ (get_buf_to_write-Frames free e _ addr size_addr)
            λ buf. option_Frames buf _ _ (ok-Frames _) λ p. search frame_rules depth 10).keeps
          h;
  }

  other_result :
      (count : ℕ) (res : ProxyResult) (hs : List Header) (addr size_addr : ℕ)
      → Frames view (elim res [
        | result_ok ↦ write_req_headers e ng count hs addr size_addr
        | other ↦ pure other
      ])
  other_result count result_ok hs addr size_addr = write_req_headers-Frames count hs addr size_addr
  other_result count not_found hs addr size_addr = ok-Frames _
  other_result count bad_argument hs addr size_addr = ok-Frames _
  other_result count invalid_memory_access hs addr size_addr = ok-Frames _
  other_result count internal_failure hs addr size_addr = ok-Frames _
  other_result count unimplemented hs addr size_addr = ok-Frames _

  req_get_headers-Frames : (addr size_addr : ℕ) → Frames view (req_get_headers e ng addr size_addr)
  unfolding req_get_headers
  req_get_headers-Frames addr size_addr = record {
    keeps = λ h.
        let count = ng.get_req_headers_count h.r in
        if_IfEnds _ (count == ffi_bad_context) _ _ refl (
          (bind-Frames _ _ (fetch_req_headers-Frames count)
              λ got. other_result count got.0 got.1 addr size_addr).keeps
            h);
  }

  count_parts-Frames :
      (part : List TableElt) (next : List (List TableElt)) (acc : Count)
      → Frames view (count_parts part next acc)
  unfolding count_parts
  count_parts-Frames part [] acc = ok-Frames _
  count_parts-Frames part (part' ∷ next) acc =
      if_Frames (length part' == 0) _ _ undefined-Frames (count_parts-Frames part' next _)

  with_number-Frames :
      (o : Option ℕ) (rest : Option (List ℕ) → M Host ProxyResult)
      → ((val : Option (List ℕ)) → Frames view (rest val))
      → Frames view (with_number ng o rest)
  unfolding with_number
  with_number-Frames none rest fr = fr none
  with_number-Frames (some n) rest fr = search frame_rules

  write_resp_headers-Frames :
      (acc : Count) (len status : Option (List ℕ)) (addr size_addr : ℕ)
      → Frames view (write_resp_headers e ng acc len status addr size_addr)
  unfolding write_resp_headers
  write_resp_headers-Frames acc len status addr size_addr = record {
    keeps = λ h.
        (bind-Frames _ _ (get_buf_to_write-Frames free e _ addr size_addr)
            λ buf. option_Frames buf _ _ (ok-Frames _) λ p. search frame_rules depth 10).keeps
          h;
  }

  resp_get_headers-Frames :
      (addr size_addr : ℕ) → Frames view (resp_get_headers e ng addr size_addr)
  unfolding resp_get_headers
  resp_get_headers-Frames addr size_addr = record {
    keeps = λ h.
        (bind-Frames _ _ (count_parts-Frames h.r.headers_out.part h.r.headers_out.next (0, 0))
            λ acc. with_number-Frames (asked_length h.r) _ λ len.
              with_number-Frames (asked_status h.r) _ λ status.
                write_resp_headers-Frames (count_rest h.r len status acc) len status addr
                  size_addr).keeps
          h;
  }

  pub get_header_map_pairs-Frames :
      (type addr size_addr : ℕ) → Frames view (get_header_map_pairs e ng type addr size_addr)
  unfolding get_header_map_pairs
  get_header_map_pairs-Frames type addr size_addr =
      search
        (
          frame_rules, req_get_headers-Frames, resp_get_headers-Frames,
          http_call_resp_get_headers-Frames,
        )
        depth 20
