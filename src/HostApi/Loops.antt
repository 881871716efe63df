-- ===== src/HostApi/Loops.antt =====
-- The loop over the headers of `proxy_send_local_response` in src/http/ngx_http_wasm_api.c, on whatever
-- bytes a plugin puts into its map.
use wasm_nginx_module.Prelude.{
  List, ℕ, zero, suc, ◌+◌, ◌-◌, ◌≤◌, ◌<◌, ◌≡◌, refl, ap, ◌∙◌, Bool, true, false, inl, inr, Option,
  some, arith, Bool-cases, Option-cases, if◌then◌else◌,
}
use wasm_nginx_module.Words.{u32, add32_small, of_le32}
use wasm_nginx_module.Run.{M, and_then}
use wasm_nginx_module.Memory.{fits, word, load32, get_memory}
use wasm_nginx_module.Map.{Iter, init_iter}
use wasm_nginx_module.Map.Walk.{entry_texts}
use wasm_nginx_module.Host.{Host, Nginx, WasmState, ProxyResult, on_mem, with_mem, must_get_memory}
use wasm_nginx_module.State.{must_get_req, get_req}
use wasm_nginx_module.SetHeader.Laws.{IsBytes}
use wasm_nginx_module.HttpCall.{positive}
use wasm_nginx_module.LocalResponse.{
  set_conf, set_headers, with_resp_headers, put_resp_body, send_local_response,
}
use wasm_nginx_module.HostApi.Endings.{entry_texts-Ending}
use wasm_nginx_module.HostApi.Frames.{
  Frames, IgnoresPlugin, IfEnds, IfEnds-mono, frame_rules, bind-Frames, ok-Frames, if_Frames,
  on_mem-Frames,
}
use wasm_nginx_module.HostApi.Setters.{IgnoresRequest, next-IfEnds, set_resp_header-Frames}

-- The current state, which no host function sets.
abbrev pub current : Host → Option WasmState
current h = h.cur_state

-- The current state, and the status that the plugin has asked for.
abbrev pub seen : Host → Option WasmState × ℕ
seen h = (h.cur_state, h.wmcf.code)

seen_plugin : IgnoresPlugin seen
seen_plugin = record { ignores = λ h p. refl }

seen_request : IgnoresRequest seen
seen_request = record { ignores = λ h r. refl }

set_body-Frames : (b : Option (List ℕ)) → Frames seen (set_conf (λ c. record c { body_data = b }))
set_body-Frames b = record { keeps = λ h. refl }

-- `proxy_wasm_map_init_iter` on bytes, and what follows it: the count is a 32-bit word.
init_iter-IfEnds :
    {A : Type 0} (P : A → Host → Type 0) (p : ℕ) (h : Host) (k : Iter → M Host A)
    → IsBytes h.mem
    → ((it : Iter) → it.idx ≡ 0 → it.len < u32 → IfEnds P (k it (with_mem h h.mem)))
    → IfEnds P (and_then (on_mem (init_iter p) h) k)
unfolding init_iter load32 on_mem word of_le32
init_iter-IfEnds P p h k bytes next = elim (Bool-cases (fits h.mem p 4)) [
  | inr e ↦ rw (e, IfEnds) tt
  | inl e ↦
      let b0 = bytes p in
      let b1 = bytes (p + 1) in
      let b2 = bytes (p + 2) in let b3 = bytes (p + 3) in rw (e, IfEnds) (next _ refl (omega arith))
]

module _ (ng : Nginx) where
  -- As many rounds as the count has entries left, and one, are enough.
  set_headers-Frames :
      (k : ℕ) (it : Iter)
      → it.idx ≤ it.len
      → it.len < u32
      → it.len - it.idx < k
      → Frames seen (set_headers ng k it)
  unfolding set_headers
  set_headers-Frames zero it le count fuel = elim fuel [ ]
  set_headers-Frames (suc k) it le count fuel = record {
    keeps = λ h.
        next-IfEnds _ it h _ (λ e. refl)
          λ ne e it' up same.
            let up' : it'.idx ≡ it.idx + 1 = up ∙ add32_small it.idx 1 (omega arith) in
            let rest = set_headers-Frames k it' (omega arith) (omega arith) (omega arith) in
            (bind-Frames (on_mem (entry_texts e)) _
                (on_mem-Frames seen_plugin _ (entry_texts-Ending e))
                λ hdr.
                  bind-Frames _ _
                    (set_resp_header-Frames seen_plugin seen_request ng hdr.key false
                      (some hdr.value) false)
                    λ rc. if_Frames rc _ _ rest (ok-Frames false)).keeps
              (with_mem h h.mem);
  }

  put_resp_body-Frames : (body body_size : ℕ) → Frames seen (put_resp_body ng body body_size)
  unfolding put_resp_body
  put_resp_body-Frames body body_size = search (frame_rules, set_body-Frames, seen_plugin) depth 14

  with_resp_headers-IfEnds :
      (headers headers_size : ℕ) (rest : M Host ProxyResult) (h : Host)
      → Frames seen rest
      → IsBytes h.mem
      → IfEnds (λ _ h'. seen h' ≡ seen h) (with_resp_headers ng headers headers_size rest h)
  unfolding with_resp_headers must_get_memory
  with_resp_headers-IfEnds headers headers_size rest h fr bytes =
      if_at (positive headers_size) _ rest
        (elim (Option-cases (get_memory h.mem headers headers_size)) [
          | inl e ↦ rw (e, IfEnds) refl
          | inr (p, e) ↦
              rw (e, IfEnds)
                (init_iter-IfEnds _ p h _ bytes λ it first count.
                  (bind-Frames (set_headers ng (suc it.len) it) _
                      (set_headers-Frames (suc it.len) it (omega arith) count (omega arith))
                      λ set. if_Frames set _ _ fr (ok-Frames _)).keeps
                    (with_mem h h.mem))
        ])
        (fr.keeps h)
    where
      if_at :
          (b : Bool) (f g : M Host ProxyResult)
          → IfEnds (λ _ h'. seen h' ≡ seen h) (f h)
          → IfEnds (λ _ h'. seen h' ≡ seen h) (g h)
          → IfEnds (λ _ h'. seen h' ≡ seen h) ((if b then f else g) h)
      if_at true f g pf pg = pf
      if_at false f g pf pg = pg

  -- With a request, the status is the one that the plugin gives, whether it gets an answer or not.
  pub send_local_response-seen :
      (res_code body body_size headers headers_size : ℕ) (h : Host)
      → IsBytes h.mem
      → get_req h.cur_state ≡ true
      → IfEnds
          (λ _ h'. seen h' ≡ (h.cur_state, res_code))
          (send_local_response ng res_code body body_size headers headers_size h)
  unfolding send_local_response must_get_req
  send_local_response-seen res_code body body_size headers headers_size h bytes e =
      rw (e, IfEnds)
        (with_resp_headers-IfEnds headers headers_size (put_resp_body ng body body_size) _
          (put_resp_body-Frames body body_size) bytes)

  without_request :
      (res_code body body_size headers headers_size : ℕ) (h : Host)
      → get_req h.cur_state ≡ false
      → IfEnds
          (λ _ h'. current h' ≡ current h)
          (send_local_response ng res_code body body_size headers headers_size h)
  unfolding send_local_response must_get_req
  without_request res_code body body_size headers headers_size h e = rw (e, IfEnds) refl

  pub send_local_response-IfEnds :
      (res_code body body_size headers headers_size : ℕ) (h : Host)
      → IsBytes h.mem
      → IfEnds
          (λ _ h'. current h' ≡ current h)
          (send_local_response ng res_code body body_size headers headers_size h)
  send_local_response-IfEnds res_code body body_size headers headers_size h bytes =
      elim (Bool-cases (get_req h.cur_state)) [
        | inl e ↦
            IfEnds-mono (λ _ h'. seen h' ≡ (h.cur_state, res_code)) (λ _ h'. current h' ≡ current h)
              (send_local_response ng res_code body body_size headers headers_size h)
              (send_local_response-seen res_code body body_size headers headers_size h bytes e)
              λ a h' same. ap (λ (s : Option WasmState × ℕ). s.0) same
        | inr e ↦ without_request res_code body body_size headers headers_size h e
      ]
