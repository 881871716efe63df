-- ===== src/HostApi/Answered.antt =====
-- The status that a plugin asks for: which host functions of src/http/ngx_http_wasm_api.c can set it, and
-- what `ngx_http_wasm_on_http` of src/http/ngx_http_wasm_module.c makes of it.
use Prim.Native.String.{String}
use text.Mathlib.Text.{◌==◌ as str_eq}
use wasm_nginx_module.Prelude.{
  ℕ, ◌≤◌, ◌<◌, ◌≡◌, refl, sym, ap, subst, ◌∙◌, Bool, true, false, ◌||◌, List, Option, none, some,
  get_elem?, map, All, arith, ◌==◌,
}
use wasm_nginx_module.Words.{half32, is_neg32, slt32}
use wasm_nginx_module.Run.{ok, Returns, returns, bind, mono}
use wasm_nginx_module.Vm.{Engine}
use wasm_nginx_module.Host.{Host, Nginx, WasmState, MainConf, ProxyResult}
use wasm_nginx_module.State.{get_req}
use wasm_nginx_module.SetHeader.{replace_header_map_value, add_header_map_value}
use wasm_nginx_module.SetHeader.Laws.{IsBytes}
use wasm_nginx_module.LocalResponse.{send_local_response}
use wasm_nginx_module.Contexts.{
  ReqCtx, Store, World, Callback, Answer, no_state, ctx_state, count, call_for, clear_state,
}
use wasm_nginx_module.Contexts.Http.{Phase, http_callback, handle_rc, cb_name}
use wasm_nginx_module.HostApi.{Api}
use wasm_nginx_module.HostApi.Declared.{declared}
use wasm_nginx_module.HostApi.Wasmtime.{Val, kind, host_apis, host_api_func}
use wasm_nginx_module.HostApi.Functions.{host_functions}
use wasm_nginx_module.HostApi.Frames.{Frames, IfEnds, IgnoresPlugin}
use wasm_nginx_module.HostApi.Setters.{
  IgnoresRequest, remove_header_map_value-Frames, put_header_map_value-Frames,
}
use wasm_nginx_module.HostApi.Writers.{IgnoresLog, IgnoresCall, set_property-Frames}
use wasm_nginx_module.HostApi.Effects.{
  Every, Every-apply, answer-IfEnds, All-get_elem?, row_of, params-kinds, rows-Every,
}
use wasm_nginx_module.HostApi.Loops.{seen, send_local_response-seen}
use wasm_nginx_module.HostApi.Dialogue.{
  Turn, plugin_runs, called, Dialogue, begun, turned, Dialogue-current,
}

-- The host functions with which a plugin answers a request itself.
unfoldable pub answers_itself : String → Bool
answers_itself name =
    str_eq name "proxy_send_local_response" || str_eq name "proxy_send_http_response"

-- The response that the plugin has asked for.
abbrev conf : Host → MainConf
conf h = h.wmcf

conf_plugin : IgnoresPlugin conf
conf_plugin = record { ignores = λ h p. refl }

conf_request : IgnoresRequest conf
conf_request = record { ignores = λ h r. refl }

conf_log : IgnoresLog conf
conf_log = record { ignores = λ h l. refl }

conf_calls : IgnoresCall conf
conf_calls = record { ignores = λ h c n. refl }

module _ (e : Engine) (ng : Nginx) where
  rows-conf :
      All
        (λ p. answers_itself p.name ≡ false → Every (Frames conf) p.shape p.function)
        (declared (host_functions e ng))
  unfolding answers_itself host_functions replace_header_map_value add_header_map_value
  rows-conf =
      rows-Every conf_plugin conf_log conf_calls e ng _ (λ p every other. every)
        (λ other. set_property-Frames conf_plugin ng λ h k v. refl) (λ other. absurd (cc))
        (λ other. absurd (cc)) (λ other. remove_header_map_value-Frames conf_plugin conf_request ng)
        (λ other. put_header_map_value-Frames conf_plugin conf_request ng true)
        (λ other. put_header_map_value-Frames conf_plugin conf_request ng false)

  host_apis-conf :
      (i : ℕ) (api : Api Val) (args : List Val) (h : Host)
      → get_elem? (host_apis (host_functions e ng)) i ≡ some api
      → answers_itself api.name ≡ false
      → map kind args ≡ (host_api_func api).params
      → IfEnds (λ _ h'. conf h' ≡ conf h) (api.cb args h)
  host_apis-conf i api args h at other k =
      let d = host_functions e ng in
      let (p, at', row) = row_of d i api at in
      let k' = params-kinds p api args row k in
      let every =
        All-get_elem? _ (declared d) i p rows-conf at'
          (ap answers_itself (sym row.named) ∙ other) in
      rw (row.runs args h k') (
        answer-IfEnds (λ h'. conf h' ≡ conf h) _
          ((Every-apply (Frames conf) p.shape p.function args every k').keeps h))

  -- A turn in which the plugin does not answer the request itself.
  abbrev pub IsOther : {h h' : Host} → Turn e ng h h' → Type 0
  IsOther (plugin_runs m) = Unit
  IsOther (called i api args at k bytes returned) = answers_itself api.name ≡ false

  abbrev pub AreOthers : {h h' : Host} → Dialogue e ng h h' → Type 0
  AreOthers begun = Unit
  AreOthers (turned h' s t) = AreOthers s × IsOther t

  Turn-conf : (h h' : Host) (t : Turn e ng h h') → IsOther t → conf h' ≡ conf h
  Turn-conf h h' (plugin_runs m) other = refl
  Turn-conf h h' (called i api args at k bytes returned) other =
      subst (IfEnds (λ _ h'. conf h' ≡ conf h)) returned (host_apis-conf i api args h at other k)

  Dialogue-conf : (h h' : Host) (s : Dialogue e ng h h') → AreOthers s → conf h' ≡ conf h
  Dialogue-conf h h' begun others = refl
  Dialogue-conf h h' (turned h1 s t) others =
      Turn-conf h1 h' t others.1 ∙ Dialogue-conf h h1 s others.0

  -- The status that a plugin has given last is still there after any turns in which it gives no other.
  pub last_status :
      (h h1 h2 h3 : Host) (res_code body body_size headers headers_size : ℕ) (res : ProxyResult)
      → get_req h.cur_state ≡ true
      → Dialogue e ng h h1
      → IsBytes h1.mem
      → send_local_response ng res_code body body_size headers headers_size h1 ≡ ok res h2
      → (after : Dialogue e ng h2 h3) → AreOthers after
      → h3.wmcf.code ≡ res_code
  last_status h h1 h2 h3 res_code body body_size headers headers_size res req before bytes sent
        after others =
      let req1 = ap get_req (Dialogue-current e ng h h1 before) ∙ req in
      let given =
        subst (IfEnds (λ _ h'. seen h' ≡ (h1.cur_state, res_code))) sent (
          send_local_response-seen ng res_code body body_size headers headers_size h1 bytes req1) in
      ap (λ (c : MainConf). c.code) (Dialogue-conf h2 h3 after others)
      ∙ ap (λ (s : Option WasmState × ℕ). s.1) given

-- What the module finds behind a plugin that left the host `h` with the result `rc`.
abbrev pub answer_of : Host → ℕ → Answer
answer_of h rc = record {
  rc = rc;
  code = some h.wmcf.code;
  callout = elim h.ctx.callout [ none ↦ false | some c ↦ true ];
}

module _ (w : World) where
  call_for-answer_of :
      (r p : ℕ) (name : String) (args : List ℕ) (h : Host) (rc : ℕ) (s : Store)
      → ((n : ℕ) (cb : Callback) → cb.name ≡ name → w.call n cb ≡ answer_of h rc)
      → h.ctx.callout ≡ none
      → (s.req_at r).callout ≡ false
      → Returns
          (λ rc' s'.
            (rc' ≡ rc)
            × (s'.code ≡ h.wmcf.code)
            × ((s'.req_at r).callout ≡ false)
            × (s'.cur_state ≡ s.cur_state))
          (call_for w r p name args s)
  unfolding call_for
  call_for-answer_of r p name args h rc s answers free idle =
      let self : (r == r) ≡ true = ground arith in
      let cb : Callback = record { plugin = p; name = name; args = args; state = s.cur_state } in
      let given = answers (count s.calls) cb refl in
      let asked = ap (λ (a : Answer). a.callout) given ∙ rw free refl in
      returns (
        ap (λ (a : Answer). a.rc) given,
        ap (λ (a : Answer). elim a.code [ none ↦ s.code | some k ↦ k ]) given,
        rw (self, idle) asked,
        refl,
      )

  clear_state-code :
      (c : ℕ) (s : Store)
      → s.cur_state ≡ ctx_state c
      → Returns
          (λ _ s'. (s'.cur_state ≡ no_state) × (s'.code ≡ s.code) × (s'.req_at ≡ s.req_at))
          (clear_state w s)
  unfolding clear_state
  clear_state-code c s e = rw (clear_state, e) (returns (refl, refl, refl))

  handle_rc-code :
      (r rc : ℕ) (s : Store)
      → (s.req_at r).callout ≡ false
      → is_neg32 rc ≡ false
      → slt32 s.code 100 ≡ false
      → Returns
          (λ rc' s'. (rc' ≡ s.code) × (s'.code ≡ 0) × (s'.cur_state ≡ s.cur_state))
          (handle_rc w r rc s)
  unfolding handle_rc
  handle_rc-code r rc s idle pos high = rw (handle_rc, idle, pos, high) (returns (refl, refl, refl))

  -- A plugin answers a request itself: if `ngx_http_wasm_on_http` calls it for a request without a
  -- callout, and it calls `proxy_send_local_response` with a status from 100 on, then whatever other
  -- host functions of the tables it calls before, and after this call those that give no status, and
  -- whether this call finds its headers and body in the memory or not, the callback's result is that
  -- status, unless the plugin's own result is negative or it asked for an HTTP call. No status and no
  -- state are left behind.
  pub http_callback-last_status :
      (e : Engine) (ng : Nginx) (h h1 h2 h3 : Host)
      (res_code body body_size headers headers_size : ℕ) (res : ProxyResult) (rc : ℕ)
      → get_req h.cur_state ≡ true
      → Dialogue e ng h h1
      → IsBytes h1.mem
      → send_local_response ng res_code body body_size headers headers_size h1 ≡ ok res h2
      → 100 ≤ res_code
      → res_code < half32
      → (after : Dialogue e ng h2 h3) → AreOthers e ng after
      → h3.ctx.callout ≡ none
      → is_neg32 rc ≡ false
      → (c r : ℕ) (type : Phase) (size end x : ℕ) (s : Store)
      → ((n : ℕ) (cb : Callback) → cb.name ≡ cb_name w type → w.call n cb ≡ answer_of h3 rc)
      → s.cur_state ≡ ctx_state c
      → (s.req_at r).callout ≡ false
      → Returns
          (λ rc' s'. (rc' ≡ res_code) × (s'.code ≡ 0) × (s'.cur_state ≡ no_state))
          (http_callback w c r type size end (some x) s)
  unfolding http_callback
  http_callback-last_status e ng h h1 h2 h3 res_code body body_size headers headers_size res rc req
        before bytes sent low high after others free pos c r type size end x s answers state idle =
      let code =
        last_status e ng h h1 h2 h3 res_code body body_size headers headers_size res req before
          bytes sent after others in
      let above : slt32 res_code 100 ≡ false = ground arith in
      bind (call_for-answer_of r _ (cb_name w type) _ h3 rc s answers free idle)
        λ rc1 s1 (same_rc, code1, idle1, state1).
          bind (clear_state-code c s1 (state1 ∙ state)) λ u s2 (none_left, code2, reqs).
            let code' : s2.code ≡ res_code = code2 ∙ code1 ∙ code in
            mono
              (handle_rc-code r rc1 s2 (ap (λ (f : ℕ → ReqCtx). (f r).callout) reqs ∙ idle1)
                (ap is_neg32 same_rc ∙ pos) (ap (λ k. slt32 k 100) code' ∙ above))
              λ rc' s3 (status, cleared, same). (status ∙ code', cleared, same ∙ none_left)
