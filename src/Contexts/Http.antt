-- ===== src/Contexts/Http.antt =====
-- The HTTP contexts of src/http/ngx_http_wasm_module.c: `ngx_http_wasm_create_http_ctx`,
-- `ngx_http_wasm_fetch_http_ctx`, the callbacks `ngx_http_wasm_on_http` and
-- `ngx_http_wasm_on_http_call_resp`, and `ngx_http_wasm_cleanup` at the end of a request.
use Prim.Native.String.{String}
use wasm_nginx_module.Prelude.{
  ℕ, ◌-◌, Bool, true, false, not, List, [], ◌∷◌, ◌++◌, Option, none, some, ◌==◌, if◌then◌else◌,
}
use wasm_nginx_module.Words.{u32, add32, is_neg32, slt32}
use wasm_nginx_module.Run.{M, ok, fault, pure, ◌>>=◌, ◌>>◌}
use wasm_nginx_module.Contexts.{
  Store, World, ctx_state, call, call_for, alloc, clear_state, set_plugin, set_ctx, set_http,
  set_req, pop_last, remove, free_plugin_ctx,
}

-- NGX_DECLINED, -5, and RC_NEED_HTTP_CALL.
abbrev pub declined : ℕ
declined = u32 - 5

abbrev pub need_http_call : ℕ
need_http_call = 1

-- `ngx_http_wasm_phase_t`.
pub data Phase : Type 0 where
  http_request_headers http_request_body http_response_headers http_response_body : Phase

module _ (w : World) where
  -- A context out of the free queue of the plugin context, or a new one with the plugin's next id.
  unfoldable pub take_http_ctx : ℕ → M Store (Option ℕ)
  unfolding pop_last alloc
  take_http_ctx c s =
      let ctx = s.ctx_at c in
      elim (pop_last ctx.free) [
        | some (x, rest) ↦ ok (some x) (set_ctx s c (record ctx { free = rest }))
        | none ↦
            (do
              got ← alloc w
              elim got [
                | none ↦ pure none
                | some x ↦ λ s'.
                    let hw = s'.plugin_at ctx.hw_plugin in
                    let id = add32 hw.cur_ctx_id 1 in
                    ok (some x) (
                      set_http (set_plugin s' ctx.hw_plugin (record hw { cur_ctx_id = id })) x
                        (record { id = id; hwp_ctx = c }))
              ])
              s
      ]

  -- The announcement to the plugin, which can ask for a response or an HTTP call on the way. A context
  -- that it refuses goes to the free queue.
  unfoldable pub announce_http_ctx : ℕ → ℕ → Option ℕ → M Store (Option ℕ)
  unfolding call_for
  announce_http_ctx c r none s = ok none s
  announce_http_ctx c r (some x) s =
      (do
        rc ←
            call_for w r (s.ctx_at c).hw_plugin "proxy_on_context_create"
              ((s.http_at x).id ∷ (s.ctx_at c).id ∷ [])
        (λ s'.
            let ctx = s'.ctx_at c in
            if rc == 0
            then ok (some x) (set_ctx s' c (record ctx { occupied = x ∷ ctx.occupied }))
            else ok none (set_ctx s' c (record ctx { free = x ∷ ctx.free }))))
        s

  -- `ngx_http_wasm_create_http_ctx`.
  unfoldable pub create_http_ctx : ℕ → ℕ → M Store (Option ℕ)
  unfolding take_http_ctx announce_http_ctx
  create_http_ctx c r = do got ← take_http_ctx c; announce_http_ctx c r got

  -- `ngx_http_wasm_get_module_ctx`: whether the request has its context, made if need be. The second
  -- allocation is that of the clean-up handler.
  unfoldable pub get_module_ctx : ℕ → M Store Bool
  unfolding alloc
  get_module_ctx r s =
      if (s.req_at r).has_ctx
      then ok true s
      else (do
        ctx ← alloc w
        elim ctx [
          | none ↦ pure false
          | some _ ↦ do
            cln ← alloc w
            elim cln [
              | none ↦ pure false
              | some _ ↦ λ s'. ok true (
                  set_req s' r
                    (record { has_ctx = true; has_array = false; http_ctxs = []; callout = false }))
            ]
        ])
          s

  -- The array of the request's HTTP contexts, made if need be.
  unfoldable pub get_array : ℕ → M Store Bool
  unfolding alloc
  get_array r s =
      if (s.req_at r).has_array
      then ok true s
      else (do
        elts ← alloc w
        elim elts [
          | none ↦ pure false
          | some _ ↦ λ s'. ok true (set_req s' r (record (s'.req_at r) { has_array = true }))
        ])
          s

  -- The loop of `ngx_http_wasm_fetch_http_ctx`.
  unfoldable pub find_ctx : Store → ℕ → List ℕ → Option ℕ
  find_ctx s c [] = none
  find_ctx s c (x ∷ xs) = if (s.http_at x).hwp_ctx == c then some x else find_ctx s c xs

  -- `ngx_array_push` of a new HTTP context. The place that it gives is not tested for NULL.
  unfoldable pub push_ctx : ℕ → Option ℕ → M Store (Option ℕ)
  push_ctx r none s = ok none s
  push_ctx r (some x) s =
      let q = s.req_at r in
      if w.array_push s.next
      then ok (some x) (set_req s r (record q { http_ctxs = q.http_ctxs ++ (x ∷ []) }))
      else fault

  -- The HTTP context of the plugin context in the array, made if need be.
  unfoldable pub find_or_create : ℕ → ℕ → M Store (Option ℕ)
  unfolding find_ctx create_http_ctx push_ctx
  find_or_create c r s = elim (find_ctx s c (s.req_at r).http_ctxs) [
    | some x ↦ ok (some x) s
    | none ↦ (do got ← create_http_ctx c r; push_ctx r got) s
  ]

  -- `ngx_http_wasm_fetch_http_ctx`.
  unfoldable pub fetch_http_ctx : ℕ → ℕ → M Store (Option ℕ)
  unfolding get_module_ctx get_array find_or_create
  fetch_http_ctx c r = do
    ctx ← get_module_ctx r
    if not ctx
        then pure none
        else do elts ← get_array r; if not elts then pure none else find_or_create c r

  -- `ngx_http_wasm_handle_rc_before_proxy`.
  unfoldable pub handle_rc : ℕ → ℕ → M Store ℕ
  handle_rc r rc s =
      let s' = record s { code = 0 } in
      if (s.req_at r).callout
      then ok need_http_call s'
      else if is_neg32 rc
      then ok rc s'
      else if not (slt32 s.code 100)
      then ok s.code s'
      else ok rc s'

  unfoldable pub cb_name : Phase → String
  cb_name http_request_headers = "proxy_on_request_headers"
  cb_name http_request_body = "proxy_on_request_body"
  cb_name http_response_headers = "proxy_on_response_headers"
  cb_name http_response_body = "proxy_on_response_body"

  -- The arguments of the callback. PROXY_WASM_ABI_VER_010, 0, has one argument less for headers.
  unfoldable pub cb_args : Phase → ℕ → ℕ → ℕ → ℕ → List ℕ
  cb_args http_request_headers abi id size end = if abi == 0 then id ∷ 0 ∷ [] else id ∷ 0 ∷ 1 ∷ []
  cb_args http_response_headers abi id size end = if abi == 0 then id ∷ 0 ∷ [] else id ∷ 0 ∷ 1 ∷ []
  cb_args http_request_body abi id size end = id ∷ size ∷ end ∷ []
  cb_args http_response_body abi id size end = id ∷ size ∷ end ∷ []

  -- The state of the plugin context for the request, with the body where there is one.
  unfoldable pub enter : ℕ → ℕ → Option (List ℕ) → M Store (Unit {0})
  enter c r body s =
      let ctx = s.ctx_at c in
      ok tt
        (record (set_ctx s c
          (record ctx { req = some r; body = elim body [ none ↦ ctx.body | some b ↦ b ] })) {
            cur_state = ctx_state c;
          })

  -- Behind the fetch of the HTTP context: the callback of the phase.
  unfoldable pub http_callback : ℕ → ℕ → Phase → ℕ → ℕ → Option ℕ → M Store ℕ
  unfolding call_for clear_state handle_rc cb_name cb_args
  http_callback c r type size end none = do clear_state w; pure declined
  http_callback c r type size end (some x) = do
    rc ← (λ s.
        let p = (s.ctx_at c).hw_plugin in
        call_for w r p (cb_name type)
          (cb_args type (s.plugin_at p).abi_version (s.http_at x).id size end) s)
    clear_state w
    handle_rc r rc

  -- Behind the first test of `ngx_http_wasm_on_http`.
  unfoldable pub run_http : ℕ → ℕ → Phase → Option (List ℕ) → ℕ → ℕ → M Store ℕ
  unfolding enter fetch_http_ctx http_callback
  run_http c r type body size end = do
    enter c r body
    got ← fetch_http_ctx c r
    http_callback c r type size end got

  -- `ngx_http_wasm_on_http`.
  unfoldable pub on_http : ℕ → ℕ → Phase → Option (List ℕ) → ℕ → ℕ → M Store ℕ
  on_http c r type body size end s =
      if not s.vm_inited then ok declined s else run_http c r type body size end s

  -- Behind the fetch of the HTTP context: the callback for the response.
  unfoldable pub resp_callback : ℕ → ℕ → ℕ → ℕ → ℕ → Option ℕ → M Store ℕ
  unfolding call_for clear_state handle_rc
  resp_callback c r callout_id n_header body_size none = do clear_state w; pure declined
  resp_callback c r callout_id n_header body_size (some x) = do
    rc ← (λ s.
        call_for w r (s.ctx_at c).hw_plugin "proxy_on_http_call_response"
          ((s.ctx_at c).id ∷ callout_id ∷ n_header ∷ body_size ∷ 0 ∷ []) s)
    clear_state w
    handle_rc r rc

  -- `ngx_http_wasm_on_http_call_resp`, with the callout's id, the number of headers and the size of the
  -- body. The callback has no result.
  unfoldable pub on_http_call_resp : ℕ → ℕ → ℕ → ℕ → ℕ → M Store ℕ
  unfolding enter fetch_http_ctx resp_callback
  on_http_call_resp c r callout_id n_header body_size s =
      if not s.vm_inited
      then ok declined s
      else (do
        enter c r none
        got ← fetch_http_ctx c r
        resp_callback c r callout_id n_header body_size got)
          s

  -- In the loop of `ngx_http_wasm_cleanup`: the HTTP context goes to the free queue.
  unfoldable pub retire_http_ctx : ℕ → M Store (Unit {0})
  unfolding remove
  retire_http_ctx x s =
      let c = (s.http_at x).hwp_ctx in
      let ctx = s.ctx_at c in
      ok tt (
        set_ctx s c (record ctx { occupied = remove x ctx.occupied; free = x ∷ remove x ctx.free }))

  -- The end of a round: the plugin context goes too if it was deleted.
  unfoldable pub free_done_ctx : ℕ → M Store (Unit {0})
  free_done_ctx c s = if (s.ctx_at c).done then free_plugin_ctx w c s else ok tt s

  -- One round of the loop of `ngx_http_wasm_cleanup`.
  unfoldable pub cleanup_one : ℕ → M Store (Unit {0})
  unfolding call retire_http_ctx
  cleanup_one x s =
      let http = s.http_at x in
      let c = http.hwp_ctx in
      let p = (s.ctx_at c).hw_plugin in
      (do
        retire_http_ctx x
        call w p "proxy_on_done" (http.id ∷ [])
        call w p "proxy_on_delete" (http.id ∷ [])
        free_done_ctx c)
        s

  -- `ngx_http_wasm_cleanup` over the array of the request.
  unfoldable pub cleanup : List ℕ → M Store (Unit {0})
  unfolding cleanup_one
  cleanup [] = pure tt
  cleanup (x ∷ xs) = do cleanup_one x; cleanup xs
