-- ===== src/Contexts.antt =====
-- The objects of src/http/ngx_http_wasm_module.c: a plugin, its plugin contexts, and their HTTP
-- contexts, each in a queue of its owner (src/http/ngx_http_wasm_ctx.h). Objects are at addresses of a
-- store; a queue is the list of its members' addresses, its head first.
pub mod Configure
pub mod Http
pub mod FreeLaws
pub mod CleanupLaws
pub mod HttpLaws
pub mod FetchLaws
pub mod CallbackLaws
use Prim.Native.String.{String}
use wasm_nginx_module.Prelude.{
  ℕ, zero, suc, ◌+◌, Bool, true, false, not, ◌||◌, List, [], ◌∷◌, ◌++◌, Option, none, some, ◌==◌,
  if◌then◌else◌,
}
use wasm_nginx_module.Words.{u32, half32, is_neg32, add32}
use wasm_nginx_module.Run.{M, Run, ok, fault, pure, undefined, ◌>>=◌, ◌>>◌}

-- `ngx_http_wasm_plugin_t`. `freed` tells that the object was given back.
pub record WasmPlugin : Type 0 where
  pub cur_ctx_id : ℕ
  pub abi_version : ℕ
  pub occupied : List ℕ
  pub free : List ℕ
  pub done : Bool
  pub freed : Bool

-- `ngx_http_wasm_plugin_ctx_t`. `has_pool` tells whether `pool` is not NULL. The members `conf`, `req`
-- and `body` are those of its state, which lives in the pool.
pub record PluginCtx : Type 0 where
  pub id : ℕ
  pub hw_plugin : ℕ
  pub has_pool : Bool
  pub occupied : List ℕ
  pub free : List ℕ
  pub done : Bool
  pub conf : List ℕ
  pub req : Option ℕ
  pub body : List ℕ

-- `ngx_http_wasm_http_ctx_t`.
pub record HttpCtx : Type 0 where
  pub id : ℕ
  pub hwp_ctx : ℕ

-- The current state of src/http/ngx_http_wasm_state.c: that of a plugin or of a plugin context.
pub data CurState : Type 0 where
  no_state : CurState
  plugin_state ctx_state : ℕ → CurState

-- A call into a plugin, as it was made.
pub record Callback : Type 0 where
  pub plugin : ℕ
  pub name : String
  pub args : List ℕ
  pub state : CurState

-- `ngx_http_wasm_ctx_t`: what a request has of the module. `has_ctx` and `has_array` tell whether the
-- context and its array `http_ctxs` have been made.
pub record ReqCtx : Type 0 where
  pub has_ctx : Bool
  pub has_array : Bool
  pub http_ctxs : List ℕ
  pub callout : Bool

-- `next` is the address of the next allocation. `calls` is the log of the calls into plugins, the
-- latest first, and `unloaded` the plugins whose code the VM has dropped.
pub record Store : Type 0 where
  pub plugin_at : ℕ → WasmPlugin
  pub ctx_at : ℕ → PluginCtx
  pub http_at : ℕ → HttpCtx
  pub req_at : ℕ → ReqCtx
  -- `ngx_http_wasm_vm_inited`, and `code` of the main configuration
  pub vm_inited : Bool
  pub code : ℕ
  pub next : ℕ
  pub cur_state : CurState
  pub calls : List Callback
  pub unloaded : List ℕ

-- What comes of a call into a plugin: the result, and what the plugin asked for on the way, a status
-- for a response of its own (`proxy_send_local_response`) or an HTTP call (`proxy_http_call`).
pub record Answer : Type 0 where
  pub rc : ℕ
  pub code : Option ℕ
  pub callout : Bool

-- What the contexts need of the outside: the answer of a plugin to a call, by the number of calls made
-- so far, whether an allocation succeeds, whether `ngx_array_push` finds room, each by the number of
-- allocations made so far, and what is in memory that `ngx_palloc` gives out.
pub record World : Type 0 where
  pub call : ℕ → Callback → Answer
  pub alloc : ℕ → Bool
  pub array_push : ℕ → Bool
  pub uninitialised : List ℕ

abbrev pub set_plugin : Store → ℕ → WasmPlugin → Store
set_plugin s p v = record s { plugin_at = λ q. if q == p then v else s.plugin_at q }

abbrev pub set_ctx : Store → ℕ → PluginCtx → Store
set_ctx s p v = record s { ctx_at = λ q. if q == p then v else s.ctx_at q }

abbrev pub set_http : Store → ℕ → HttpCtx → Store
set_http s p v = record s { http_at = λ q. if q == p then v else s.http_at q }

abbrev pub set_req : Store → ℕ → ReqCtx → Store
set_req s p v = record s { req_at = λ q. if q == p then v else s.req_at q }

-- `ngx_queue_remove`: the member is unlinked from the queue that it is in.
unfoldable pub remove : ℕ → List ℕ → List ℕ
remove p [] = []
remove p (q ∷ qs) = if q == p then qs else q ∷ remove p qs

-- `ngx_queue_last`, and the queue without it; `none` for an empty queue.
unfoldable pub pop_last : List ℕ → Option (ℕ × List ℕ)
pop_last [] = none
pop_last (q ∷ qs) = elim (pop_last qs) [ none ↦ some (q, []) | some (l, r) ↦ some (l, q ∷ r) ]

abbrev pub is_empty : List ℕ → Bool
is_empty [] = true
is_empty (q ∷ qs) = false

abbrev pub count : List Callback → ℕ
count [] = 0
count (c ∷ cs) = suc (count cs)

module _ (w : World) where
  -- `ngx_wasm_vm->call` where the plugin runs for no request.
  unfoldable pub call : ℕ → String → List ℕ → M Store ℕ
  call plugin name args s =
      let c : Callback = record {
        plugin = plugin;
        name = name;
        args = args;
        state = s.cur_state;
      } in
      ok (w.call (count s.calls) c).rc (record s { calls = c ∷ s.calls })

  -- The same where it runs for the request `r`, and can ask for a response or an HTTP call.
  unfoldable pub call_for : ℕ → ℕ → String → List ℕ → M Store ℕ
  call_for r plugin name args s =
      let c : Callback = record {
        plugin = plugin;
        name = name;
        args = args;
        state = s.cur_state;
      } in
      let a = w.call (count s.calls) c in
      let q = s.req_at r in
      ok a.rc (
        set_req
          (record s { calls = c ∷ s.calls; code = elim a.code [ none ↦ s.code | some k ↦ k ] }) r
          (record q { callout = q.callout || a.callout }))

  -- `ngx_alloc` and its kin: a fresh address, unless memory is short.
  unfoldable pub alloc : M Store (Option ℕ)
  alloc s =
      if w.alloc s.next
      then ok (some s.next) (record s { next = suc s.next })
      else ok none (record s { next = suc s.next })

  -- `ngx_http_wasm_set_state(NULL)`, which clears the body of the state that was current, and
  -- `ngx_http_wasm_set_state` with a state. The state of a plugin never has a body.
  unfoldable pub clear_state : M Store (Unit {0})
  clear_state s = elim s.cur_state [
    | no_state ↦ fault
    | plugin_state p ↦ ok tt (record s { cur_state = no_state })
    | ctx_state c ↦
        ok tt (set_ctx (record s { cur_state = no_state }) c (record (s.ctx_at c) { body = [] }))
  ]

  unfoldable pub set_state : CurState → M Store (Unit {0})
  set_state c s = ok tt (record s { cur_state = c })

  -- `ngx_http_wasm_free_plugin`. The queue of free contexts is emptied with the plugin.
  unfoldable pub free_plugin : ℕ → M Store (Unit {0})
  free_plugin p s =
      let hw = s.plugin_at p in
      if not (is_empty hw.occupied)
      then ok tt s
      else ok tt (
          set_plugin (record s { unloaded = p ∷ s.unloaded }) p
            (record hw { free = []; freed = true }))

  -- `ngx_http_wasm_unload_plugin`.
  unfoldable pub unload_plugin : ℕ → M Store (Unit {0})
  unfolding free_plugin
  unload_plugin p s = free_plugin p (set_plugin s p (record (s.plugin_at p) { done = true }))

  -- Behind the test of `ngx_http_wasm_free_plugin_ctx`: the context goes to the free queue.
  unfoldable pub retire_ctx : ℕ → M Store (Unit {0})
  retire_ctx c s =
      let ctx = s.ctx_at c in
      let hw = s.plugin_at ctx.hw_plugin in
      ok tt (
        set_plugin s ctx.hw_plugin
          (record hw { occupied = remove c hw.occupied; free = c ∷ remove c hw.free }))

  -- `ngx_destroy_pool(hwp_ctx->pool)`, with the HTTP contexts in it.
  unfoldable pub destroy_pool : ℕ → M Store (Unit {0})
  destroy_pool c s =
      let ctx = s.ctx_at c in
      if ctx.has_pool
      then ok tt (set_ctx s c (record ctx { has_pool = false; occupied = []; free = [] }))
      else ok tt s

  -- The end of `ngx_http_wasm_free_plugin_ctx`: the plugin goes too if it was unloaded.
  unfoldable pub free_done_plugin : ℕ → M Store (Unit {0})
  free_done_plugin p s = if (s.plugin_at p).done then free_plugin p s else ok tt s

  -- `ngx_http_wasm_free_plugin_ctx` behind its test. The results of the two calls are only logged.
  unfoldable pub release_ctx : ℕ → M Store (Unit {0})
  unfolding call retire_ctx destroy_pool free_done_plugin
  release_ctx c s =
      let ctx = s.ctx_at c in
      let p = ctx.hw_plugin in
      (do
        retire_ctx c
        call p "proxy_on_done" (ctx.id ∷ [])
        call p "proxy_on_delete" (ctx.id ∷ [])
        destroy_pool c
        free_done_plugin p)
        s

  -- `ngx_http_wasm_free_plugin_ctx`.
  unfoldable pub free_plugin_ctx : ℕ → M Store (Unit {0})
  free_plugin_ctx c s = if not (is_empty (s.ctx_at c).occupied) then ok tt s else release_ctx c s

  -- `ngx_http_wasm_delete_plugin_ctx`.
  unfoldable pub delete_plugin_ctx : ℕ → M Store (Unit {0})
  delete_plugin_ctx c s = free_plugin_ctx c (set_ctx s c (record (s.ctx_at c) { done = true }))
