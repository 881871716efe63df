-- ===== src/Loader/Plugin.antt =====
-- `ngx_http_wasm_load_plugin` of src/http/ngx_http_wasm_module.c: a plugin is loaded by the engine,
-- started, and described by an object of the module. The state is the plugin that the engine holds.
use Prim.Native.String.{String}
use wasm_nginx_module.Prelude.{
  ℕ, suc, Bool, false, not, List, [], ◌∷◌, Option, none, some, if◌then◌else◌, ◌==◌,
}
use wasm_nginx_module.Run.{Run, M, ok, fault, out_of_fuel, pure, ◌>>=◌}
use wasm_nginx_module.Vm.{Engine, Plugin, call, has, ngx_ok}
use wasm_nginx_module.Contexts.{WasmPlugin}

-- `abi_versions`, in the order of their numbers.
abbrev pub abi_versions : List String
abi_versions =
    "proxy_abi_version_0_1_0" ∷ "proxy_abi_version_0_2_0" ∷ "proxy_abi_version_0_2_1" ∷ []

abbrev pub Process : Type 0
Process = Option Plugin

-- A call into the plugin that the engine holds.
abbrev pub within : {A : Type 0} → Run Plugin A → Run Process A
within (ok a p) = ok a (some p)
within fault = fault
within out_of_fuel = out_of_fuel

abbrev pub on_loaded : {A : Type 0} → M Plugin A → M Process A
on_loaded f none = fault
on_loaded f (some p) = within (f p)

-- `ngx_wasm_vm->unload(plugin)` at the label `free_plugin`.
abbrev pub give_up : M Process (Option WasmPlugin)
give_up s = ok none none

module _ (e : Engine) where
  -- `_start`, or `_initialize`, where the plugin has it.
  unfoldable pub start_plugin : M Plugin ℕ
  unfolding call has
  start_plugin =
      if has e "_start"
      then call e "_start" false 1 []
      else if has e "_initialize"
      then call e "_initialize" false 1 []
      else pure ngx_ok

  -- The loop over the versions, from the index `i` on.
  unfoldable pub abi_loop : List String → ℕ → ℕ → ℕ
  unfolding has
  abi_loop [] i abi_version = abi_version
  abi_loop (v ∷ vs) i abi_version = abi_loop vs (suc i) (if has e v then i else abi_version)

  -- The new object; PROXY_WASM_ABI_VER_MAX is 99.
  unfoldable pub new_plugin : WasmPlugin
  unfolding abi_loop
  new_plugin = record {
    cur_ctx_id = 0;
    abi_version = abi_loop abi_versions 0 99;
    occupied = [];
    free = [];
    done = false;
    freed = false;
  }

  -- Behind the engine's `load`. `room` tells whether `ngx_calloc` succeeds.
  unfoldable pub start_loaded : Bool → M Process (Option WasmPlugin)
  unfolding start_plugin new_plugin
  start_loaded room = do
    rc ← on_loaded start_plugin
    let made = if room then pure (some new_plugin) else give_up
    if rc == ngx_ok then made else give_up

  -- `ngx_http_wasm_load_plugin`, with what the engine's `load` gives.
  unfoldable pub load_plugin : Bool → Option Plugin → Bool → M Process (Option WasmPlugin)
  load_plugin inited none room s = ok none s
  load_plugin inited (some plugin) room s =
      if not inited then ok none s else start_loaded room (some plugin)
