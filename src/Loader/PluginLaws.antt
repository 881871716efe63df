-- ===== src/Loader/PluginLaws.antt =====
-- What `ngx_http_wasm_load_plugin` of src/http/ngx_http_wasm_module.c gives, and what it leaves loaded.
use Prim.Native.String.{String}
use wasm_nginx_module.Prelude.{ℕ, ◌≡◌, true, false, [], Option, none, some}
use wasm_nginx_module.Run.{Run}
use wasm_nginx_module.Vm.{Engine, Plugin}
use wasm_nginx_module.Contexts.{WasmPlugin}
use wasm_nginx_module.Loader.Plugin.{Process}

-- The number of the version that a plugin is taken for: the last that it exports, or 99.
pub data VersionOf (e : Engine) : ℕ → Type 0 where
  newest : e.exports "proxy_abi_version_0_2_1" ≡ true → VersionOf e 2
  middle :
      e.exports "proxy_abi_version_0_2_1" ≡ false
      → e.exports "proxy_abi_version_0_2_0" ≡ true
      → VersionOf e 1
  oldest :
      e.exports "proxy_abi_version_0_2_1" ≡ false
      → e.exports "proxy_abi_version_0_2_0" ≡ false
      → e.exports "proxy_abi_version_0_1_0" ≡ true
      → VersionOf e 0
  unknown :
      e.exports "proxy_abi_version_0_2_1" ≡ false
      → e.exports "proxy_abi_version_0_2_0" ≡ false
      → e.exports "proxy_abi_version_0_1_0" ≡ false
      → VersionOf e 99

-- The object and the plugin that stays loaded go together: there is an object, new and with the right
-- version, and a plugin, or there is neither.
abbrev pub Matched : Engine → Option WasmPlugin → Process → Type 0
Matched e (some hw) (some p) =
    VersionOf e hw.abi_version × (hw.occupied ≡ []) × (hw.free ≡ []) × (hw.done ≡ false)
Matched e none none = Unit
Matched e _ _ = ⊥

module _ (e : Engine) where
  -- What the plugin exports for its start are functions.
  pub record StartsByFunctions : Type 0 where
    pub start : e.exports "_start" ≡ true → e.is_function "_start" ≡ true
    pub initialize : e.exports "_initialize" ≡ true → e.is_function "_initialize" ≡ true
