-- ===== src/Property.antt =====
-- `proxy_get_property` and `proxy_set_property` of src/http/ngx_http_wasm_api.c: a plugin reads and
-- writes nginx's variables.
pub mod Laws
use wasm_nginx_module.Prelude.{
  ℕ, ◌+◌, ◌%◌, Bool, true, false, ◌&&◌, ◌||◌, List, [], ◌∷◌, Option, none, some, length,
  if◌then◌else◌, ◌==◌,
}
use wasm_nginx_module.Words.{u32, sext64, add64}
use wasm_nginx_module.Run.{M, ok, fault, pure, undefined, ◌>>=◌, ◌>>◌}
use wasm_nginx_module.Memory.{copy_out}
use wasm_nginx_module.Vm.{Engine, ngx_ok}
use wasm_nginx_module.Host.{
  Host, Nginx, ProxyResult, result_ok, not_found, internal_failure, on_mem, get_mem,
  must_get_memory,
}
use wasm_nginx_module.State.{get_plugin_name, must_get_req}
use wasm_nginx_module.Copy.{copy_to_wasm}
use wasm_nginx_module.Pseudo.{bytes}
use wasm_nginx_module.Pairs.{get_string_buf}

-- Whether a text begins with another, and whether it has another in it.
abbrev pub starts_with : List ℕ → List ℕ → Bool
starts_with [] ys = true
starts_with (x ∷ xs) [] = false
starts_with (x ∷ xs) (y ∷ ys) = x == y && starts_with xs ys

abbrev pub contains : List ℕ → List ℕ → Bool
contains xs [] = starts_with xs []
contains xs (y ∷ ys) = starts_with xs (y ∷ ys) || contains xs ys

module _ (e : Engine) (ng : Nginx) where
  -- The name of the plugin, which the AssemblyScript SDK asks for. Without a state there is none, and
  -- the pointer is used all the same.
  unfoldable pub get_root_id : ℕ → ℕ → M Host ProxyResult
  unfolding get_plugin_name copy_to_wasm
  get_root_id res_data res_size h = elim (get_plugin_name h.cur_state) [
    | none ↦ undefined h
    | some name ↦ copy_to_wasm e name (length name % u32) res_data res_size h
  ]

  -- The value of a variable: NULL, which is read all the same, one that is not found, or a value.
  unfoldable pub hand_variable : ℕ → ℕ → Option (Option (List ℕ)) → M Host ProxyResult
  unfolding copy_to_wasm
  hand_variable res_data res_size none = undefined
  hand_variable res_data res_size (some none) = pure not_found
  hand_variable res_data res_size (some (some val)) =
      copy_to_wasm e val (length val % u32) res_data res_size

  unfoldable pub read_variable : ℕ → ℕ → ℕ → ℕ → M Host ProxyResult
  unfolding get_string_buf
  read_variable p path_size res_data res_size = do
    lowcase_buf ← get_string_buf ng (sext64 path_size)
    let found = on_mem (copy_out p (sext64 path_size)) >>= λ name.
        λ (h : Host). hand_variable res_data res_size (ng.get_variable h.r (ng.strlow name)) h
    if lowcase_buf then found else undefined

  unfoldable pub get_variable : ℕ → ℕ → ℕ → ℕ → M Host ProxyResult
  unfolding must_get_req
  get_variable p path_size res_data res_size =
      must_get_req (read_variable p path_size res_data res_size)

  -- The choice by the path, with a pointer to it.
  unfoldable pub get_property_at : ℕ → ℕ → ℕ → ℕ → M Host ProxyResult
  get_property_at p path_size res_data res_size =
      let other = get_variable p path_size res_data res_size in
      let root = get_root_id res_data res_size in
      let compared = on_mem (copy_out p 14) >>= λ path.
      if starts_with (bytes "plugin_root_id") path then root else other in
      if path_size == 14 then compared else other

  -- `proxy_get_property`.
  unfoldable pub get_property : ℕ → ℕ → ℕ → ℕ → M Host ProxyResult
  unfolding get_property_at must_get_memory
  get_property path_data path_size res_data res_size =
      must_get_memory path_data path_size λ p. get_property_at p path_size res_data res_size

module _ (ng : Nginx) where
  -- The bytes of a value, where there is a pointer to it.
  unfoldable pub value_at : Option ℕ → ℕ → M Host (Option (List ℕ))
  value_at none size = pure none
  value_at (some p) size = on_mem (copy_out p (sext64 size)) >>= λ bs. pure (some bs)

  -- `set_variable` of lua-resty-core, and what its result is reported as. The message of an error is the
  -- format of `ngx_log_error`, which is given no arguments.
  unfoldable pub write_variable : List ℕ → Option (List ℕ) → M Host ProxyResult
  write_variable key value h =
      let (result, errmsg, r) = ng.set_variable h.r key value in
      let failure =
        if contains (bytes "not found for writing") errmsg then not_found else internal_failure in
      if result == ngx_ok
      then ok result_ok (record h { r = r })
      else if ng.takes_arguments errmsg
      then fault
      else ok failure (record h { r = r })

  -- `proxy_set_property`. The pointer to the value is not tested.
  unfoldable pub set_property : ℕ → ℕ → ℕ → ℕ → M Host ProxyResult
  unfolding must_get_req must_get_memory get_mem get_string_buf value_at write_variable
  set_property path_data path_size value_data size =
      let written = λ (key : ℕ). λ (value : Option ℕ).
        on_mem (copy_out key (sext64 path_size)) >>= λ k.
        value_at value size >>= λ v. write_variable k v in
      must_get_req (
        must_get_memory path_data path_size λ key. get_mem value_data size >>= λ value.
        get_string_buf ng (add64 (sext64 path_size) 256) >>= λ key_lowcase.
        if key_lowcase then written key value else undefined)
