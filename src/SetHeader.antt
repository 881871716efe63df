-- ===== src/SetHeader.antt =====
-- How a plugin changes headers: `ngx_http_wasm_set_req_header`, `ngx_http_wasm_set_resp_header`, and
-- the host functions `proxy_remove_header_map_value`, `proxy_replace_header_map_value` and
-- `proxy_add_header_map_value` of src/http/ngx_http_wasm_api.c.
pub mod Laws
pub mod Values
pub mod PseudoHeaders
use wasm_nginx_module.Prelude.{
  ℕ, suc, ◌+◌, Bool, true, false, ◌&&◌, ◌||◌, List, [], ◌∷◌, Option, none, some, length, drop,
  if◌then◌else◌, ◌==◌,
}
use wasm_nginx_module.Words.{sext64}
use wasm_nginx_module.Run.{M, ok, pure, undefined, ◌>>=◌}
use wasm_nginx_module.Memory.{copy_out}
use wasm_nginx_module.Vm.{ngx_ok}
use wasm_nginx_module.Host.{
  Host, Nginx, Request, ProxyResult, result_ok, bad_argument, unimplemented, on_mem,
  must_get_memory,
}
use wasm_nginx_module.State.{must_get_req}
use wasm_nginx_module.Pseudo.{
  Pseudo, scheme, path, method, authority, status, PseudoHeader, req_table, find_pseudo, bytes,
  starts_with_colon,
}
use wasm_nginx_module.Chars.{check_unsafe_uri_bytes, check_unsafe_method}
use wasm_nginx_module.Call.{ngx_declined}

-- The bytes of a value; NULL comes with the length 0.
abbrev pub value_of : Option (List ℕ) → List ℕ
value_of none = []
value_of (some v) = v

-- NGX_OK and NGX_DECLINED are both taken for success.
abbrev pub succeeded : ℕ → Bool
succeeded rc = rc == ngx_ok || rc == ngx_declined

-- The request table behind its first entry: "skip :scheme which is readonly".
abbrev pub settable : List PseudoHeader
settable = drop 1 req_table

module _ (ng : Nginx) where
  -- `ngx_palloc(r->pool, size)`.
  unfoldable pub palloc : ℕ → M Host Bool
  palloc size h =
      ok (ng.palloc h.tick size) (record h { plugin = record { mem = h.mem; tick = suc h.tick } })

  -- The request with the path `val`.
  unfoldable pub with_uri : Request → List ℕ → Request
  with_uri r val =
      record (ng.set_exten (record r { uri = val; internal = true; valid_unparsed_uri = false })) {
        valid_location = false;
        uri_changed = false;
      }

  -- The branch for PROXY_WASM_REQUEST_HEADER_PATH. The result tells whether it was NGX_OK.
  unfoldable pub set_path : List ℕ → M Host Bool
  unfolding palloc with_uri
  set_path val = elim (check_unsafe_uri_bytes val) [
    | some byte ↦ pure false
    | none ↦ do
      p ← palloc (length val)
      if p then (λ h. ok true (record h { r = with_uri h.r val })) else pure false
  ]

  -- The branch for any other type of the table.
  unfoldable pub set_method : List ℕ → M Host Bool
  unfolding palloc
  set_method val = elim (check_unsafe_method val) [
    | some byte ↦ pure false
    | none ↦ do
      p ← palloc (length val)
      if p then (λ h. ok true (record h { r = record (h.r) { method_name = val } })) else pure false
  ]

  -- The call of lua-nginx-module for a header that is none of the table's.
  unfoldable pub set_plain_header : List ℕ → Option (List ℕ) → Bool → M Host Bool
  set_plain_header key val override h =
      let (rc, r) = ng.set_req_header h.r key val override in ok (succeeded rc) (record h { r = r })

  -- The choice of the branch by the type that the search found.
  unfoldable pub set_by_type : Option Pseudo → List ℕ → Option (List ℕ) → Bool → M Host Bool
  unfolding set_path set_method set_plain_header
  set_by_type none key val override = set_plain_header key val override
  set_by_type (some path) key val override = set_path (value_of val)
  set_by_type (some _) key val override = set_method (value_of val)

  -- `ngx_http_wasm_set_req_header`.
  unfoldable pub set_req_header : List ℕ → Option (List ℕ) → Bool → M Host Bool
  unfolding set_by_type
  set_req_header key val override =
      if starts_with_colon key
      then (if length (value_of val) == 0
          then pure false
          else set_by_type (find_pseudo ng settable key) key val override)
      else set_by_type none key val override

  -- `ngx_http_wasm_set_resp_header`.
  unfoldable pub set_resp_header : List ℕ → Bool → Option (List ℕ) → Bool → M Host Bool
  set_resp_header key is_nil val override h =
      if length key == 7 && ng.strncasecmp_eq key (bytes ":status")
      then (if is_nil then ok false h else elim (ng.atoi (value_of val)) [
        | none ↦ ok false h
        | some code ↦
            let (rc, r) = ng.set_resp_status h.r code in ok (succeeded rc) (record h { r = r })
      ])
      else (let (rc, r) = ng.set_resp_header h.r key is_nil val override in
          ok (succeeded rc) (record h { r = r }))

  -- The end of the three host functions.
  abbrev pub answer : Bool → M Host ProxyResult
  answer done = pure (if done then result_ok else bad_argument)

  -- The switch of `proxy_remove_header_map_value`, with a pointer to the key. The type 0 is that of
  -- the request's headers, and 2 that of the response's.
  unfoldable pub remove_at : ℕ → ℕ → ℕ → M Host ProxyResult
  remove_at type p key_size =
      if type == 0
      then (do
        key ← on_mem (copy_out p (sext64 key_size))
        done ← set_req_header key none true
        answer done)
      else if type == 2
      then (do
        key ← on_mem (copy_out p (sext64 key_size))
        done ← set_resp_header key true none true
        answer done)
      else pure unimplemented

  unfoldable pub remove_header_map_value : ℕ → ℕ → ℕ → M Host ProxyResult
  remove_header_map_value type key_data key_size =
      must_get_req (must_get_memory key_data key_size λ p. remove_at type p key_size)

  -- The switch of `proxy_replace_header_map_value` and `proxy_add_header_map_value`, which differ in
  -- `override`.
  unfoldable pub put_at : Bool → ℕ → ℕ → ℕ → ℕ → ℕ → M Host ProxyResult
  put_at override type p key_size q size =
      if type == 0
      then (do
        key ← on_mem (copy_out p (sext64 key_size))
        val ← on_mem (copy_out q (sext64 size))
        done ← set_req_header key (some val) override
        answer done)
      else if type == 2
      then (do
        key ← on_mem (copy_out p (sext64 key_size))
        val ← on_mem (copy_out q (sext64 size))
        done ← set_resp_header key false (some val) override
        answer done)
      else pure unimplemented

  unfoldable pub put_header_map_value : Bool → ℕ → ℕ → ℕ → ℕ → ℕ → M Host ProxyResult
  put_header_map_value override type key_data key_size val_data size = must_get_req (
      must_get_memory key_data key_size
        λ p. must_get_memory val_data size λ q. put_at override type p key_size q size)

  unfoldable pub replace_header_map_value : ℕ → ℕ → ℕ → ℕ → ℕ → M Host ProxyResult
  unfolding put_header_map_value
  replace_header_map_value = put_header_map_value true

  unfoldable pub add_header_map_value : ℕ → ℕ → ℕ → ℕ → ℕ → M Host ProxyResult
  unfolding put_header_map_value
  add_header_map_value = put_header_map_value false
