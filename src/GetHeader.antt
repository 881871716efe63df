-- ===== src/GetHeader.antt =====
-- `proxy_get_header_map_value` of src/http/ngx_http_wasm_api.c and its three getters, which hand one
-- header over.
pub mod Search
pub mod Laws
use wasm_nginx_module.Prelude.{
  ℕ, ◌+◌, ◌%◌, Bool, true, false, ◌&&◌, ◌||◌, List, [], ◌∷◌, Option, none, some, length,
  if◌then◌else◌, ◌==◌,
}
use wasm_nginx_module.Words.{u32, is_neg32, sext64, add64}
use wasm_nginx_module.Run.{M, pure, undefined, ◌>>=◌, ◌>>◌}
use wasm_nginx_module.Memory.{copy_out}
use wasm_nginx_module.Map.Layout.{Header}
use wasm_nginx_module.Vm.{Engine}
use wasm_nginx_module.Host.{
  Host, Nginx, Request, Parts, TableElt, ProxyResult, not_found, bad_argument, internal_failure,
  unimplemented, on_mem, must_get_memory,
}
use wasm_nginx_module.State.{must_get_req}
use wasm_nginx_module.Copy.{copy_to_wasm}
use wasm_nginx_module.Pseudo.{req_table, resp_table, get_pseudo_header}
use wasm_nginx_module.Pairs.{get_string_buf}

module _ (ng : Nginx) where
  -- The body of the loop over a part: a removed header and one of another length are passed over.
  unfoldable pub matches : List ℕ → TableElt → Bool
  matches key header =
      if header.hash == 0
      then false
      else (length key == length header.key) && ng.strncasecmp_eq key header.key

  -- The loop of `ngx_http_wasm_req_get_header`: through the part, and the parts behind it.
  unfoldable pub search_part : List ℕ → List TableElt → Option (List ℕ)
  unfolding matches
  search_part key [] = none
  search_part key (header ∷ part) =
      if matches key header then some header.value else search_part key part

  -- Behind the last element of a part the loop goes on with element 0 of the next part, without a
  -- look at its number of elements.
  unfoldable pub search_parts :
      List ℕ → List TableElt → List (List TableElt) → M Host (Option (List ℕ))
  unfolding search_part
  search_parts key part [] = pure (search_part key part)
  search_parts key part (part' ∷ next) = elim (search_part key part) [
    | some val ↦ pure (some val)
    | none ↦ if length part' == 0 then undefined else search_parts key part' next
  ]

  -- The loop of `ngx_http_wasm_http_call_resp_get_header`.
  unfoldable pub search_headers : List ℕ → List Header → Option (List ℕ)
  search_headers key [] = none
  search_headers key (hdr ∷ hdrs) =
      if (length key == length hdr.key) && ng.strncasecmp_eq key hdr.key
      then some hdr.value
      else search_headers key hdrs

-- A key of the size `key_size` at `p`. As a `size_t` a negative size is the length of no header.
unfoldable pub with_key :
    ℕ → ℕ → M Host ProxyResult → (List ℕ → M Host ProxyResult) → M Host ProxyResult
with_key p key_size absent rest =
    let found = on_mem (copy_out p key_size) >>= rest in if is_neg32 key_size then absent else found

module _ (e : Engine) where
  -- The end of the getters; `none` is NULL.
  unfoldable pub hand_over : ℕ → ℕ → Option (List ℕ) → M Host ProxyResult
  hand_over addr size none = pure not_found
  hand_over addr size (some val) = copy_to_wasm e val (length val % u32) addr size

module _ (e : Engine) (ng : Nginx) where
  -- `ngx_http_wasm_req_get_header` behind the search for a pseudo header.
  unfoldable pub find_req_header : List ℕ → ℕ → ℕ → Option (List ℕ) → M Host ProxyResult
  unfolding search_parts hand_over
  find_req_header key addr size (some val) h = hand_over e addr size (some val) h
  find_req_header key addr size none h =
      (search_parts ng key h.r.headers_in.part h.r.headers_in.next >>= hand_over e addr size) h

  -- `ngx_http_wasm_req_get_header`. The search for a pseudo header reads the first byte of the key.
  unfoldable pub req_get_header : ℕ → ℕ → ℕ → ℕ → M Host ProxyResult
  unfolding find_req_header with_key
  req_get_header p key_size addr size =
      with_key p key_size (on_mem (copy_out p 1) >> pure not_found)
        λ key. get_pseudo_header ng req_table key >>= find_req_header key addr size

  -- `ngx_http_wasm_resp_get_header` behind the search for a pseudo header.
  unfoldable pub find_resp_header : List ℕ → ℕ → ℕ → Option (List ℕ) → M Host ProxyResult
  unfolding copy_to_wasm
  find_resp_header key addr size (some val) h = copy_to_wasm e val (length val % u32) addr size h
  find_resp_header key addr size none h =
      let (rc, val) = ng.get_resp_header h.r key in
      let found = copy_to_wasm e val (length val % u32) addr size in
      (if is_neg32 rc then pure bad_argument else if rc == 0 then pure not_found else found) h

  -- `ngx_http_wasm_resp_get_header`.
  unfoldable pub resp_get_header : ℕ → ℕ → ℕ → ℕ → M Host ProxyResult
  unfolding get_string_buf find_resp_header
  resp_get_header p key_size addr size = do
    key_buf ← get_string_buf ng (add64 (sext64 key_size) 16)
    let found = on_mem (copy_out p (sext64 key_size)) >>= λ key.
        get_pseudo_header ng resp_table key >>= find_resp_header key addr size
    if key_buf then found else pure internal_failure

  -- `ngx_http_wasm_http_call_resp_get_header`.
  unfoldable pub http_call_resp_get_header : ℕ → ℕ → ℕ → ℕ → M Host ProxyResult
  unfolding search_headers hand_over with_key
  http_call_resp_get_header p key_size addr size h =
      let found =
        with_key p key_size (pure not_found)
          λ key. hand_over e addr size (search_headers ng key h.ctx.call_resp_headers) in
      (if length h.ctx.call_resp_headers == 0 then pure not_found else found) h

  -- The switch of `proxy_get_header_map_value`: PROXY_MAP_TYPE_HTTP_REQUEST_HEADERS is 0,
  -- PROXY_MAP_TYPE_HTTP_RESPONSE_HEADERS 2, and PROXY_MAP_TYPE_HTTP_CALL_RESPONSE_HEADERS 6.
  unfoldable pub get_at : ℕ → ℕ → ℕ → ℕ → ℕ → M Host ProxyResult
  unfolding req_get_header resp_get_header http_call_resp_get_header
  get_at type p key_size addr size =
      if type == 0
      then req_get_header p key_size addr size
      else if type == 2
      then resp_get_header p key_size addr size
      else if type == 6
      then http_call_resp_get_header p key_size addr size
      else pure unimplemented

  unfoldable pub get_header_map_value : ℕ → ℕ → ℕ → ℕ → ℕ → M Host ProxyResult
  unfolding get_at
  get_header_map_value type key_data key_size addr size =
      must_get_req (must_get_memory key_data key_size λ p. get_at type p key_size addr size)
