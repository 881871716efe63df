-- ===== src/Property/Laws.antt =====
-- What `proxy_get_property` and `proxy_set_property` of src/http/ngx_http_wasm_api.c hand over and write.
use wasm_nginx_module.Prelude.{
  ℕ, ◌+◌, ◌%◌, ◌≤◌, ◌≡◌, ◌≢◌, true, false, List, none, some, arith, length, ltb, ◌==◌, ◌∙◌, ◌⊎◌,
  inl, inr, Bool-cases, if◌then◌else◌,
}
use wasm_nginx_module.Words.{u32, add64_small, sext64_pos}
use wasm_nginx_module.Run.{ok, fault, Returns}
use wasm_nginx_module.Memory.{read, get_memory}
use wasm_nginx_module.Memory.Laws.{copy_out-ok}
use wasm_nginx_module.Vm.{Engine, ngx_ok}
use wasm_nginx_module.Host.{Host, Nginx, result_ok, not_found, internal_failure, on_mem, get_mem}
use wasm_nginx_module.State.{get_req, get_plugin_name, must_get_req}
use wasm_nginx_module.Copy.{copy_to_wasm}
use wasm_nginx_module.Copy.Laws.{
  Inside, HandedOver, must_get_memory-Inside, copy_to_wasm-HandedOver,
}
use wasm_nginx_module.Pseudo.{bytes}
use wasm_nginx_module.Pairs.{get_string_buf}
use wasm_nginx_module.GetHeader.Laws.{RoomFor}
use wasm_nginx_module.Property.{
  get_root_id, hand_variable, read_variable, get_variable, get_property_at, get_property, value_at,
  write_variable, set_property, contains,
}

module _ (e : Engine) where
  copied :
      (h h' : Host) (val : List ℕ) (buf addr size : ℕ)
      → RoomFor e h h' val buf addr size
      → Returns
          (λ r h2. (r ≡ result_ok) × HandedOver h' h2 buf addr size val)
          (copy_to_wasm e val (length val % u32) addr size h)
  copied h h' val buf addr size r =
      let short = r.short in
      let len : length val % u32 ≡ length val = omega arith in
      rw len (
        copy_to_wasm-HandedOver e h h' buf addr size val r.not_empty r.short r.cell r.alloc
          r.allocated)

-- The static buffer is enough for a short name.
short_buf : (ng : Nginx) (size : ℕ) (h : Host) → size ≤ 4096 → get_string_buf ng size h ≡ ok true h
unfolding get_string_buf
short_buf ng size h le = let fits : ltb 4096 size ≡ false = ground arith in rw fits

module _ (e : Engine) (ng : Nginx) where
  -- A variable that nginx has reaches the plugin: with a request, for a path in memory of at most 4096
  -- bytes and of another length than `plugin_root_id`, looked up in lower case, and with an allocator
  -- that gives room for a value that is not empty, `proxy_get_property` returns and hands over the
  -- value.
  pub get_property-HandedOver :
      (h h' : Host) (val : List ℕ) (path_data path_size buf res_data res_size : ℕ)
      → get_req h.cur_state ≡ true
      → Inside h path_data path_size
      → path_size ≤ 4096
      → path_size ≢ 14
      → ng.get_variable h.r (ng.strlow (read h.mem path_data path_size)) ≡ some (some val)
      → RoomFor e h h' val buf res_data res_size
      → Returns
          (λ r h2. (r ≡ result_ok) × HandedOver h' h2 buf res_data res_size val)
          (get_property e ng path_data path_size res_data res_size h)
  unfolding get_property get_property_at get_variable read_variable must_get_req on_mem
      hand_variable
  get_property-HandedOver h h' val path_data path_size buf res_data res_size req path short other
        found room =
      let root : (path_size == 14) ≡ false = ground arith in
      rw
        (
          must_get_memory-Inside path_data path_size _ h path,
          root,
          req,
          sext64_pos path_size (omega arith),
          short_buf ng path_size h short,
          copy_out-ok path_data path_size h.mem path.fits,
          found,
        )
        (copied e h h' val buf res_data res_size room)

  get_root_id-copy_to_wasm :
      (h : Host) (name : List ℕ) (res_data res_size : ℕ)
      → get_plugin_name h.cur_state ≡ some name
      → get_root_id e ng res_data res_size h
        ≡ copy_to_wasm e name (length name % u32) res_data res_size h
  unfolding get_root_id
  get_root_id-copy_to_wasm h name res_data res_size named = rw (get_root_id, named)

  -- The plugin's name is given even without a request: the path `plugin_root_id` reaches the name of
  -- the current state, whether or not there is a request in it.
  pub get_property_root_id :
      (h h' : Host) (name : List ℕ) (path_data buf res_data res_size : ℕ)
      → get_plugin_name h.cur_state ≡ some name
      → Inside h path_data 14
      → read h.mem path_data 14 ≡ bytes "plugin_root_id"
      → RoomFor e h h' name buf res_data res_size
      → Returns
          (λ r h2. (r ≡ result_ok) × HandedOver h' h2 buf res_data res_size name)
          (get_property e ng path_data 14 res_data res_size h)
  unfolding get_property get_property_at on_mem
  get_property_root_id h h' name path_data buf res_data res_size named path asked room =
      rw
        (
          must_get_memory-Inside path_data 14 _ h path,
          copy_out-ok path_data 14 h.mem path.fits,
          asked,
          get_root_id-copy_to_wasm h name res_data res_size named,
        )
        (copied e h h' name buf res_data res_size room)

module _ (ng : Nginx) where
  sends_null :
      (h : Host) (path_data path_size value_data size : ℕ)
      → get_req h.cur_state ≡ true
      → Inside h path_data path_size
      → path_size ≤ 3840
      → get_memory h.mem value_data size ≡ none
      → set_property ng path_data path_size value_data size h
        ≡ write_variable ng (read h.mem path_data path_size) none h
  unfolding set_property must_get_req get_mem on_mem value_at
  sends_null h path_data path_size value_data size req path short outside = rw (
    req,
    must_get_memory-Inside path_data path_size _ h path,
    outside,
    sext64_pos path_size (omega arith),
    add64_small path_size 256 (omega arith),
    short_buf ng (path_size + 256) h (omega arith),
    copy_out-ok path_data path_size h.mem path.fits,
  )

  -- A value that is not in the plugin's memory is not refused: with a request, and for a path in memory of
  -- at most 3840 bytes, `proxy_set_property` hands NULL to `set_variable` for the value. If that is taken,
  -- the plugin gets PROXY_RESULT_OK and the request is what `set_variable` made of it; if it is an error
  -- whose message reads arguments as a format, the behaviour is undefined; any other error is
  -- PROXY_RESULT_NOT_FOUND or PROXY_RESULT_INTERNAL_FAILURE, by the message.
  pub set_property_null :
      (h : Host) (path_data path_size value_data size : ℕ)
      → get_req h.cur_state ≡ true
      → Inside h path_data path_size
      → path_size ≤ 3840
      → get_memory h.mem value_data size ≡ none
      → let (result, errmsg, r) = ng.set_variable h.r (read h.mem path_data path_size) none in
        let answer = set_property ng path_data path_size value_data size h in
        ((result ≡ ngx_ok) × (answer ≡ ok result_ok (record h { r = r })))
        ⊎ ((result ≢ ngx_ok) × (ng.takes_arguments errmsg ≡ true) × (answer ≡ fault))
        ⊎ ((result ≢ ngx_ok)
            × (ng.takes_arguments errmsg ≡ false)
            × (answer
                ≡ ok
                    (if contains (bytes "not found for writing") errmsg
                      then not_found
                      else internal_failure)
                    (record h { r = r })))
  unfolding write_variable
  set_property_null h path_data path_size value_data size req path short outside =
      let (result, errmsg, r) = ng.set_variable h.r (read h.mem path_data path_size) none in
      let sent = sends_null h path_data path_size value_data size req path short outside in
      elim (Bool-cases (result == ngx_ok)) [
        | inl taken ↦ inl (ground arith, sent ∙ rw taken)
        | inr e ↦ elim (Bool-cases (ng.takes_arguments errmsg)) [
          | inl args ↦ inr (inl (ground arith, args, sent ∙ rw (e, args)))
          | inr plain ↦ inr (inr (ground arith, plain, sent ∙ rw (e, plain)))
        ]
      ]
