-- ===== src/HostApi/Readers.antt =====
-- The host functions of src/http/ngx_http_wasm_api.c that read: what they leave alone.
use wasm_nginx_module.Prelude.{
  ℕ, refl, inl, inr, Bool, true, false, ◌||◌, List, [], ◌∷◌, Option, none, some, Option-cases,
  length, ◌==◌,
}
use wasm_nginx_module.Words.{sext64, is_neg32}
use wasm_nginx_module.Run.{M}
use wasm_nginx_module.Vm.{Engine}
use wasm_nginx_module.Host.{Host, Nginx, ProxyResult, TableElt}
use wasm_nginx_module.State.{get_conf, get_body, get_plugin_name}
use wasm_nginx_module.Pseudo.{
  req_table, PseudoHeader, find_pseudo, getter, get_pseudo_header, starts_with_colon,
}
use wasm_nginx_module.Buffers.{copy_part, copy_buffer, get_buffer_bytes, get_configuration}
use wasm_nginx_module.GetHeader.{
  search_part, search_parts, search_headers, with_key, hand_over, find_req_header, req_get_header,
  find_resp_header, resp_get_header, http_call_resp_get_header, get_header_map_value,
}
use wasm_nginx_module.Property.{
  get_root_id, hand_variable, read_variable, get_variable, get_property,
}
use wasm_nginx_module.HostApi.Endings.{copy_out-Ending}
use wasm_nginx_module.HostApi.Frames.{
  Frames, IgnoresPlugin, frame_rules, bind-Frames, ok-Frames, if_Frames, copy_to_wasm-Frames,
  must_get_req-Frames, if_IfEnds, option_IfEnds, on_mem-Frames, get_string_buf-Frames,
  undefined-Frames,
}

module _ {X : Type 0} {view : Host → X} (free : IgnoresPlugin view) (e : Engine) where
  copy_part-Frames :
      (buffer : List ℕ) (start size addr size_addr : ℕ)
      → Frames view (copy_part e buffer start size addr size_addr)
  unfolding copy_part
  copy_part-Frames buffer start size addr size_addr = search (frame_rules, copy_to_wasm-Frames)

  copy_buffer-Frames :
      (whole : Bool) (start size addr size_addr : ℕ) (buffer : Option (List ℕ))
      → Frames view (copy_buffer e whole start size addr size_addr buffer)
  unfolding copy_buffer
  copy_buffer-Frames whole start size addr size_addr none = search frame_rules
  copy_buffer-Frames whole start size addr size_addr (some buffer) =
      search (frame_rules, copy_to_wasm-Frames, copy_part-Frames)

  pub get_buffer_bytes-Frames :
      (type start size addr size_addr : ℕ)
      → Frames view (get_buffer_bytes e type start size addr size_addr)
  unfolding get_buffer_bytes
  get_buffer_bytes-Frames type start size addr size_addr = record {
    keeps = λ h.
        let given = copy_buffer-Frames false start size addr size_addr in
        if_IfEnds _ (type == 7) _ _
          ((copy_buffer-Frames true start size addr size_addr (get_conf h.cur_state)).keeps h)
          (if_IfEnds _ (type == 0 || type == 1) _ _ ((given (get_body h.cur_state)).keeps h) (
            if_IfEnds _ (type == 4) _ _
              ((must_get_req-Frames _ (given h.ctx.call_resp_body)).keeps h) refl));
  }

  pub get_configuration-Frames :
      (addr size_addr : ℕ) → Frames view (get_configuration e addr size_addr)
  unfolding get_configuration
  get_configuration-Frames addr size_addr = record {
    keeps = λ h.
        option_IfEnds _ (get_conf h.cur_state) _ _ refl
          λ conf. (copy_to_wasm-Frames free e conf _ addr size_addr).keeps h;
  }

module _ {X : Type 0} {view : Host → X} (ng : Nginx) where
  search_parts-Frames :
      (key : List ℕ) (part : List TableElt) (next : List (List TableElt))
      → Frames view (search_parts ng key part next)
  unfolding search_parts
  search_parts-Frames key part [] = ok-Frames _
  search_parts-Frames key part (part' ∷ next) = elim (Option-cases (search_part ng key part)) [
    | inr (val, e) ↦ rw (e, search_parts) (ok-Frames _)
    | inl e ↦
        rw (e, search_parts)
          (if_Frames (length part' == 0) _ _ (search frame_rules)
            (search_parts-Frames key part' next))
  ]

  get_pseudo_header-Frames :
      (whs : List PseudoHeader) (key : List ℕ) → Frames view (get_pseudo_header ng whs key)
  unfolding get_pseudo_header
  get_pseudo_header-Frames whs key = record {
    keeps = λ h.
        if_IfEnds _ (starts_with_colon key) _ _
          (option_IfEnds _ (find_pseudo ng whs key) _ _ refl
            λ ty. option_IfEnds _ (getter ng ty h.r) _ _ tt λ v. refl)
          refl;
  }

module _ {X : Type 0} {view : Host → X} (free : IgnoresPlugin view) (e : Engine) (ng : Nginx) where
  with_key-Frames :
      (p key_size : ℕ) (absent : M Host ProxyResult) (rest : List ℕ → M Host ProxyResult)
      → Frames view absent
      → ((key : List ℕ) → Frames view (rest key))
      → Frames view (with_key p key_size absent rest)
  unfolding with_key
  with_key-Frames p key_size absent rest fa fr = search frame_rules

  hand_over-Frames : (addr size : ℕ) (o : Option (List ℕ)) → Frames view (hand_over e addr size o)
  unfolding hand_over
  hand_over-Frames addr size none = ok-Frames _
  hand_over-Frames addr size (some val) = copy_to_wasm-Frames free e val _ addr size

  find_req_header-Frames :
      (key : List ℕ) (addr size : ℕ) (o : Option (List ℕ))
      → Frames view (find_req_header e ng key addr size o)
  unfolding find_req_header
  find_req_header-Frames key addr size (some val) = hand_over-Frames addr size (some val)
  find_req_header-Frames key addr size none = record {
    keeps = λ h.
        (bind-Frames _ _ (search_parts-Frames ng key h.r.headers_in.part h.r.headers_in.next)
            (hand_over-Frames addr size)).keeps
          h;
  }

  req_get_header-Frames :
      (p key_size addr size : ℕ) → Frames view (req_get_header e ng p key_size addr size)
  unfolding req_get_header
  req_get_header-Frames p key_size addr size =
      with_key-Frames p key_size _ _ (search frame_rules) λ key.
        bind-Frames _ _ (get_pseudo_header-Frames ng req_table key)
          (find_req_header-Frames key addr size)

  find_resp_header-Frames :
      (key : List ℕ) (addr size : ℕ) (o : Option (List ℕ))
      → Frames view (find_resp_header e ng key addr size o)
  unfolding find_resp_header
  find_resp_header-Frames key addr size (some val) = copy_to_wasm-Frames free e val _ addr size
  find_resp_header-Frames key addr size none = record {
    keeps = λ h.
        let (rc, val) = ng.get_resp_header h.r key in
        (if_Frames (is_neg32 rc) _ _ (ok-Frames _) (
            if_Frames (rc == 0) _ _ (ok-Frames _)
              (copy_to_wasm-Frames free e val _ addr size))).keeps
          h;
  }

  resp_get_header-Frames :
      (p key_size addr size : ℕ) → Frames view (resp_get_header e ng p key_size addr size)
  unfolding resp_get_header
  resp_get_header-Frames p key_size addr size =
      search (frame_rules, get_pseudo_header-Frames, find_resp_header-Frames) depth 20

  http_call_resp_get_header-Frames :
      (p key_size addr size : ℕ) → Frames view (http_call_resp_get_header e ng p key_size addr size)
  unfolding http_call_resp_get_header
  http_call_resp_get_header-Frames p key_size addr size = record {
    keeps = λ h.
        (if_Frames (length h.ctx.call_resp_headers == 0) _ _ (ok-Frames _) (
            with_key-Frames p key_size _ _ (ok-Frames _) λ key.
              hand_over-Frames addr size (search_headers ng key h.ctx.call_resp_headers))).keeps
          h;
  }

  pub get_header_map_value-Frames :
      (type key_data key_size addr size : ℕ)
      → Frames view (get_header_map_value e ng type key_data key_size addr size)
  unfolding get_header_map_value
  get_header_map_value-Frames type key_data key_size addr size =
      search
        (
          frame_rules, req_get_header-Frames, resp_get_header-Frames,
          http_call_resp_get_header-Frames,
        )
        depth 20

  get_root_id-Frames : (res_data res_size : ℕ) → Frames view (get_root_id e ng res_data res_size)
  unfolding get_root_id
  get_root_id-Frames res_data res_size = record {
    keeps = λ h.
        option_IfEnds _ (get_plugin_name h.cur_state) _ _ tt
          λ name. (copy_to_wasm-Frames free e name _ res_data res_size).keeps h;
  }

  hand_variable-Frames :
      (res_data res_size : ℕ) (o : Option (Option (List ℕ)))
      → Frames view (hand_variable e ng res_data res_size o)
  unfolding hand_variable
  hand_variable-Frames res_data res_size none = undefined-Frames
  hand_variable-Frames res_data res_size (some none) = ok-Frames _
  hand_variable-Frames res_data res_size (some (some val)) =
      copy_to_wasm-Frames free e val _ res_data res_size

  read_variable-Frames :
      (p path_size res_data res_size : ℕ)
      → Frames view (read_variable e ng p path_size res_data res_size)
  unfolding read_variable
  read_variable-Frames p path_size res_data res_size =
      bind-Frames _ _ (get_string_buf-Frames free ng _) λ lowcase_buf.
        if_Frames lowcase_buf _ _
          (bind-Frames _ _ (on_mem-Frames free _ (copy_out-Ending p (sext64 path_size))) λ name.
            record {
              keeps = λ h.
                  (hand_variable-Frames res_data res_size
                      (ng.get_variable h.r (ng.strlow name))).keeps
                    h;
            })
          undefined-Frames

  pub get_property-Frames :
      (path_data path_size res_data res_size : ℕ)
      → Frames view (get_property e ng path_data path_size res_data res_size)
  unfolding get_property get_variable
  get_property-Frames path_data path_size res_data res_size =
      search (frame_rules, get_root_id-Frames, read_variable-Frames) depth 20
