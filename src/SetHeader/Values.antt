-- ===== src/SetHeader/Values.antt =====
-- What a plugin can do to the path and the method of a request through the host functions
-- `proxy_remove_header_map_value`, `proxy_replace_header_map_value` and `proxy_add_header_map_value` of
-- src/http/ngx_http_wasm_api.c.
use wasm_nginx_module.Prelude.{ℕ, inl, inr, Bool, true, false, List, none, some, ◌==◌, Bool-cases}
use wasm_nginx_module.Words.{sext64}
use wasm_nginx_module.Run.{M, IfOk, IfOk-and_then, and_then}
use wasm_nginx_module.Memory.{copy_out}
use wasm_nginx_module.Host.{Host, Nginx, ProxyResult, on_mem, must_get_memory}
use wasm_nginx_module.SetHeader.{
  remove_header_map_value, put_header_map_value, answer, put_at, remove_at,
}
use wasm_nginx_module.SetHeader.Laws.{
  KeepsNames, Good, Bytes, must_get_req-Good, must_get_memory-Good, copy_out-Good,
  set_req_header-Good, set_resp_header-Good,
}

module _ (ng : Nginx) (keeps : KeepsNames ng) where
  answer-Good : (done : Bool) (h : Host) → Good h → IfOk (λ _. Good) (answer ng done h)
  answer-Good done h g = g

  -- A text out of memory, and then the rest.
  with_text :
      (p n : ℕ) (rest : List ℕ → M Host ProxyResult) (h : Host)
      → Good h
      → ((bs : List ℕ) (h' : Host) → Bytes bs → Good h' → IfOk (λ _. Good) (rest bs h'))
      → IfOk (λ _. Good) (and_then (on_mem (copy_out p n) h) rest)
  with_text p n rest h g k =
      IfOk-and_then (λ bs h'. Bytes bs × Good h') (λ _. Good) (on_mem (copy_out p n) h) rest
        (copy_out-Good p n h g) λ bs h' (b, g'). k bs h' b g'

  put_at-Good :
      (override : Bool) (type p key_size q size : ℕ) (h : Host)
      → Good h
      → IfOk (λ _. Good) (put_at ng override type p key_size q size h)
  unfolding put_at
  put_at-Good override type p key_size q size h g = elim (Bool-cases (type == 0)) [
    | inl e ↦
        rw (e, IfOk)
          (with_text p (sext64 key_size) _ h g λ key h1 bk g1.
            with_text q (sext64 size) _ h1 g1 λ val h2 bv g2.
              IfOk-and_then (λ _. Good) (λ _. Good) _ _
                (set_req_header-Good ng keeps key (some val) override h2 bv g2) (answer-Good))
    | inr e ↦ elim (Bool-cases (type == 2)) [
      | inl e' ↦
          rw (e, e', IfOk)
            (with_text p (sext64 key_size) _ h g λ key h1 bk g1.
              with_text q (sext64 size) _ h1 g1 λ val h2 bv g2.
                IfOk-and_then (λ _. Good) (λ _. Good) _ _
                  (set_resp_header-Good ng keeps key false (some val) override h2 g2) (answer-Good))
      | inr e' ↦ rw (e, e', IfOk) g
    ]
  ]

  remove_at-Good :
      (type p key_size : ℕ) (h : Host) → Good h → IfOk (λ _. Good) (remove_at ng type p key_size h)
  unfolding remove_at
  remove_at-Good type p key_size h g = elim (Bool-cases (type == 0)) [
    | inl e ↦
        rw (e, IfOk)
          (with_text p (sext64 key_size) _ h g λ key h1 bk g1.
            IfOk-and_then (λ _. Good) (λ _. Good) _ _
              (set_req_header-Good ng keeps key none true h1 tt g1) (answer-Good))
    | inr e ↦ elim (Bool-cases (type == 2)) [
      | inl e' ↦
          rw (e, e', IfOk)
            (with_text p (sext64 key_size) _ h g λ key h1 bk g1.
              IfOk-and_then (λ _. Good) (λ _. Good) _ _
                (set_resp_header-Good ng keeps key true none true h1 g1) (answer-Good))
      | inr e' ↦ rw (e, e', IfOk) g
    ]
  ]

  -- A plugin cannot get a control character other than a tab into the path, or anything but letters
  -- into the method: where the host functions on header values return, they keep a clean request clean,
  -- whatever the plugin passes to them. The functions of nginx and lua-nginx-module are taken to leave
  -- both names alone, and the plugin's memory to hold bytes.
  pub header_map_value-Good :
      (override : Bool) (type key_data key_size val_data size : ℕ) (h : Host)
      → Good h
      → IfOk (λ _. Good) (put_header_map_value ng override type key_data key_size val_data size h)
        × IfOk (λ _. Good) (remove_header_map_value ng type key_data key_size h)
  unfolding put_header_map_value remove_header_map_value
  header_map_value-Good override type key_data key_size val_data size h g = (
    must_get_req-Good
        (must_get_memory key_data key_size
          λ p. must_get_memory val_data size λ q. put_at ng override type p key_size q size)
        h g
        (must_get_memory-Good key_data key_size
          (λ p. must_get_memory val_data size λ q. put_at ng override type p key_size q size) h g
          λ p.
            must_get_memory-Good val_data size (λ q. put_at ng override type p key_size q size) h g
              λ q. put_at-Good override type p key_size q size h g),
    must_get_req-Good (must_get_memory key_data key_size λ p. remove_at ng type p key_size) h g (
        must_get_memory-Good key_data key_size (λ p. remove_at ng type p key_size) h g
          λ p. remove_at-Good type p key_size h g),
  )
