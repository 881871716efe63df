-- ===== src/State/Laws.antt =====
-- The life of the current state of src/http/ngx_http_wasm_state.c around one callback.
use wasm_nginx_module.Prelude.{ℕ, ◌≡◌, refl, false, [], none, some, ◌==◌, if◌then◌else◌}
use wasm_nginx_module.Run.{ok, fault, ◌>>◌}
use wasm_nginx_module.State.{
  States, set_state, current, get_conf, get_req, get_plugin_name, get_body,
}

-- A callback between `set_state(p)` and `set_state(NULL)`, whatever it does to the objects, as long as
-- it leaves `cur_state` alone: afterwards no getter finds anything, the body of `p` is empty, its
-- other members and all other objects are what the callback left, and clearing once more is undefined.
pub bracket_lem :
    (p : ℕ) (callback : States → States) (s : States)
    → ((t : States) → (callback t).cur_state ≡ t.cur_state)
    → (s' : States) × ((set_state (some p) >> (λ t. ok tt (callback t)) >> set_state none) s
        ≡ ok tt s')
      × (get_conf (current s') ≡ none)
      × (get_req (current s') ≡ false)
      × (get_plugin_name (current s') ≡ none)
      × (get_body (current s') ≡ none)
      × (s'.object ≡ (λ q.
          let t : States = callback (record s { cur_state = some p }) in
          if q == p then record (t.object p) { body = [] } else t.object q))
      × (set_state none s' ≡ fault)
unfolding set_state current get_conf get_req get_plugin_name get_body
bracket_lem p callback s keeps =
    let t : States = callback (record s { cur_state = some p }) in
    (
      record t {
        cur_state = none;
        object = λ q. if q == p then record (t.object p) { body = [] } else t.object q;
      },
      rw (keeps (record s { cur_state = some p })),
      refl,
      refl,
      refl,
      refl,
      refl,
      refl,
    )
