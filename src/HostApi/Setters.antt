-- ===== src/HostApi/Setters.antt =====
-- The host functions of src/http/ngx_http_wasm_api.c that write the request or the response of a plugin:
-- they end, and change nothing but what they write.
use wasm_nginx_module.Prelude.{
  ℕ, ◌≡◌, ◌≢◌, refl, inl, inr, Bool, true, false, ◌&&◌, List, Option, none, some, arith, Bool-cases,
  ◌==◌, length,
}
use wasm_nginx_module.Words.{add32, add64}
use wasm_nginx_module.Run.{M, ok, pure, and_then}
use wasm_nginx_module.Memory.{fits, load32}
use wasm_nginx_module.Map.{Iter, Entry, Next, done, entry, next}
use wasm_nginx_module.Host.{Host, Nginx, Request, with_mem, on_mem}
use wasm_nginx_module.Chars.{check_unsafe_uri_bytes, check_unsafe_method}
use wasm_nginx_module.Pseudo.{Pseudo, path, bytes}
use wasm_nginx_module.SetHeader.{
  with_uri, set_path, set_method, set_plain_header, set_by_type, set_req_header, set_resp_header,
  value_of, remove_at, remove_header_map_value, put_at, put_header_map_value,
}
use wasm_nginx_module.HostApi.Frames.{
  Frames, IgnoresPlugin, IfEnds, frame_rules, bind-Frames, ok-Frames, if_Frames, option_Frames,
  if_IfEnds, option_IfEnds, palloc-Frames,
}

-- A view that does not look at the request.
pub record IgnoresRequest {X : Type 0} (view : Host → X) : Type 0 where
  pub ignores : (h : Host) (r : Request) → view (record h { r = r }) ≡ view h

module _ {X : Type 0} {view : Host → X} (free : IgnoresPlugin view) (req : IgnoresRequest view)
    (ng : Nginx) where
  set_path-Frames : (val : List ℕ) → Frames view (set_path ng val)
  unfolding set_path
  set_path-Frames val =
      option_Frames (check_unsafe_uri_bytes val) _ _
        (bind-Frames _ _ (palloc-Frames free ng (length val)) λ p.
          if_Frames p (λ h. ok true (record h { r = with_uri ng h.r val })) (pure false)
            (record { keeps = λ h. req.ignores h (with_uri ng h.r val) }) (ok-Frames false))
        λ byte. ok-Frames false

  set_method-Frames : (val : List ℕ) → Frames view (set_method ng val)
  unfolding set_method
  set_method-Frames val =
      option_Frames (check_unsafe_method val) _ _
        (bind-Frames _ _ (palloc-Frames free ng (length val)) λ p.
          if_Frames p (λ h. ok true (record h { r = record (h.r) { method_name = val } }))
            (pure false)
            (record { keeps = λ h. req.ignores h (record (h.r) { method_name = val }) })
            (ok-Frames false))
        λ byte. ok-Frames false

  set_plain_header-Frames :
      (key : List ℕ) (val : Option (List ℕ)) (override : Bool)
      → Frames view (set_plain_header ng key val override)
  unfolding set_plain_header
  set_plain_header-Frames key val override = record { keeps = λ h. req.ignores h _ }

  set_by_type-Frames :
      (ty : Option Pseudo) (key : List ℕ) (val : Option (List ℕ)) (override : Bool)
      → Frames view (set_by_type ng ty key val override)
  unfolding set_by_type
  set_by_type-Frames none key val override = set_plain_header-Frames key val override
  set_by_type-Frames (some path) key val override = set_path-Frames (value_of val)
  set_by_type-Frames (some _) key val override = set_method-Frames (value_of val)

  set_req_header-Frames :
      (key : List ℕ) (val : Option (List ℕ)) (override : Bool)
      → Frames view (set_req_header ng key val override)
  unfolding set_req_header
  set_req_header-Frames key val override = search (frame_rules, set_by_type-Frames)

  pub set_resp_header-Frames :
      (key : List ℕ) (is_nil : Bool) (val : Option (List ℕ)) (override : Bool)
      → Frames view (set_resp_header ng key is_nil val override)
  unfolding set_resp_header
  set_resp_header-Frames key is_nil val override = record {
    keeps = λ h.
        if_IfEnds _ (length key == 7 && ng.strncasecmp_eq key (bytes ":status")) _ _
          (if_IfEnds _ is_nil _ _ refl
            (option_IfEnds _ (ng.atoi (value_of val)) _ _ refl λ code. req.ignores h _))
          (req.ignores h _);
  }

  pub remove_header_map_value-Frames :
      (type key_data key_size : ℕ) → Frames view (remove_header_map_value ng type key_data key_size)
  unfolding remove_header_map_value remove_at
  remove_header_map_value-Frames type key_data key_size =
      search (frame_rules, set_req_header-Frames, set_resp_header-Frames) depth 20

  pub put_header_map_value-Frames :
      (override : Bool) (type key_data key_size val_data size : ℕ)
      → Frames view (put_header_map_value ng override type key_data key_size val_data size)
  unfolding put_header_map_value put_at
  put_header_map_value-Frames override type key_data key_size val_data size =
      search (frame_rules, set_req_header-Frames, set_resp_header-Frames) depth 20

-- What follows a call of `proxy_wasm_map_next`, on any memory.
pub next-IfEnds :
    {A : Type 0} (P : A → Host → Type 0) (it : Iter) (h : Host) (k : Next → M Host A)
    → (it.idx ≡ it.len → IfEnds P (k done (with_mem h h.mem)))
    → (it.idx ≢ it.len
        → (e : Entry) (it' : Iter) → it'.idx ≡ add32 it.idx 1
        → it'.len ≡ it.len
        → IfEnds P (k (entry e it') (with_mem h h.mem)))
    → IfEnds P (and_then (on_mem (next it) h) k)
unfolding next load32 on_mem
next-IfEnds P it h k last more = elim (Bool-cases (it.idx == it.len)) [
  | inl e ↦ rw (e, IfEnds) (last (ground arith))
  | inr e ↦ elim (Bool-cases (fits h.mem it.size_ptr 4)) [
    | inr f ↦ rw (e, f, IfEnds) tt
    | inl f ↦ elim (Bool-cases (fits h.mem (add64 it.size_ptr 4) 4)) [
      | inr g ↦ rw (e, f, g, IfEnds) tt
      | inl g ↦ rw (e, f, g, IfEnds) (more (ground arith) _ _ refl refl)
    ]
  ]
]
