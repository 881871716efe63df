-- ===== src/LocalResponse/Clean.antt =====
-- What `proxy_send_local_response` of src/http/ngx_http_wasm_api.c can do to the path and the method of a
-- request.
use wasm_nginx_module.Prelude.{
  ℕ, zero, suc, ◌≡◌, refl, sym, subst, inl, inr, Bool, true, false, List, none, some, Bool-cases,
  if◌then◌else◌, ◌==◌,
}
use wasm_nginx_module.Words.{add64, sext64}
use wasm_nginx_module.Run.{
  Run, M, ok, fault, out_of_fuel, pure, IfOk, IfOk-and_then, and_then, ◌>>=◌, ◌>>◌,
}
use wasm_nginx_module.Memory.{Memory, fits, copy_out, load32}
use wasm_nginx_module.Map.{Iter, Entry, done, entry, init_iter, next}
use wasm_nginx_module.Map.Walk.{entry_texts}
use wasm_nginx_module.Host.{
  Host, Nginx, MainConf, ProxyResult, result_ok, bad_argument, internal_failure, on_mem, after_mem,
}
use wasm_nginx_module.SetHeader.{palloc}
use wasm_nginx_module.SetHeader.Laws.{
  KeepsNames, IsBytes, Good, must_get_req-Good, must_get_memory-Good, set_resp_header-Good,
}
use wasm_nginx_module.HttpCall.{positive}
use wasm_nginx_module.LocalResponse.{
  set_conf, set_headers, with_resp_headers, put_resp_body, send_local_response,
}

-- A function that reads memory leaves it as it is.
abbrev Reads : {A : Type 0} → M Memory A → Type 0
Reads f = (m : Memory) → IfOk (λ _ m'. m' ≡ m) (f m)

load32-Reads : (p : ℕ) → Reads (load32 p)
unfolding load32
load32-Reads p m = elim (Bool-cases (fits m p 4)) [
  | inl e ↦ rw (e, IfOk) refl
  | inr e ↦ rw (e, IfOk) tt
]

copy_out-Reads : (p n : ℕ) → Reads (copy_out p n)
unfolding copy_out
copy_out-Reads p n m = elim (Bool-cases (fits m p n)) [
  | inl e ↦ rw (e, IfOk) refl
  | inr e ↦ rw (e, IfOk) tt
]

bind-Reads :
    {A B : Type 0} (f : M Memory A) (k : A → M Memory B)
    → Reads f
    → ((a : A) → Reads (k a))
    → Reads (λ m. and_then (f m) k)
bind-Reads f k rf rk m =
    IfOk-and_then (λ _ m'. m' ≡ m) (λ _ m'. m' ≡ m) (f m) k (rf m)
      λ a m' e. subst (λ x. IfOk (λ _ m''. m'' ≡ x) (k a m')) e (rk a m')

init_iter-Reads : (p : ℕ) → Reads (init_iter p)
unfolding init_iter
init_iter-Reads p = bind-Reads (load32 p) _ (load32-Reads p) λ n m. refl

entry_texts-Reads : (e : Entry) → Reads (entry_texts e)
unfolding entry_texts
entry_texts-Reads e =
    bind-Reads (copy_out e.key e.key_len) _ (copy_out-Reads e.key e.key_len)
      λ k. bind-Reads (copy_out e.val e.val_len) _ (copy_out-Reads e.val e.val_len) λ v m. refl

next-Reads : (it : Iter) → Reads (next it)
unfolding next
next-Reads it m = elim (Bool-cases (it.idx == it.len)) [
  | inl e ↦ rw (e, IfOk, next) refl
  | inr e ↦
      rw (e, next)
        (bind-Reads (load32 it.size_ptr) _ (load32-Reads it.size_ptr)
          (λ kl.
            bind-Reads (load32 (add64 it.size_ptr 4)) _ (load32-Reads (add64 it.size_ptr 4))
              λ vl m'. refl)
          m)
]

-- On the host, what reads memory keeps it good.
after_mem-Good :
    {A : Type 0} (h : Host) (r : Run Memory A)
    → Good h
    → IfOk (λ _ m'. m' ≡ h.mem) r
    → IfOk (λ _. Good) (after_mem h r)
after_mem-Good h (ok a m) g e = record { clean = g.clean; memory = subst IsBytes (sym e) g.memory }
after_mem-Good h fault g e = tt
after_mem-Good h out_of_fuel g e = tt

on_mem-Good :
    {A : Type 0} (f : M Memory A) (h : Host) → Reads f → Good h → IfOk (λ _. Good) (on_mem f h)
unfolding on_mem
on_mem-Good f h reads g = after_mem-Good h (f h.mem) g (reads h.mem)

if_Good :
    {A : Type 0} (b : Bool) (f k : M Host A) (h : Host)
    → IfOk (λ _. Good) (f h)
    → IfOk (λ _. Good) (k h)
    → IfOk (λ _. Good) ((if b then f else k) h)
if_Good true f k h yes' no' = yes'
if_Good false f k h yes' no' = no'

then_Good :
    {A B : Type 0} (r : Run Host A) (k : A → M Host B)
    → IfOk (λ _. Good) r
    → ((a : A) (h : Host) → Good h → IfOk (λ _. Good) (k a h))
    → IfOk (λ _. Good) (and_then r k)
then_Good r k = IfOk-and_then (λ _. Good) (λ _. Good) r k

module _ (ng : Nginx) (keeps : KeepsNames ng) where
  set_headers-Good :
      (k : ℕ) (it : Iter) (h : Host) → Good h → IfOk (λ _. Good) (set_headers ng k it h)
  unfolding set_headers
  set_headers-Good zero it h g = tt
  set_headers-Good (suc k) it h g =
      then_Good (on_mem (next it) h) _ (on_mem-Good (next it) h (next-Reads it) g) (elim [
        | done ↦ λ h1 g1. g1
        | entry e it' ↦ λ h1 g1.
            then_Good (on_mem (entry_texts e) h1) _
              (on_mem-Good (entry_texts e) h1 (entry_texts-Reads e) g1)
              λ hdr h2 g2.
                then_Good _ _
                  (set_resp_header-Good ng keeps hdr.key false (some hdr.value) false h2 g2)
                  λ rc h3 g3.
                    if_Good rc (set_headers ng k it') (pure false) h3 (set_headers-Good k it' h3 g3)
                      g3
      ])

  put_resp_body-Good :
      (body body_size : ℕ) (h : Host)
      → Good h
      → IfOk (λ _. Good) (put_resp_body ng body body_size h)
  unfolding put_resp_body palloc
  put_resp_body-Good body body_size h g =
      let stored : List ℕ → M Host ProxyResult =
        λ bs. set_conf (λ c. record c { body_data = some bs }) >> pure result_ok in
      let copied : ℕ → M Host ProxyResult = λ p. on_mem (copy_out p body_size) >>= stored in
      let failed : M Host ProxyResult =
        set_conf (λ c. record c { body_data = none }) >> pure internal_failure in
      if_Good (positive body_size) _ (pure result_ok) h
        (must_get_memory-Good body body_size _ h g λ p.
          then_Good (palloc ng body_size h) (λ room. if room then copied p else failed)
            (record { clean = g.clean; memory = g.memory })
            λ room h1 g1.
              if_Good room (copied p) failed h1
                (then_Good (on_mem (copy_out p body_size) h1) stored
                  (on_mem-Good (copy_out p body_size) h1 (copy_out-Reads p body_size) g1)
                  λ bs h2 g2. record { clean = g2.clean; memory = g2.memory })
                (record { clean = g1.clean; memory = g1.memory }))
        g

  with_resp_headers-Good :
      (headers headers_size : ℕ) (rest : M Host ProxyResult) (h : Host)
      → ((h' : Host) → Good h' → IfOk (λ _. Good) (rest h'))
      → Good h
      → IfOk (λ _. Good) (with_resp_headers ng headers headers_size rest h)
  unfolding with_resp_headers
  with_resp_headers-Good headers headers_size rest h k g =
      if_Good (positive headers_size) _ rest h
        (must_get_memory-Good headers headers_size _ h g λ p.
          then_Good (on_mem (init_iter p) h) _ (on_mem-Good (init_iter p) h (init_iter-Reads p) g)
            λ it h1 g1.
              then_Good (set_headers ng (suc it.len) it h1) _
                (set_headers-Good (suc it.len) it h1 g1)
                λ set h2 g2. if_Good set rest (pure bad_argument) h2 (k h2 g2) g2)
        (k h g)

  pub send_local_response-Good :
      (res_code body body_size headers headers_size : ℕ) (h : Host)
      → Good h
      → IfOk (λ _. Good) (send_local_response ng res_code body body_size headers headers_size h)
  unfolding send_local_response
  send_local_response-Good res_code body body_size headers headers_size h g =
      let conf : MainConf = record (h.wmcf) { code = res_code; body_len = sext64 body_size } in
      let begin : M Host ProxyResult =
        set_conf (λ c. record c { code = res_code; body_len = sext64 body_size })
        >> with_resp_headers ng headers headers_size (put_resp_body ng body body_size) in
      must_get_req-Good begin h g (
        with_resp_headers-Good headers headers_size (put_resp_body ng body body_size)
          (record h { wmcf = conf }) (put_resp_body-Good body body_size)
          (record { clean = g.clean; memory = g.memory }))
