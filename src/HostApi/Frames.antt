-- ===== src/HostApi/Frames.antt =====
-- What a C function of src/http/ngx_http_wasm_api.c leaves alone: a part of the host that does not
-- depend on the plugin.
use wasm_nginx_module.Prelude.{
  ℕ, ◌≡◌, refl, ◌∙◌, inl, inr, Bool, true, false, List, Option, none, some, Bool-cases,
  Option-cases, if◌then◌else◌, ltb, ◌==◌,
}
use wasm_nginx_module.Run.{Run, M, ok, fault, out_of_fuel, undefined, and_then, Ends, ◌>>=◌}
use wasm_nginx_module.HostApi.Endings.{Ending, ending_rules, call-Ending, store32-Ending}
use wasm_nginx_module.Memory.{Memory, get_memory, store32}
use wasm_nginx_module.Vm.{Engine, Plugin}
use wasm_nginx_module.Host.{
  Host, Nginx, ProxyResult, on_mem, on_plugin, after_mem, after_plugin, get_mem, must_get_memory,
}
use wasm_nginx_module.State.{must_get_req, get_req}
use wasm_nginx_module.Copy.{memory_alloc, copy_from_host, copy_to_wasm, get_buf_to_write}
use wasm_nginx_module.Pairs.{get_string_buf}
use wasm_nginx_module.SetHeader.{palloc}

-- A postcondition of the runs that return, which a run out of fuel does not meet.
abbrev pub IfEnds : {A : Type 0} → (A → Host → Type 0) → Run Host A → Type 0
IfEnds P (ok a h) = P a h
IfEnds P fault = Unit
IfEnds P out_of_fuel = ⊥

pub IfEnds-and_then :
    {A B : Type 0} (P : A → Host → Type 0) (Q : B → Host → Type 0) (r : Run Host A)
    (k : A → M Host B)
    → IfEnds P r
    → ((a : A) (h : Host) → P a h → IfEnds Q (k a h))
    → IfEnds Q (and_then r k)
IfEnds-and_then P Q (ok a h) k p next = next a h p
IfEnds-and_then P Q fault k p next = tt
IfEnds-and_then P Q out_of_fuel k p next = p

pub IfEnds-mono :
    {A : Type 0} (P Q : A → Host → Type 0) (r : Run Host A)
    → IfEnds P r
    → ((a : A) (h : Host) → P a h → Q a h)
    → IfEnds Q r
IfEnds-mono P Q (ok a h) p weaken = weaken a h p
IfEnds-mono P Q fault p weaken = tt
IfEnds-mono P Q out_of_fuel p weaken = p

-- A test on runs.
pub if_IfEnds :
    {A : Type 0} (P : A → Host → Type 0) (b : Bool) (r s : Run Host A)
    → IfEnds P r
    → IfEnds P s
    → IfEnds P (if b then r else s)
if_IfEnds P true r s pr ps = pr
if_IfEnds P false r s pr ps = ps

pub option_IfEnds :
    {A B : Type 0} (P : A → Host → Type 0) (o : Option B) (r : Run Host A) (k : B → Run Host A)
    → IfEnds P r
    → ((b : B) → IfEnds P (k b))
    → IfEnds P (elim o [ none ↦ r | some b ↦ k b ])
option_IfEnds P none r k pr pk = pr
option_IfEnds P (some b) r k pr pk = pk b

-- The part `view` of a host is the same behind a function that returns.
pub record Frames {X A : Type 0} (view : Host → X) (f : M Host A) : Type 0 where
  pub keeps : (h : Host) → IfEnds (λ _ h'. view h' ≡ view h) (f h)

-- A view that does not look at the plugin.
pub record IgnoresPlugin {X : Type 0} (view : Host → X) : Type 0 where
  pub ignores : (h : Host) (p : Plugin) → view (record h { plugin = p }) ≡ view h

view_trans :
    {X C : Type 0} (view : Host → X) {h0 h1 : Host}
    → view h1 ≡ view h0
    → (r : Run Host C) → IfEnds (λ _ h'. view h' ≡ view h1) r
    → IfEnds (λ _ h'. view h' ≡ view h0) r
view_trans view e (ok a h') e' = e' ∙ e
view_trans view e fault e' = tt
view_trans view e out_of_fuel e' = e'

module _ {X : Type 0} {view : Host → X} where
  pub bind-Frames :
      {A B : Type 0} (f : M Host A) (k : A → M Host B)
      → Frames view f
      → ((a : A) → Frames view (k a))
      → Frames view (f >>= k)
  bind-Frames f k ff fk = record {
    keeps = λ h.
        IfEnds-and_then (λ _ h'. view h' ≡ view h) (λ _ h'. view h' ≡ view h) (f h) k (ff.keeps h)
          λ a h' e. view_trans view e (k a h') ((fk a).keeps h');
  }

  pub ok-Frames : {A : Type 0} (a : A) → Frames view (ok a)
  ok-Frames a = record { keeps = λ h. refl }

  pub undefined-Frames : {A : Type 0} → Frames view (undefined {A = A})
  undefined-Frames = record { keeps = λ h. tt }

  pub if_Frames :
      {A : Type 0} (b : Bool) (f g : M Host A)
      → Frames view f
      → Frames view g
      → Frames view (if b then f else g)
  if_Frames true f g ff fg = ff
  if_Frames false f g ff fg = fg

  pub option_Frames :
      {A B : Type 0} (o : Option B) (f : M Host A) (k : B → M Host A)
      → Frames view f
      → ((b : B) → Frames view (k b))
      → Frames view (elim o [ none ↦ f | some b ↦ k b ])
  option_Frames none f k ff fk = ff
  option_Frames (some b) f k ff fk = fk b

  pub must_get_req-Frames :
      (rest : M Host ProxyResult) → Frames view rest → Frames view (must_get_req rest)
  unfolding must_get_req
  must_get_req-Frames rest fr = record {
    keeps = λ h. elim (Bool-cases (get_req h.cur_state)) [
      | inl e ↦ rw (e, IfEnds, must_get_req) (fr.keeps h)
      | inr e ↦ rw (e, IfEnds, must_get_req) refl
    ];
  }

  pub get_mem-Frames : (addr size : ℕ) → Frames view (get_mem addr size)
  unfolding get_mem
  get_mem-Frames addr size = record { keeps = λ h. refl }

  pub must_get_memory-Frames :
      (addr size : ℕ) (rest : ℕ → M Host ProxyResult)
      → ((p : ℕ) → Frames view (rest p))
      → Frames view (must_get_memory addr size rest)
  unfolding must_get_memory
  must_get_memory-Frames addr size rest fr = record {
    keeps = λ h. elim (Option-cases (get_memory h.mem addr size)) [
      | inl e ↦ rw (e, IfEnds) refl
      | inr (p, e) ↦ rw (e, IfEnds) ((fr p).keeps h)
    ];
  }

  -- A test that reads the host.
  pub at_host :
      {A : Type 0} (f : Host → M Host A)
      → ((g : Host) → Frames view (f g))
      → Frames view (λ h. f h h)
  at_host f ff = record { keeps = λ h. (ff h).keeps h }

  module _ (free : IgnoresPlugin view) where
    after_mem-same :
        {A : Type 0} (h : Host) (r : Run Memory A)
        → Ends r
        → IfEnds (λ _ h'. view h' ≡ view h) (after_mem h r)
    after_mem-same h (ok a m) end = free.ignores h (record { mem = m; tick = h.tick })
    after_mem-same h fault end = tt
    after_mem-same h out_of_fuel end = end

    after_plugin-same :
        {A : Type 0} (h : Host) (r : Run Plugin A)
        → Ends r
        → IfEnds (λ _ h'. view h' ≡ view h) (after_plugin h r)
    after_plugin-same h (ok a p) end = free.ignores h p
    after_plugin-same h fault end = tt
    after_plugin-same h out_of_fuel end = end

    pub on_mem-Frames : {A : Type 0} (f : M Memory A) → Ending f → Frames view (on_mem f)
    unfolding on_mem
    on_mem-Frames f end = record { keeps = λ h. after_mem-same h (f h.mem) (end.ends h.mem) }

    pub on_plugin-Frames : {A : Type 0} (f : M Plugin A) → Ending f → Frames view (on_plugin f)
    unfolding on_plugin
    on_plugin-Frames f end = record {
      keeps = λ h. after_plugin-same h (f h.plugin) (end.ends h.plugin);
    }

    pub palloc-Frames : (ng : Nginx) (size : ℕ) → Frames view (palloc ng size)
    unfolding palloc
    palloc-Frames ng size = record { keeps = λ h. free.ignores h _ }

    pub get_string_buf-Frames : (ng : Nginx) (size : ℕ) → Frames view (get_string_buf ng size)
    unfolding get_string_buf
    get_string_buf-Frames ng size = record {
      keeps = λ h. elim (Bool-cases (ltb 4096 size)) [
        | inl e ↦ rw (e, IfEnds) (free.ignores h _)
        | inr e ↦ rw (e, IfEnds) refl
      ];
    }

pub ruleset frame_rules = (
  ending_rules, call-Ending, bind-Frames, ok-Frames, undefined-Frames, if_Frames, option_Frames,
  must_get_req-Frames, get_mem-Frames, must_get_memory-Frames, on_mem-Frames, on_plugin-Frames,
  palloc-Frames, get_string_buf-Frames,
)

module _ {X : Type 0} {view : Host → X} (free : IgnoresPlugin view) (e : Engine) where
  pub memory_alloc-Frames : (size : ℕ) → Frames view (memory_alloc e size)
  unfolding memory_alloc
  memory_alloc-Frames size = search frame_rules

  pub copy_to_wasm-Frames :
      (bs : List ℕ) (len addr size_addr : ℕ) → Frames view (copy_to_wasm e bs len addr size_addr)
  unfolding copy_to_wasm copy_from_host
  copy_to_wasm-Frames bs len addr size_addr = search (frame_rules, memory_alloc-Frames) depth 20

  pub get_buf_to_write-Frames :
      (len addr size_addr : ℕ) → Frames view (get_buf_to_write e len addr size_addr)
  unfolding get_buf_to_write
  get_buf_to_write-Frames len addr size_addr = bind-Frames _ _ (memory_alloc-Frames len) λ buf_addr.
      if_Frames (buf_addr == 0) _ _ (ok-Frames none) (
        bind-Frames (get_mem buf_addr len) _ (get_mem-Frames buf_addr len) λ o.
          option_Frames o _ _ (ok-Frames none) λ b.
            bind-Frames (get_mem addr 4) _ (get_mem-Frames addr 4) λ p.
              option_Frames p _ _ (ok-Frames none) λ q.
                bind-Frames (on_mem (store32 q buf_addr)) _
                  (on_mem-Frames free _ (store32-Ending q buf_addr))
                  λ _. bind-Frames (get_mem size_addr 4) _ (get_mem-Frames size_addr 4) λ p_size.
                    option_Frames p_size _ _ (ok-Frames none) λ z.
                      bind-Frames (on_mem (store32 z len)) _
                        (on_mem-Frames free _ (store32-Ending z len)) λ _. ok-Frames (some b))
