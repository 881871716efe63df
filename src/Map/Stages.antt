-- ===== src/Map/Stages.antt =====
-- Filling a map in several stages, one after the other, as `ngx_http_wasm_resp_get_headers` of
-- src/http/ngx_http_wasm_api.c does.
use wasm_nginx_module.Prelude.{
  ℕ, ◌+◌, ◌*◌, ◌≤◌, ◌<◌, ◌≡◌, ◌∙◌, refl, subst, ◌⊎◌, List, [], ◌∷◌, ◌++◌, arith, length,
  length-append,
}
use wasm_nginx_module.Run.{M, pure, ◌>>=◌, Returns, returns, bind, mono}
use wasm_nginx_module.Memory.{Memory}
use wasm_nginx_module.Map.{Iter, Slot}
use wasm_nginx_module.Map.Layout.{Header, Holds, text_size, HoldsEntry-SameAt}
use wasm_nginx_module.Map.Build.{Filled, Room, behind}

pub text_size-append : (hs ks : List Header) → text_size (hs ++ ks) ≡ text_size hs + text_size ks
text_size-append [] ks = omega arith
text_size-append (h ∷ hs) ks = omega (arith, text_size-append hs ks)

-- `f` puts the entries `hs` into a map with room for them.
abbrev pub Puts : (Slot → M Memory Slot) → List Header → Type 0
Puts f hs =
    (s : Slot) (m : Memory)
    → Room s.it hs m
    → Returns (λ s' m'. Filled m m' s.it.size_ptr s.it.data_ptr hs × (s'.it ≡ behind s.it hs))
        (f s m)

Holds-same :
    (m m' : Memory) (sp dp : ℕ) (hs : List Header)
    → ((x : ℕ)
        → ((sp ≤ x) × (x < sp + 8 * length hs)) ⊎ ((dp ≤ x) × (x < dp + text_size hs))
        → m'.byte x ≡ m.byte x)
    → Holds m sp dp hs
    → Holds m' sp dp hs
Holds-same m m' sp dp [] same h = tt
Holds-same m m' sp dp (k ∷ hs) same (e, rest) = (
  HoldsEntry-SameAt m m' sp dp k (λ x r. same x (omega arith)) e,
  Holds-same m m' (sp + 8) (dp + (length k.key + length k.value + 2)) hs
      (λ x r. same x (omega arith)) rest,
)

Holds-append :
    (m : Memory) (sp dp sp' dp' : ℕ) (hs ks : List Header)
    → sp' ≡ sp + 8 * length hs
    → dp' ≡ dp + text_size hs
    → Holds m sp dp hs
    → Holds m sp' dp' ks
    → Holds m sp dp (hs ++ ks)
Holds-append m sp dp sp' dp' [] ks es ed h k =
    subst (λ x. Holds m x dp ks) (es ∙ omega arith)
      (subst (λ y. Holds m sp' y ks) (ed ∙ omega arith) k)
Holds-append m sp dp sp' dp' (x ∷ hs) ks es ed (e, h) k = (
  e,
  Holds-append m (sp + 8) (dp + (length x.key + length x.value + 2)) sp' dp' hs ks (omega arith)
      (omega arith) h k,
)

Filled-append :
    (m m1 m2 : Memory) (sp dp : ℕ) (hs ks : List Header)
    → sp + 8 * length (hs ++ ks) ≤ dp
    → Filled m m1 sp dp hs
    → Filled m1 m2 (sp + 8 * length hs) (dp + text_size hs) ks
    → Filled m m2 sp dp (hs ++ ks)
Filled-append m m1 m2 sp dp hs ks apart f g =
    let n = length-append hs ks in
    let t = text_size-append hs ks in
    record {
      size = g.size ∙ f.size;
      holds =
          Holds-append m2 sp dp _ _ hs ks refl refl
            (Holds-same m1 m2 sp dp hs (λ x r. g.same x (omega arith) (omega arith)) f.holds)
            g.holds;
      same = λ x o p. g.same x (omega arith) (omega arith) ∙ f.same x (omega arith) (omega arith);
    }

behind-append : (it : Iter) (hs ks : List Header) → behind (behind it hs) ks ≡ behind it (hs ++ ks)
behind-append it hs ks = ground (arith, length-append hs ks, text_size-append hs ks)

pub Puts-then :
    (f g : Slot → M Memory Slot) (hs ks : List Header)
    → Puts f hs
    → Puts g ks
    → Puts (λ s. f s >>= g) (hs ++ ks)
Puts-then f g hs ks pf pg s m r =
    let n = length-append hs ks in
    let t = text_size-append hs ks in
    bind
      (pf s m (record {
        entries = omega (arith, r.entries);
        count = r.count;
        apart = omega (arith, r.apart);
        inside = omega (arith, r.inside);
        short = omega (arith, r.short);
        small = r.small;
      }))
      λ s' m' (fl, e).
        mono
          (subst
            (λ it.
              Room it ks m'
              → Returns (λ s2 m2. Filled m' m2 it.size_ptr it.data_ptr ks × (s2.it ≡ behind it ks))
                  (g s' m'))
            e (pg s' m')
            (record {
              entries = omega (arith, r.entries);
              count = r.count;
              apart = omega (arith, r.apart);
              inside = omega (arith, r.inside, fl.size);
              short = omega (arith, r.short);
              small = omega (arith, r.small, fl.size);
            }))
          λ s2 m2 (gl, e2). (
            Filled-append m m' m2 s.it.size_ptr s.it.data_ptr hs ks (omega (arith, r.apart)) fl gl,
            e2 ∙ behind-append s.it hs ks,
          )

pub Puts-nothing : Puts pure []
Puts-nothing s m r =
    returns (record { size = refl; holds = tt; same = λ x o p. refl }, ground arith)
