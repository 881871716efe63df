-- ===== src/Map/Walk.antt =====
-- `while (proxy_wasm_map_next(&it, ...))`, the loop of `proxy_send_local_response` and of
-- `ngx_http_wasm_call_get`, and what it reads out of a well-formed map.
use wasm_nginx_module.Prelude.{
  ℕ, zero, suc, ◌+◌, ◌*◌, ◌%◌, ◌≤◌, ◌<◌, ◌≡◌, ◌≢◌, refl, true, false, List, [], ◌∷◌, arith, length,
  Bool-cases, inl, inr, ◌==◌,
}
use wasm_nginx_module.Words.{u32, half32, add32, add64, add32_small, add64_small, sext64_pos}
use wasm_nginx_module.Run.{
  M, ok, out_of_fuel, pure, ◌>>=◌, and_then, Ends, Ends-and_then, and_then_assoc,
}
use wasm_nginx_module.Memory.{Memory, fits, copy_out, load32}
use wasm_nginx_module.Memory.Laws.{copy_out-ok, load32-ok}
use wasm_nginx_module.Map.{Iter, Entry, Next, done, entry, init_iter, next}
use wasm_nginx_module.Map.Layout.{Header, HoldsEntry, Holds, IsMap, text_size, map_size}

-- The two texts of an entry.
unfoldable pub entry_texts : Entry → M Memory Header
entry_texts e = do
  key ← copy_out e.key e.key_len
  value ← copy_out e.val e.val_len
  pure (record { key = key; value = value })

-- All the entries that the loop meets, with their texts.
unfoldable pub walk : ℕ → Iter → M Memory (List Header)
unfolding next entry_texts
walk zero it = λ m. out_of_fuel
walk (suc k) it = do
  n ← next it
  elim n [ done ↦ pure [] | entry e it' ↦ do h ← entry_texts e; hs ← walk k it'; pure (h ∷ hs) ]

-- The next iterator, behind an entry of a well-formed map.
abbrev pub stepped : Iter → Header → Iter
stepped it h = record {
  idx = it.idx + 1;
  len = it.len;
  size_ptr = it.size_ptr + 8;
  data_ptr = it.data_ptr + (length h.key + length h.value + 2);
}

abbrev pub entry_at : ℕ → Header → Entry
entry_at dp h = record {
  key = dp;
  key_len = length h.key;
  val = dp + length h.key + 1;
  val_len = length h.value;
}

-- One call of `proxy_wasm_map_next` at an entry that the memory holds.
pub next-entry :
    (it : Iter) (h : Header) (m : Memory)
    → it.idx < it.len
    → it.len < u32
    → HoldsEntry m it.size_ptr it.data_ptr h
    → it.size_ptr + 8 ≤ m.size
    → it.data_ptr + (length h.key + length h.value + 2) ≤ m.size
    → length h.key + length h.value + 2 < half32
    → m.size ≤ u32
    → next it m ≡ ok (entry (entry_at it.data_ptr h) (stepped it h)) m
unfolding next
next-entry it h m lt count e room_sp room_dp short small =
    let sp : ℕ = it.size_ptr in
    let dp : ℕ = it.data_ptr in
    let kl : ℕ = length h.key in
    let vl : ℕ = length h.value in
    let test : (it.idx == it.len) ≡ false = ground arith in
    rw
      (
        test,
        load32-ok sp m (omega arith),
        e.key_len,
        add64_small sp 4 (omega arith),
        load32-ok (sp + 4) m (omega arith),
        e.val_len,
        add32_small kl 1 (omega arith),
        add32_small vl 1 (omega arith),
        sext64_pos (kl + 1) (omega arith),
        sext64_pos (vl + 1) (omega arith),
        add64_small dp (kl + 1) (omega arith),
        add64_small (dp + (kl + 1)) (vl + 1) (omega arith),
        add64_small sp 8 (omega arith),
        add32_small it.idx 1 (omega arith),
      )
      (ground arith)

-- Behind the last entry it answers `false`.
pub next-done : (it : Iter) (m : Memory) → it.idx ≡ it.len → next it m ≡ ok done m
unfolding next
next-done it m e = let test : (it.idx == it.len) ≡ true = ground arith in rw test

pub entry_texts-ok :
    (sp dp : ℕ) (h : Header) (m : Memory)
    → HoldsEntry m sp dp h
    → dp + (length h.key + length h.value + 2) ≤ m.size
    → entry_texts (entry_at dp h) m ≡ ok h m
unfolding entry_texts
entry_texts-ok sp dp h m e room = rw (
  copy_out-ok dp (length h.key) m (omega arith),
  e.key,
  copy_out-ok (dp + length h.key + 1) (length h.value) m (omega arith),
  e.val,
)

-- With one round for each entry and one for the end, the loop reads the headers back in order, and
-- writes nothing.
pub walk-Holds :
    (k : ℕ) (it : Iter) (hs : List Header) (m : Memory)
    → length hs < k
    → it.idx + length hs ≡ it.len
    → it.len < u32
    → Holds m it.size_ptr it.data_ptr hs
    → it.size_ptr + 8 * length hs ≤ m.size
    → it.data_ptr + text_size hs ≤ m.size
    → text_size hs < half32
    → m.size ≤ u32
    → walk k it m ≡ ok hs m
unfolding walk
walk-Holds zero it hs m fuel e count holds a b short small = elim fuel [ ]
walk-Holds (suc k) it [] m fuel e count holds a b short small =
    let done_test : (it.idx == it.len) ≡ true = ground arith in rw done_test
walk-Holds (suc k) it (h ∷ hs) m fuel e count holds a b short small = rw (
  next-entry it h m (omega arith) count holds.0 (omega arith) (omega arith) (omega arith) small,
  entry_texts-ok it.size_ptr it.data_ptr h m holds.0 (omega arith),
  walk-Holds k (stepped it h) hs m (omega arith) (omega arith) count holds.1 (omega arith)
      (omega arith) (omega arith) small,
)

-- `proxy_wasm_map_init_iter` on a well-formed map puts the cursors where its layout says.
pub init_iter-ok :
    (p : ℕ) (hs : List Header) (m : Memory)
    → IsMap m p hs
    → p + map_size hs ≤ m.size
    → map_size hs < half32
    → m.size ≤ u32
    → init_iter p m
      ≡ ok
          (record { idx = 0; len = length hs; size_ptr = p + 4; data_ptr = p + 4 + 8 * length hs })
          m
unfolding init_iter
init_iter-ok p hs m is room short small =
    let twice : 2 * length hs % u32 ≡ 2 * length hs = omega arith in
    rw
      (
        load32-ok p m (omega arith),
        is.count,
        twice,
        add64_small p 4 (omega arith),
        sext64_pos (2 * length hs) (omega arith),
        add64_small (p + 4) (4 * (2 * length hs)) (omega arith),
      )
      (ground arith)

-- The whole reading loop, from the map's address.
unfoldable pub read_map : ℕ → ℕ → M Memory (List Header)
unfolding walk init_iter
read_map fuel p = do it ← init_iter p; walk fuel it

pub read_map-IsMap :
    (p : ℕ) (hs : List Header) (m : Memory)
    → IsMap m p hs
    → p + map_size hs ≤ m.size
    → map_size hs < half32
    → m.size ≤ u32
    → read_map (suc (length hs)) p m ≡ ok hs m
unfolding read_map
read_map-IsMap p hs m is room short small = rw (
  init_iter-ok p hs m is room short small,
  walk-Holds (suc (length hs))
      (record { idx = 0; len = length hs; size_ptr = p + 4; data_ptr = p + 4 + 8 * length hs }) hs m
      (omega arith) (omega arith) (omega arith) is.entries (omega arith) (omega arith) (omega arith)
      small,
)

load32-Ends : (p : ℕ) (m : Memory) → Ends (load32 p m)
unfolding load32
load32-Ends p m = elim (Bool-cases (fits m p 4)) [ inl e ↦ rw e tt | inr e ↦ rw e tt ]

copy_out-Ends : (p n : ℕ) (m : Memory) → Ends (copy_out p n m)
unfolding copy_out
copy_out-Ends p n m = elim (Bool-cases (fits m p n)) [ inl e ↦ rw e tt | inr e ↦ rw e tt ]

pub init_iter-Ends : (p : ℕ) (m : Memory) → Ends (init_iter p m)
unfolding init_iter
init_iter-Ends p m = Ends-and_then (load32 p m) _ (load32-Ends p m) λ len m'. tt

pub entry_texts-Ends : (e : Entry) (m : Memory) → Ends (entry_texts e m)
unfolding entry_texts
entry_texts-Ends e m =
    Ends-and_then (copy_out e.key e.key_len m) _ (copy_out-Ends e.key e.key_len m) λ k m'.
      Ends-and_then (copy_out e.val e.val_len m') _ (copy_out-Ends e.val e.val_len m') λ v m''. tt

-- `proxy_wasm_map_next` on any memory: it stops exactly at the count, and counts one up before that.
pub next-Ends :
    {B : Type 0} (it : Iter) (m : Memory) (k : Next → M Memory B)
    → (it.idx ≡ it.len → Ends (k done m))
    → (it.idx ≢ it.len
        → (e : Entry) (it' : Iter) (m' : Memory) → it'.idx ≡ add32 it.idx 1
        → it'.len ≡ it.len
        → Ends (k (entry e it') m'))
    → Ends (and_then (next it m) k)
unfolding next
next-Ends it m k last more = elim (Bool-cases (it.idx == it.len)) [
  | inl e ↦ rw e (last (ground arith))
  | inr e ↦
      rw (e, and_then_assoc)
        (Ends-and_then (load32 it.size_ptr m) _ (load32-Ends it.size_ptr m) λ kl m1.
          rw and_then_assoc (
            Ends-and_then (load32 (add64 it.size_ptr 4) m1) _ (load32-Ends _ m1)
              λ vl m2. more (ground arith) _ _ m2 refl refl))
]
