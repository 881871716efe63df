-- ===== src/HttpCall/Blocks.antt =====
-- A map that a plugin has in its memory is still one when its bytes are copied into a block, as
-- `proxy_http_call` of src/http/ngx_http_wasm_api.c does.
use wasm_nginx_module.Prelude.{
  ℕ, zero, suc, ◌+◌, ◌*◌, ◌≡◌, refl, ap, ◌∙◌, List, [], ◌∷◌, arith, length,
}
use wasm_nginx_module.Memory.{Memory, read, word}
use wasm_nginx_module.Map.Layout.{Header, HoldsEntry, Holds, IsMap}
use wasm_nginx_module.HttpCall.{block}

byte-block : (m : Memory) (p n x y : ℕ) → y ≡ p + x → (block m p n).byte x ≡ m.byte y
byte-block m p n x y e = ap m.byte (omega arith)

read-block : (m : Memory) (p n a b k : ℕ) → b ≡ p + a → read (block m p n) a k ≡ read m b k
unfolding read
read-block m p n a b zero e = refl
read-block m p n a b (suc k) e =
    rw (byte-block m p n a b e, read-block m p n (suc a) (suc b) k (omega arith))

word-block : (m : Memory) (p n a b : ℕ) → b ≡ p + a → word (block m p n) a ≡ word m b
unfolding word
word-block m p n a b e = rw (
  byte-block m p n a b e,
  byte-block m p n (a + 1) (b + 1) (omega arith),
  byte-block m p n (a + 2) (b + 2) (omega arith),
  byte-block m p n (a + 3) (b + 3) (omega arith),
)

HoldsEntry-block :
    (m : Memory) (p n sp dp sp' dp' : ℕ) (h : Header)
    → sp' ≡ p + sp
    → dp' ≡ p + dp
    → HoldsEntry m sp' dp' h
    → HoldsEntry (block m p n) sp dp h
HoldsEntry-block m p n sp dp sp' dp' h es ed e = record {
  key_len = word-block m p n sp sp' es ∙ e.key_len;
  val_len = word-block m p n (sp + 4) (sp' + 4) (omega arith) ∙ e.val_len;
  key = read-block m p n dp dp' (length h.key) ed ∙ e.key;
  key_nul = byte-block m p n _ _ (omega arith) ∙ e.key_nul;
  val = read-block m p n _ _ (length h.value) (omega arith) ∙ e.val;
  val_nul = byte-block m p n _ _ (omega arith) ∙ e.val_nul;
}

Holds-block :
    (m : Memory) (p n sp dp sp' dp' : ℕ) (hs : List Header)
    → sp' ≡ p + sp
    → dp' ≡ p + dp
    → Holds m sp' dp' hs
    → Holds (block m p n) sp dp hs
Holds-block m p n sp dp sp' dp' [] es ed holds = tt
Holds-block m p n sp dp sp' dp' (h ∷ hs) es ed (e, rest) = (
  HoldsEntry-block m p n sp dp sp' dp' h es ed e,
  Holds-block m p n (sp + 8) (dp + (length h.key + length h.value + 2)) (sp' + 8)
      (dp' + (length h.key + length h.value + 2)) hs (omega arith) (omega arith) rest,
)

pub IsMap-block :
    (m : Memory) (p n : ℕ) (hs : List Header) → IsMap m p hs → IsMap (block m p n) 0 hs
IsMap-block m p n hs is = record {
  count = word-block m p n 0 p (omega arith) ∙ is.count;
  entries =
      Holds-block m p n 4 (4 + 8 * length hs) (p + 4) (p + 4 + 8 * length hs) hs (omega arith)
        (omega arith) is.entries;
}
