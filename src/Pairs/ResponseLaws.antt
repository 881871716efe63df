-- ===== src/Pairs/ResponseLaws.antt =====
-- What `ngx_http_wasm_resp_get_headers` of src/http/ngx_http_wasm_api.c counts, and what it writes.
use wasm_nginx_module.Prelude.{
  ℕ, ◌+◌, ◌%◌, ◌≤◌, ◌<◌, ◌≡◌, ◌≢◌, refl, ap, ◌∙◌, inl, inr, Bool, true, false, List, [], ◌∷◌, ◌++◌,
  Option, none, some, arith, length, length-append, All, ◌==◌, Bool-cases, if◌then◌else◌,
}
use wasm_nginx_module.Words.{u32, add32_small}
use wasm_nginx_module.Run.{M, ok, ◌>>=◌, returns}
use wasm_nginx_module.Memory.{Memory}
use wasm_nginx_module.Map.{Slot}
use wasm_nginx_module.Map.Layout.{Header, text_size}
use wasm_nginx_module.Map.Build.{put_header}
use wasm_nginx_module.Map.Stages.{Puts, Puts-then, Puts-nothing, text_size-append}
use wasm_nginx_module.Map.Literal.{put_header-Puts, literal-Filled, reserve_literal-ok}
use wasm_nginx_module.Host.{Host, Nginx, Request, TableElt, elements}
use wasm_nginx_module.Pseudo.{bytes}
use wasm_nginx_module.Pairs.Response.{
  Count, bump, count_part, count_parts, last_part, connection, bump_text, asked_type, asked_chunked,
  count_rest, put_literal, put_text, put_chunked, put_part, put_resp_headers,
}

-- A header that may be missing, as the entries that stand for it.
abbrev pub entry_of : List ℕ → Option (List ℕ) → List Header
entry_of key none = []
entry_of key (some val) = record { key = key; value = val } ∷ []

-- The entries `hs` of the loop, and those behind them.
abbrev pub with_rest : List Header → Request → Option (List ℕ) → Option (List ℕ) → List Header
with_rest hs r content_length_hdr status_length_hdr =
    ((((hs ++ entry_of (bytes "content-type") (asked_type r))
          ++ entry_of (bytes "content-length") content_length_hdr)
        ++ entry_of (bytes "connection") (some (connection r)))
      ++ entry_of (bytes "transfer-encoding") (asked_chunked r))
    ++ entry_of (bytes ":status") status_length_hdr

if_Puts :
    (b : Bool) (f g : Slot → M Memory Slot) (hs ks : List Header)
    → Puts f hs
    → Puts g ks
    → Puts (λ s. if b then f s else g s) (if b then hs else ks)
if_Puts true f g hs ks pf pg = pf
if_Puts false f g hs ks pf pg = pg

put_literal-Puts : (h : Header) → Puts (put_literal h) (h ∷ [])
unfolding put_literal
put_literal-Puts h s m r =
    rw
      (reserve_literal-ok s.it h m (omega (arith, r.entries)) (omega (arith, r.apart, r.inside))
        (omega (arith, r.inside)) (omega (arith, r.short)) r.small)
      (returns (
        literal-Filled m s.it.size_ptr s.it.data_ptr h (omega (arith, r.apart))
            (omega (arith, r.short)) (omega (arith, r.short)),
        ground (arith, add32_small s.it.idx 1 (omega (arith, r.entries, r.count))),
      ))

put_text-Puts : (key : List ℕ) (val : Option (List ℕ)) → Puts (put_text key val) (entry_of key val)
put_text-Puts key none = Puts-nothing
put_text-Puts key (some val) = put_header-Puts (record { key = key; value = val })

put_chunked-Puts :
    (val : Option (List ℕ)) → Puts (put_chunked val) (entry_of (bytes "transfer-encoding") val)
put_chunked-Puts none = Puts-nothing
put_chunked-Puts (some val) =
    put_literal-Puts (record { key = bytes "transfer-encoding"; value = val })

module _ (ng : Nginx) where
  -- The entries of the elements of a part that have not been removed.
  unfoldable pub live : List TableElt → List Header
  live [] = []
  live (header ∷ part) =
      let rest = live part in
      if header.hash == 0
      then rest
      else record { key = ng.strlow header.key; value = header.value } ∷ rest

  pub live-append : (xs ys : List TableElt) → live (xs ++ ys) ≡ live xs ++ live ys
  unfolding live
  live-append [] ys = refl
  live-append (x ∷ xs) ys = ground (arith, live-append xs ys)

  put_part-Puts : (part : List TableElt) → Puts (put_part ng part) (live part)
  unfolding put_part live
  put_part-Puts [] = Puts-nothing
  put_part-Puts (header ∷ part) =
      let h : Header = record { key = ng.strlow header.key; value = header.value } in
      if_Puts (header.hash == 0) (put_part ng part) (λ s. put_header s h >>= put_part ng part)
        (live part) (h ∷ live part) (put_part-Puts part)
        (Puts-then (λ s. put_header s h) (put_part ng part) (h ∷ []) (live part) (put_header-Puts h)
          (put_part-Puts part))

  pub put_resp_headers-Puts :
      (r : Request) (cl st : Option (List ℕ))
      → Puts
          (put_resp_headers ng r cl st)
          (with_rest (live (last_part r.headers_out.part r.headers_out.next)) r cl st)
  unfolding put_resp_headers
  put_resp_headers-Puts r cl st =
      Puts-then _ (put_text (bytes ":status") st) _ _
        (Puts-then _ (put_chunked (asked_chunked r)) _ _
          (Puts-then _ (put_literal (record { key = bytes "connection"; value = connection r })) _ _
            (Puts-then _ (put_text (bytes "content-length") cl) _ _
              (Puts-then (put_part ng (last_part r.headers_out.part r.headers_out.next))
                (put_text (bytes "content-type") (asked_type r)) _ _
                (put_part-Puts (last_part r.headers_out.part r.headers_out.next))
                (put_text-Puts (bytes "content-type") (asked_type r)))
              (put_text-Puts (bytes "content-length") cl))
            (put_literal-Puts (record { key = bytes "connection"; value = connection r })))
          (put_chunked-Puts (asked_chunked r)))
        (put_text-Puts (bytes ":status") st)

length_six :
    (xs bs cs ds es fs : List Header)
    → length (((((xs ++ bs) ++ cs) ++ ds) ++ es) ++ fs)
      ≡ length xs + length bs + length cs + length ds + length es + length fs
length_six xs bs cs ds es fs = omega (
  arith,
  length-append xs bs,
  length-append (xs ++ bs) cs,
  length-append ((xs ++ bs) ++ cs) ds,
  length-append (((xs ++ bs) ++ cs) ++ ds) es,
  length-append ((((xs ++ bs) ++ cs) ++ ds) ++ es) fs,
)

text_size_six :
    (xs bs cs ds es fs : List Header)
    → text_size (((((xs ++ bs) ++ cs) ++ ds) ++ es) ++ fs)
      ≡ text_size xs + text_size bs + text_size cs + text_size ds + text_size es + text_size fs
text_size_six xs bs cs ds es fs = omega (
  arith,
  text_size-append xs bs,
  text_size-append (xs ++ bs) cs,
  text_size-append ((xs ++ bs) ++ cs) ds,
  text_size-append (((xs ++ bs) ++ cs) ++ ds) es,
  text_size-append ((((xs ++ bs) ++ cs) ++ ds) ++ es) fs,
)

-- What the entries behind the loop add does not depend on those of the loop.
pub length-with_rest :
    (hs ks : List Header) (r : Request) (cl st : Option (List ℕ))
    → length hs ≤ length ks
    → length (with_rest hs r cl st) ≤ length (with_rest ks r cl st)
length-with_rest hs ks r cl st le = omega (
  arith,
  le,
  length_six hs (entry_of (bytes "content-type") (asked_type r))
      (entry_of (bytes "content-length") cl) (entry_of (bytes "connection") (some (connection r)))
      (entry_of (bytes "transfer-encoding") (asked_chunked r)) (entry_of (bytes ":status") st),
  length_six ks (entry_of (bytes "content-type") (asked_type r))
      (entry_of (bytes "content-length") cl) (entry_of (bytes "connection") (some (connection r)))
      (entry_of (bytes "transfer-encoding") (asked_chunked r)) (entry_of (bytes ":status") st),
)

pub text_size-with_rest :
    (hs ks : List Header) (r : Request) (cl st : Option (List ℕ))
    → text_size hs ≤ text_size ks
    → text_size (with_rest hs r cl st) ≤ text_size (with_rest ks r cl st)
text_size-with_rest hs ks r cl st le = omega (
  arith,
  le,
  text_size_six hs (entry_of (bytes "content-type") (asked_type r))
      (entry_of (bytes "content-length") cl) (entry_of (bytes "connection") (some (connection r)))
      (entry_of (bytes "transfer-encoding") (asked_chunked r)) (entry_of (bytes ":status") st),
  text_size_six ks (entry_of (bytes "content-type") (asked_type r))
      (entry_of (bytes "content-length") cl) (entry_of (bytes "connection") (some (connection r)))
      (entry_of (bytes "transfer-encoding") (asked_chunked r)) (entry_of (bytes ":status") st),
)

pub with_rest_more :
    (hs : List Header) (r : Request) (cl st : Option (List ℕ))
    → (length hs ≤ length (with_rest hs r cl st))
      × (text_size hs ≤ text_size (with_rest hs r cl st))
with_rest_more hs r cl st = (
  omega (
    arith,
    length_six hs (entry_of (bytes "content-type") (asked_type r))
        (entry_of (bytes "content-length") cl) (entry_of (bytes "connection") (some (connection r)))
        (entry_of (bytes "transfer-encoding") (asked_chunked r)) (entry_of (bytes ":status") st),
  ),
  omega (
    arith,
    text_size_six hs (entry_of (bytes "content-type") (asked_type r))
        (entry_of (bytes "content-length") cl) (entry_of (bytes "connection") (some (connection r)))
        (entry_of (bytes "transfer-encoding") (asked_chunked r)) (entry_of (bytes ":status") st),
  ),
)

count_eq : (a a' b b' : ℕ) → a ≡ a' → b ≡ b' → Path Count (a, b) (a', b')
count_eq a a' b b' e f = rw (e, f) refl

bump_text-entry_of :
    (key : List ℕ) (val : Option (List ℕ)) (c n : ℕ)
    → c + length (entry_of key val) < u32
    → n + text_size (entry_of key val) < u32
    → bump_text key val (c, n) ≡ (c + length (entry_of key val), n + text_size (entry_of key val))
unfolding bump
bump_text-entry_of key none c n few short = ground arith
bump_text-entry_of key (some val) c n few short = ground arith

module _ (hs : List Header) (r : Request) (cl st : Option (List ℕ)) where
  abbrev typed : List Header
  typed = entry_of (bytes "content-type") (asked_type r)

  abbrev sized : List Header
  sized = entry_of (bytes "content-length") cl

  abbrev chunked : List Header
  chunked = entry_of (bytes "transfer-encoding") (asked_chunked r)

  abbrev stated : List Header
  stated = entry_of (bytes ":status") st

  -- The connection header is counted with four bytes too many.
  pub count_rest-with_rest :
      length (with_rest hs r cl st) < u32
      → text_size (with_rest hs r cl st) + 4 < u32
      → count_rest r cl st (length hs, text_size hs)
        ≡ (length (with_rest hs r cl st), text_size (with_rest hs r cl st) + 4)
  unfolding count_rest bump
  count_rest-with_rest few short =
      let l =
        length_six hs typed sized (entry_of (bytes "connection") (some (connection r))) chunked
          stated in
      let t =
        text_size_six hs typed sized (entry_of (bytes "connection") (some (connection r))) chunked
          stated in
      let c : ℕ = length hs in
      let n : ℕ = text_size hs in
      let v : List ℕ = connection r in
      rw
        (
          bump_text-entry_of (bytes "content-type") (asked_type r) c n (omega (arith, few, l))
              (omega (arith, short, t)),
          bump_text-entry_of (bytes "content-length") cl (c + length typed) (n + text_size typed)
              (omega (arith, few, l)) (omega (arith, short, t)),
          bump_text-entry_of (bytes "content-length") (some v) (c + length typed + length sized)
              (n + text_size typed + text_size sized) (omega (arith, few, l))
              (omega (arith, short, t)),
          bump_text-entry_of (bytes "transfer-encoding") (asked_chunked r)
              (c + length typed + length sized + 1)
              (n + text_size typed + text_size sized + (14 + length v + 2 + 0))
              (omega (arith, few, l)) (omega (arith, short, t)),
          bump_text-entry_of (bytes ":status") st
              (c + length typed + length sized + 1 + length chunked)
              (n + text_size typed + text_size sized + (14 + length v + 2 + 0) + text_size chunked)
              (omega (arith, few, l)) (omega (arith, short, t)),
        )
        (count_eq _ _ _ _ (omega (arith, l)) (omega (arith, t)))

module _ (ng : Nginx) (keeps : (k : List ℕ) → length (ng.strlow k) ≡ length k) where
  live_none : live ng [] ≡ []
  unfolding live
  live_none = refl

  live_removed :
      (header : TableElt) (part : List TableElt)
      → (header.hash == 0) ≡ true
      → live ng (header ∷ part) ≡ live ng part
  unfolding live
  live_removed header part removed = rw removed

  live_kept :
      (header : TableElt) (part : List TableElt)
      → (header.hash == 0) ≡ false
      → live ng (header ∷ part)
        ≡ record { key = ng.strlow header.key; value = header.value } ∷ live ng part
  unfolding live
  live_kept header part kept = rw kept

  count_part-live :
      (part : List TableElt) (c n : ℕ)
      → c + length (live ng part) < u32
      → n + text_size (live ng part) < u32
      → count_part part (c, n) ≡ (c + length (live ng part), n + text_size (live ng part))
  unfolding count_part bump
  count_part-live [] c n few short =
      rw live_none (count_eq c (c + 0) n (n + 0) (omega arith) (omega arith))
  count_part-live (header ∷ part) c n few short = elim (Bool-cases (header.hash == 0)) [
    | inl removed ↦
        let e = live_removed header part removed in
        rw (removed, e)
          (count_part-live part c n (omega (arith, few, ap length e))
            (omega (arith, short, ap text_size e)))
    | inr kept ↦
        let e = live_kept header part kept in
        let l = ap length e in
        let t = ap text_size e in
        let k = keeps header.key in
        let c' : (c + 1) % u32 ≡ c + 1 = omega (arith, few, l) in
        let n' : (n + (length header.key + length header.value + 2)) % u32
            ≡ n + (length header.key + length header.value + 2) =
          omega (arith, short, t, k) in
        rw
          (
            kept,
            c',
            n',
            count_part-live part (c + 1) (n + (length header.key + length header.value + 2))
                (omega (arith, few, l)) (omega (arith, short, t, k)),
          )
          (count_eq _ _ _ _ (omega (arith, l)) (omega (arith, t, k)))
  ]

  count_parts-live :
      (part : List TableElt) (next : List (List TableElt)) (c n : ℕ) (h : Host)
      → All (λ part'. part' ≢ []) next
      → c + length (live ng (elements part next)) < u32
      → n + text_size (live ng (elements part next)) < u32
      → count_parts part next (c, n) h
        ≡ ok
            (
              c + length (live ng (elements part next)),
              n + text_size (live ng (elements part next)),
            )
            h
  unfolding count_parts
  count_parts-live part [] c n h ne few short = rw (count_part-live part c n few short)
  count_parts-live part (part' ∷ next) c n h (ne, nes) few short =
      let more : (length part' == 0) ≡ false = ground arith in
      let e = live-append ng part (elements part' next) in
      let l = ap length e ∙ length-append (live ng part) (live ng (elements part' next)) in
      let t = ap text_size e ∙ text_size-append (live ng part) (live ng (elements part' next)) in
      rw
        (
          more,
          count_part-live part c n (omega (arith, few, l)) (omega (arith, short, t)),
          count_parts-live part' next (c + length (live ng part)) (n + text_size (live ng part)) h
              nes (omega (arith, few, l)) (omega (arith, short, t)),
        )
        (ap (λ x. ok x h) (count_eq _ _ _ _ (omega (arith, l)) (omega (arith, t))))

  -- The first loop from the start.
  pub count_parts-elements :
      (part : List TableElt) (next : List (List TableElt)) (h : Host)
      → All (λ part'. part' ≢ []) next
      → length (live ng (elements part next)) < u32
      → text_size (live ng (elements part next)) < u32
      → count_parts part next (0, 0) h
        ≡ ok (length (live ng (elements part next)), text_size (live ng (elements part next))) h
  count_parts-elements part next h ne few short =
      count_parts-live part next 0 0 h ne (omega (arith, few)) (omega (arith, short))
      ∙ ap (λ x. ok x h) (count_eq _ _ _ _ (omega arith) (omega arith))
