-- ===== src/Tests/GetHeaders.antt =====
-- The theorems on getting headers, at a request with its headers in two parts, and at its response.
use wasm_nginx_module.Prelude.{◌≡◌, ◌≢◌, refl, inl, inr, List, [], ◌∷◌, arith, All}
use wasm_nginx_module.Words.{le32}
use wasm_nginx_module.Run.{ok, Returns}
use wasm_nginx_module.Memory.{write, read, word}
use wasm_nginx_module.Map.Layout.{IsMap}
use wasm_nginx_module.Host.{Host, TableElt, result_ok, not_found, with_mem}
use wasm_nginx_module.State.{get_req}
use wasm_nginx_module.Copy.{memory_alloc}
use wasm_nginx_module.Copy.Laws.{Allocated, HandedOver}
use wasm_nginx_module.Pseudo.{bytes}
use wasm_nginx_module.GetHeader.{matches, get_header_map_value}
use wasm_nginx_module.GetHeader.Search.{First}
use wasm_nginx_module.GetHeader.Laws.{
  AsksFor, RoomFor, get_header_map_value-HandedOver, get_header_map_value_absent,
}
use wasm_nginx_module.Pairs.Response.{resp_get_headers, connection}
use wasm_nginx_module.Pairs.ResponseLaws.{live}
use wasm_nginx_module.Pairs.RespHeaders.{
  counted, written, resp_headers, Listed, resp_get_headers-Listed, resp_get_headers-IsMap,
}
use wasm_nginx_module.Tests.Host.{Block-at}
use wasm_nginx_module.Tests.Data.{zeros, engine, host, nginx, request}

abbrev removed : TableElt
removed = record { hash = 0; key = bytes "a"; value = bytes "no" }

abbrev wanted : TableElt
wanted = record { hash = 1; key = bytes "a"; value = bytes "hi" }

abbrev looking : Host
looking = record host {
  r = record request { headers_in = record { part = removed ∷ []; next = (wanted ∷ []) ∷ [] } };
}

asks : AsksFor looking 4 1
unfolding get_req
asks = record { req = refl; key = record { fits = omega arith; low = omega arith } }

list : All (λ part. part ≢ []) ((wanted ∷ []) ∷ [])
list = ((λ e. ground arith), tt)

-- The host with the length 2 in the cell of the answer, before and behind the allocation.
abbrev sized : Host
sized = with_mem looking (write zeros 16 (le32 2))

abbrev sized_after : Host
sized_after = record sized { plugin = record { mem = sized.mem; tick = 1 } }

allocated : Allocated sized sized_after 100 2 8 16
unfolding write le32
allocated = record {
  gives = record {
    not_null = omega arith;
    block = record { fits = omega arith; low = omega arith };
    addr_cell = record { fits = omega arith; low = omega arith };
    size_cell = record { fits = omega arith; low = omega arith };
    block_addr = inr (omega arith);
    block_size = inr (omega arith);
    addr_size = inl (omega arith);
    small = omega arith;
  };
  kept = refl;
}

room_hi : RoomFor engine looking sized_after (bytes "hi") 100 8 16
unfolding memory_alloc
room_hi = record {
  not_empty = λ e. ground arith;
  short = omega arith;
  cell = record { fits = omega arith; low = omega arith };
  alloc = refl;
  allocated = allocated;
}

hit : First (matches nginx (0 ∷ [])) (removed ∷ wanted ∷ []) wanted
unfolding matches
hit = record { before = removed ∷ []; after = []; split = refl; passes = refl; failed = (refl, tt) }

get_header_map_value-HandedOver_example :
    Returns
      (λ r h2. (r ≡ result_ok) × HandedOver sized_after h2 100 8 16 (bytes "hi"))
      (get_header_map_value engine nginx 0 4 1 8 16 looking)
unfolding read
get_header_map_value-HandedOver_example =
    get_header_map_value-HandedOver engine nginx looking sized_after wanted 4 1 100 8 16 asks list
      refl hit room_hi

get_header_map_value_absent_example :
    (get_header_map_value engine nginx 0 4 2 8 16 looking ≡ ok not_found looking)
    × (get_header_map_value engine nginx 6 4 2 8 16 looking ≡ ok not_found looking)
unfolding read matches get_req
get_header_map_value_absent_example =
    get_header_map_value_absent engine nginx looking 4 2 8 16
      (record { req = refl; key = record { fits = omega arith; low = omega arith } }) list refl
      (refl, (refl, tt)) (refl, tt)

-- A response with the header in one part, or in the first of two.
abbrev answering : List (List TableElt) → Host
answering next = record host {
  r = record request { headers_out = record { part = wanted ∷ []; next = next } };
}

abbrev answering_after : List (List TableElt) → Host
answering_after next = record (answering next) { plugin = record { mem = zeros; tick = 2 } }

resp_get_headers-Listed_example :
    Returns
      (λ res h2.
        (res ≡ result_ok)
        × Listed nginx
            (answering_after ((removed ∷ []) ∷ []))
            h2
            100
            8
            16
            (counted nginx (answering ((removed ∷ []) ∷ [])).r)
            (written nginx (answering ((removed ∷ []) ∷ [])).r))
      (resp_get_headers engine nginx 8 16 (answering ((removed ∷ []) ∷ [])))
unfolding memory_alloc live connection
resp_get_headers-Listed_example =
    resp_get_headers-Listed engine nginx (λ k. refl) (λ n size. refl)
      (answering ((removed ∷ []) ∷ [])) (answering_after ((removed ∷ []) ∷ [])) 100 8 16
      ((λ e. ground arith), tt) (omega arith) refl
      (Block-at (answering_after ((removed ∷ []) ∷ [])) _ refl (omega arith))

resp_get_headers-IsMap_example :
    Returns
      (λ res h2.
        (res ≡ result_ok)
        × (word h2.mem 8 ≡ 100)
        × IsMap h2.mem 100 (resp_headers nginx (answering []).r (wanted ∷ [])))
      (resp_get_headers engine nginx 8 16 (answering []))
unfolding memory_alloc live connection
resp_get_headers-IsMap_example =
    resp_get_headers-IsMap engine nginx (λ k. refl) (λ n size. refl) (answering [])
      (answering_after []) 100 8 16 refl (omega arith) refl
      (Block-at (answering_after []) _ refl (omega arith))
