-- ===== src/Tests/Host.antt =====
-- The theorems on the host functions, at a plugin that asks for the headers of a small request.
use wasm_nginx_module.Prelude.{suc, ℕ, ◌≡◌, ◌<◌, refl, inl, inr, true, List, [], ◌∷◌, arith, some}
use wasm_nginx_module.Words.{le32}
use wasm_nginx_module.Run.{Returns, ok, fault}
use wasm_nginx_module.Memory.{write}
use wasm_nginx_module.Map.Layout.{Header, map_size}
use wasm_nginx_module.Host.{Host, result_ok, with_mem}
use wasm_nginx_module.Copy.{memory_alloc, copy_to_wasm}
use wasm_nginx_module.Copy.Laws.{
  Inside, Block, Allocated, HandedOver, copy_to_wasm-HandedOver, copy_to_wasm_trapped,
}
use wasm_nginx_module.Pseudo.{bytes, find_pseudo}
use wasm_nginx_module.Chars.{is_letter}
use wasm_nginx_module.Pairs.{req_get_headers, pseudo_headers, get_string_buf}
use wasm_nginx_module.Pairs.Laws.{Handed}
use wasm_nginx_module.Pairs.ReqHeaders.{req_get_headers-Handed}
use wasm_nginx_module.SetHeader.{set_req_header}
use wasm_nginx_module.SetHeader.Laws.{KeepsNames, Good}
use wasm_nginx_module.SetHeader.PseudoHeaders.{set_authority}
use wasm_nginx_module.Tests.Data.{zeros, accept, engine, broken_engine, host, nginx, request}

-- The host behind one call into the plugin.
abbrev after_one : Host
after_one = record host { plugin = record { mem = zeros; tick = 1 } }

pub Block-at : (h : Host) (len : ℕ) → h.mem ≡ zeros → len < 100 → Block h 100 len 8 16
Block-at h len e lt = record {
  not_null = omega arith;
  block = record { fits = ground arith; low = omega arith };
  addr_cell = record { fits = ground arith; low = omega arith };
  size_cell = record { fits = ground arith; low = omega arith };
  block_addr = inr (omega arith);
  block_size = inr (omega arith);
  addr_size = inl (omega arith);
  small = ground arith;
}

abbrev pseudo : List Header
pseudo =
    record { key = bytes ":scheme"; value = bytes "http" }
    ∷ record { key = bytes ":path"; value = bytes "/a" }
    ∷ record { key = bytes ":method"; value = bytes "GET" }
    ∷ record { key = bytes ":authority"; value = bytes "h" }
    ∷ []

req_get_headers-Handed_example :
    Returns
      (λ r h2. (r ≡ result_ok) × Handed after_one h2 100 8 16 (accept ∷ pseudo))
      (req_get_headers engine nginx 8 16 host)
unfolding memory_alloc get_string_buf pseudo_headers
req_get_headers-Handed_example =
    req_get_headers-Handed engine nginx host host after_one 100 8 16 (accept ∷ []) pseudo refl
      (λ e. ground arith) refl refl refl (omega arith) refl
      (Block-at after_one (map_size (accept ∷ pseudo)) refl (omega arith))

-- The host with the length 2 in the cell of the answer, before and behind the allocation.
abbrev sized : Host
sized = with_mem host (write zeros 16 (le32 2))

abbrev sized_after : Host
sized_after = record sized { plugin = record { mem = sized.mem; tick = 1 } }

allocated : Allocated sized sized_after 100 2 8 16
unfolding write le32
allocated = record {
  gives = record {
    not_null = omega arith;
    block = record { fits = omega arith; low = omega arith };
    addr_cell = record { fits = omega arith; low = omega arith };
    size_cell = record { fits = omega arith; low = omega arith };
    block_addr = inr (omega arith);
    block_size = inr (omega arith);
    addr_size = inl (omega arith);
    small = omega arith;
  };
  kept = refl;
}

cell : Inside host 16 4
cell = record { fits = omega arith; low = omega arith }

copy_to_wasm-HandedOver_example :
    Returns
      (λ r h2. (r ≡ result_ok) × HandedOver sized_after h2 100 8 16 (104 ∷ 105 ∷ []))
      (copy_to_wasm engine (104 ∷ 105 ∷ []) 2 8 16 host)
unfolding memory_alloc
copy_to_wasm-HandedOver_example =
    copy_to_wasm-HandedOver engine host sized_after 100 8 16 (104 ∷ 105 ∷ []) (λ e. ground arith)
      (omega arith) cell refl allocated

copy_to_wasm_trapped_example : copy_to_wasm broken_engine (104 ∷ 105 ∷ []) 2 8 16 host ≡ fault
unfolding write le32
copy_to_wasm_trapped_example =
    copy_to_wasm_trapped broken_engine host 8 16 (104 ∷ 105 ∷ []) (write zeros 16 (le32 2))
      (λ e. ground arith) (omega arith) cell refl refl (omega arith) (omega arith)

pub keeps_names : KeepsNames nginx
keeps_names = record {
  set_exten = λ r. (refl, refl);
  set_req_header = λ r k v o. (refl, refl);
  set_resp_header = λ r k n v o. (refl, refl);
  set_resp_status = λ r c. (refl, refl);
  set_variable = λ r n v. (refl, refl);
}

pub good : Good host
unfolding is_letter
good = record {
  clean = record { uri = (refl, (refl, tt)); method_name = (refl, (refl, (refl, tt))) };
  memory = λ x. omega arith;
}

set_authority_example :
    set_req_header nginx (bytes ":authority") (some (bytes "evil")) true host
    ≡ ok true (record host {
      plugin = record { mem = host.mem; tick = suc host.tick };
      r = record request { method_name = bytes "evil" };
    })
unfolding find_pseudo is_letter
set_authority_example =
    set_authority nginx (bytes ":authority") (bytes "evil") true host refl refl (λ e. ground arith)
      (refl, (refl, (refl, (refl, tt)))) refl
