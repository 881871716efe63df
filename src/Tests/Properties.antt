-- ===== src/Tests/Properties.antt =====
-- The theorems on properties, at nginx with a variable, and at a value outside of the memory.
use wasm_nginx_module.Prelude.{
  ◌≡◌, ◌≢◌, ◌⊎◌, if◌then◌else◌, [], false, true, refl, inl, arith, some,
}
use wasm_nginx_module.Words.{le32, add32, sext64}
use wasm_nginx_module.Run.{ok, fault, Returns}
use wasm_nginx_module.Memory.{Memory, write, read, get_memory}
use wasm_nginx_module.Vm.{ngx_ok}
use wasm_nginx_module.Host.{not_found, internal_failure, Host, Nginx, result_ok, with_mem}
use wasm_nginx_module.State.{get_req}
use wasm_nginx_module.Copy.{memory_alloc}
use wasm_nginx_module.Copy.Laws.{Allocated, HandedOver}
use wasm_nginx_module.Pseudo.{bytes}
use wasm_nginx_module.GetHeader.Laws.{RoomFor}
use wasm_nginx_module.Property.{get_property, set_property, contains}
use wasm_nginx_module.Property.Laws.{get_property-HandedOver, set_property_null}
use wasm_nginx_module.Tests.Data.{engine, host, nginx}
use wasm_nginx_module.Tests.Calls.{nth}

-- A memory that begins with `plugin_root_id`.
abbrev memory : Memory
memory = record { size = 256; byte = nth (bytes "plugin_root_id") }

abbrev reading : Host
reading = record host { plugin = record { mem = memory; tick = 0 } }

abbrev with_variable : Nginx
with_variable = record nginx { get_variable = λ r name. some (some (bytes "on")) }

abbrev sized : Host → Host
sized h = with_mem h (write memory 200 (le32 2))

abbrev sized_after : Host → Host
sized_after h = record (sized h) { plugin = record { mem = (sized h).mem; tick = 1 } }

module _ (h : Host) where
  allocated : Allocated (sized h) (sized_after h) 100 2 192 200
  unfolding write le32
  allocated = record {
    gives = record {
      not_null = omega arith;
      block = record { fits = omega arith; low = omega arith };
      addr_cell = record { fits = omega arith; low = omega arith };
      size_cell = record { fits = omega arith; low = omega arith };
      block_addr = inl (omega arith);
      block_size = inl (omega arith);
      addr_size = inl (omega arith);
      small = omega arith;
    };
    kept = refl;
  }

room_on : RoomFor engine reading (sized_after reading) (bytes "on") 100 192 200
unfolding memory_alloc
room_on = record {
  not_empty = λ e. ground arith;
  short = omega arith;
  cell = record { fits = omega arith; low = omega arith };
  alloc = refl;
  allocated = allocated reading;
}

get_property-HandedOver_example :
    Returns
      (λ r h2. (r ≡ result_ok) × HandedOver (sized_after reading) h2 100 192 200 (bytes "on"))
      (get_property engine with_variable 0 6 192 200 reading)
unfolding get_req
get_property-HandedOver_example =
    get_property-HandedOver engine with_variable reading (sized_after reading) (bytes "on") 0 6 100
      192 200 refl (record { fits = omega arith; low = omega arith }) (omega arith) (omega arith)
      refl room_on

set_property_null_example :
    let answer = set_property nginx 0 6 250 40 reading in
    ((0 ≡ ngx_ok) × (answer ≡ ok result_ok (record reading { r = reading.r })))
    ⊎ ((0 ≢ ngx_ok) × (false ≡ true) × (answer ≡ fault))
    ⊎ ((0 ≢ ngx_ok)
        × (false ≡ false)
        × (answer
            ≡ ok
                (if contains (bytes "not found for writing") []
                  then not_found
                  else internal_failure)
                (record reading { r = reading.r })))
unfolding get_req get_memory add32 sext64 read
set_property_null_example =
    set_property_null nginx reading 0 6 250 40 refl
      (record { fits = omega arith; low = omega arith }) (omega arith) refl
