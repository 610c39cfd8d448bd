-- ===== src/Wal/Payload/Total.antt =====
-- The payload decoders always give a Go result.
use dattaniddhi.Prelude.{ℕ, zero, suc, ◌+◌, ◌≢◌, List, arith, err}
use dattaniddhi.Wal.Format.{out_of_fuel}
use dattaniddhi.Wal.Payload.{get_vector, decode_insert_payload, decode_delete_payload}

get_vector-ne-out_of_fuel :
    (n : ℕ) (pl : List ℕ) (offset : ℕ) → get_vector n pl offset ≢ err out_of_fuel
unfolding get_vector
get_vector-ne-out_of_fuel zero pl offset = ground arith
get_vector-ne-out_of_fuel (suc n) pl offset =
    ground (arith, get_vector-ne-out_of_fuel n pl (offset + 4))

pub decode_insert_payload-ne-out_of_fuel :
    (pl : List ℕ) → decode_insert_payload pl ≢ err out_of_fuel
unfolding decode_insert_payload
decode_insert_payload-ne-out_of_fuel pl = grind (arith, get_vector-ne-out_of_fuel)

pub decode_delete_payload-ne-out_of_fuel :
    (pl : List ℕ) → decode_delete_payload pl ≢ err out_of_fuel
unfolding decode_delete_payload
decode_delete_payload-ne-out_of_fuel pl = ground arith
