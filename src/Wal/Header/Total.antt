-- ===== src/Wal/Header/Total.antt =====
-- The header decoders always give a Go result.
use dattaniddhi.Prelude.{ℕ, ◌≢◌, List, arith, err}
use dattaniddhi.Wal.Format.{out_of_fuel}
use dattaniddhi.Wal.Header.{decode_segment_header, decode_record_header}

pub decode_segment_header-ne-out_of_fuel :
    (bytes : List ℕ) → decode_segment_header bytes ≢ err out_of_fuel
unfolding decode_segment_header
decode_segment_header-ne-out_of_fuel bytes = ground arith

pub decode_record_header-ne-out_of_fuel :
    (bytes : List ℕ) → decode_record_header bytes ≢ err out_of_fuel
unfolding decode_record_header
decode_record_header-ne-out_of_fuel bytes = ground arith
