-- ===== src/Wal/Scanner/Total.antt =====
-- The scanner loop ends by itself on every file, well formed or not.
use dattaniddhi.Prelude.{
  ℕ, zero, suc, ◌+◌, ◌-◌, ◌≤◌, ◌<◌, ◌≡◌, ◌≢◌, refl, List, [], ◌∷◌, ◌++◌, arith, length, Result, ok,
  err,
}
use dattaniddhi.Wal.Format.{Error, out_of_fuel}
use dattaniddhi.Wal.Header.{RecordHeader}
use dattaniddhi.Wal.Header.Total.{
  decode_segment_header-ne-out_of_fuel, decode_record_header-ne-out_of_fuel,
}
use dattaniddhi.Wal.Payload.Total.{
  decode_insert_payload-ne-out_of_fuel, decode_delete_payload-ne-out_of_fuel,
}
use dattaniddhi.Wal.Scanner.{
  DecodedRecord, Step, torn, next, read_full, decode_payload, scan_body, scan_record, scan_loop,
  scan_segment_file,
}

read_full-ne-out_of_fuel :
    (file : List ℕ) (cursor n : ℕ) → read_full file cursor n ≢ err out_of_fuel
unfolding read_full
read_full-ne-out_of_fuel file cursor n = ground arith

decode_payload-ne-out_of_fuel :
    (rh : RecordHeader) (pl : List ℕ) → decode_payload rh pl ≢ err out_of_fuel
unfolding decode_payload
decode_payload-ne-out_of_fuel rh pl =
    ground (arith, decode_insert_payload-ne-out_of_fuel pl, decode_delete_payload-ne-out_of_fuel pl)

scan_body-ne-out_of_fuel :
    (file : List ℕ) (offset : ℕ) (header_bytes : List ℕ) (rh : RecordHeader)
    → scan_body file offset header_bytes rh ≢ err out_of_fuel
unfolding scan_body
scan_body-ne-out_of_fuel file offset header_bytes rh =
    grind (arith, read_full-ne-out_of_fuel, decode_payload-ne-out_of_fuel)

scan_record-ne-out_of_fuel :
    (file : List ℕ) (offset : ℕ) → scan_record file offset ≢ err out_of_fuel
unfolding scan_record
scan_record-ne-out_of_fuel file offset =
    grind (
      arith, read_full-ne-out_of_fuel, decode_record_header-ne-out_of_fuel,
      scan_body-ne-out_of_fuel,
    )

scan_body_advances :
    (file : List ℕ) (offset : ℕ) (header_bytes : List ℕ) (rh : RecordHeader) {r : DecodedRecord}
    {end : ℕ}
    → scan_body file offset header_bytes rh ≡ ok (next r end)
    → (offset + 36 ≤ end) × (end ≤ length file)
unfolding scan_body
scan_body_advances file offset header_bytes rh e = ground arith

-- A round that goes on takes 36 bytes at least, and stays within the file.
pub scan_record_advances :
    (file : List ℕ) (offset : ℕ) {r : DecodedRecord} {end : ℕ}
    → scan_record file offset ≡ ok (next r end)
    → (offset + 36 ≤ end) × (end ≤ length file)
unfolding scan_record
scan_record_advances file offset e = grind (arith, scan_body_advances)

-- The three ways in which a round can end.
pub data RoundEnds (file : List ℕ) (offset : ℕ) : Type 0 where
  fails : (e : Error) → scan_record file offset ≡ err e → RoundEnds file offset
  stops : scan_record file offset ≡ ok torn → RoundEnds file offset
  goes_on :
      (r : DecodedRecord) (end : ℕ)
      → scan_record file offset ≡ ok (next r end)
      → RoundEnds file offset

pub scan_record_ends : (file : List ℕ) (offset : ℕ) → RoundEnds file offset
scan_record_ends file offset = go (scan_record file offset) refl
  where
    go : (s : Result Error Step) → scan_record file offset ≡ s → RoundEnds file offset
    go (err e) p = fails e p
    go (ok torn) p = stops p
    go (ok (next r end)) p = goes_on r end p

scan_loop-ne-out_of_fuel :
    (fuel : ℕ) (file : List ℕ) (offset : ℕ) (records : List DecodedRecord)
    → length file - offset < fuel
    → scan_loop fuel file offset records ≢ err out_of_fuel
unfolding scan_loop
scan_loop-ne-out_of_fuel zero file offset records h = absurd (omega arith)
scan_loop-ne-out_of_fuel (suc fuel) file offset records h = elim (scan_record_ends file offset) [
  | fails e p ↦ ground (arith, scan_record-ne-out_of_fuel file offset)
  | stops p ↦ ground arith
  | goes_on r end p ↦ ground (
    arith,
    scan_record_advances file offset p,
    scan_loop-ne-out_of_fuel fuel file end (records ++ (r ∷ [])),
  )
]

-- scanSegmentFile gives a Go result on every file: the rounds that the model allows are enough.
pub scan_segment_file-ne-out_of_fuel : (file : List ℕ) → scan_segment_file file ≢ err out_of_fuel
unfolding scan_segment_file
scan_segment_file-ne-out_of_fuel file = grind (
  arith,
  read_full-ne-out_of_fuel,
  decode_segment_header-ne-out_of_fuel,
  scan_loop-ne-out_of_fuel (suc (length file)) file 16 [],
)
