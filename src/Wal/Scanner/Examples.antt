-- ===== src/Wal/Scanner/Examples.antt =====
-- The scanner's theorems at concrete inputs.
use mathlib.Core.List.{map}
use dattaniddhi.Prelude.{
  ℕ, ◌≡◌, refl, sym, subst, List, [], ◌∷◌, ◌++◌, arith, All, All-append, inl, ok, err,
}
use dattaniddhi.Wal.Examples.{gone_point, entry_one, entry_two, entry_one_fits, entry_two_fits}
use dattaniddhi.Wal.Bytes.{IsByte, put_uint, put_uint-IsByte}
use dattaniddhi.Wal.Format.{magic_bytes, wal_version, invalid_checksum}
use dattaniddhi.Wal.Payload.Layout.{encode_delete-layout}
use dattaniddhi.Wal.Scanner.{scan_segment_file}
use dattaniddhi.Wal.Scanner.Altered.{
  header_bytes-IsByte, magic_bytes-IsByte, Altered, altered_bytes, scan_segment_file-Altered,
}
use dattaniddhi.Wal.Scanner.Genuine.{Genuine, scan_segment_file-Genuine}
use dattaniddhi.Wal.Scanner.Rounds.{header_bytes, crc_bytes, entry_bytes-layout}
use dattaniddhi.Wal.Header.{new_segment_header, encode_segment_header}
use dattaniddhi.Wal.Header.RoundTrip.{encode_segment_header-layout}
use dattaniddhi.Wal.Scanner.Crash.{Survives, scan_segment_file_crash}
use dattaniddhi.Wal.Scanner.Entry.{Entry, entry_bytes, payload_of, entries_bytes, decoded}
use dattaniddhi.Wal.Scanner.Recovery.{segment_bytes, scan_segment_file-entries}
use dattaniddhi.Wal.Scanner.Verified.{Verified, scan_segment_file-Verified}

abbrev two_entries : List Entry
two_entries = entry_one ∷ (entry_two ∷ [])

scan_segment_file-entries_example :
    scan_segment_file (segment_bytes 1 (entries_bytes two_entries ++ []))
    ≡ ok (map decoded two_entries)
scan_segment_file-entries_example =
    scan_segment_file-entries 1 two_entries [] (omega arith) (entry_one_fits, (entry_two_fits, tt))
      (inl refl)

scan_segment_file_crash_example : Survives 1 two_entries 80
scan_segment_file_crash_example =
    scan_segment_file_crash 1 two_entries 80 (omega arith) (entry_one_fits, (entry_two_fits, tt))
      (omega arith)

scan_segment_file-Verified_example :
    All (Verified (segment_bytes 1 (entries_bytes two_entries ++ []))) (map decoded two_entries)
scan_segment_file-Verified_example =
    scan_segment_file-Verified (segment_bytes 1 (entries_bytes two_entries ++ []))
      scan_segment_file-entries_example

-- In the record of the delete, the external id is changed from a to b.
wrong_byte : Altered entry_two (1 ∷ (0 ∷ [])) (put_uint 8 1) b'a' b'b'
wrong_byte = record {
  fits = entry_two_fits;
  bytes = subst (All IsByte) (sym (encode_delete-layout gone_point)) (grind arith);
  split = encode_delete-layout gone_point;
  byte = omega arith;
  other = λ h. omega arith;
}

scan_segment_file-Altered_example :
    scan_segment_file (
      segment_bytes 1 (
        entries_bytes (entry_one ∷ [])
        ++ (altered_bytes entry_two (1 ∷ (0 ∷ [])) (put_uint 8 1) b'b'
            ++ entries_bytes (entry_one ∷ []))))
    ≡ err invalid_checksum
scan_segment_file-Altered_example =
    scan_segment_file-Altered 1 (entry_one ∷ []) entry_two (1 ∷ (0 ∷ [])) (put_uint 8 1) b'a' b'b'
      (entries_bytes (entry_one ∷ [])) (omega arith) (entry_one_fits, tt) wrong_byte

entry_two-IsByte : All IsByte (entry_bytes entry_two)
entry_two-IsByte = subst (All IsByte) (sym (entry_bytes-layout entry_two)) (
    All-append IsByte (header_bytes entry_two) (payload_of entry_two ++ crc_bytes entry_two)
      (header_bytes-IsByte entry_two)
      (All-append IsByte (payload_of entry_two) (crc_bytes entry_two) wrong_byte.bytes
        (put_uint-IsByte 4 _)))

abbrev deleted_file : List ℕ
deleted_file = segment_bytes 1 (entries_bytes (entry_two ∷ []) ++ [])

deleted_file-IsByte : All IsByte deleted_file
unfolding new_segment_header
deleted_file-IsByte =
    let h = new_segment_header wal_version 1 in
    All-append IsByte (encode_segment_header h) (entries_bytes (entry_two ∷ []) ++ [])
      (subst (All IsByte) (sym (encode_segment_header-layout h)) (
        All-append IsByte magic_bytes (wal_version ∷ put_uint 8 1) magic_bytes-IsByte
          (omega arith, put_uint-IsByte 8 1)))
      (All-append IsByte (entry_bytes entry_two ++ []) []
        (All-append IsByte (entry_bytes entry_two) [] entry_two-IsByte tt) tt)

scan_segment_file-Genuine_example : All (Genuine deleted_file) (decoded entry_two ∷ [])
scan_segment_file-Genuine_example =
    scan_segment_file-Genuine deleted_file deleted_file-IsByte (
      scan_segment_file-entries 1 (entry_two ∷ []) [] (omega arith) (entry_two_fits, tt) (inl refl))
