-- ===== src/Wal/Header/Torn.antt =====
-- A record header of which a write left only the first bytes, with another record behind them.
use dattaniddhi.Prelude.{ℕ, zero, suc, ◌<◌, ◌≢◌, List, ◌++◌, arith, take, bytes_equal, ok}
use dattaniddhi.Wal.Header.{RecordHeader, encode_record_header, decode_record_header}

-- Cut within its first twelve bytes, it is refused: the magic number, the version or the length of
-- the record is not read where it stands.
pub decode_record_header_torn :
    (h h' : RecordHeader) (t t' : List ℕ) (n : ℕ)
    → 0 < n
    → n < 12
    → (read : RecordHeader)
    → decode_record_header
        (take 32 (take n (encode_record_header h ++ t) ++ (encode_record_header h' ++ t')))
      ≢ ok read
unfolding encode_record_header decode_record_header bytes_equal
decode_record_header_torn h h' t t' zero low high read e = absurd (omega arith)
decode_record_header_torn h h' t t' (suc zero) low high read e = ground arith
decode_record_header_torn h h' t t' (suc (suc zero)) low high read e = ground arith
decode_record_header_torn h h' t t' (suc (suc (suc zero))) low high read e = ground arith
decode_record_header_torn h h' t t' (suc (suc (suc (suc zero)))) low high read e = ground arith
decode_record_header_torn h h' t t' (suc (suc (suc (suc (suc zero))))) low high read e =
    ground arith
decode_record_header_torn h h' t t' (suc (suc (suc (suc (suc (suc zero)))))) low high read e =
    ground arith
decode_record_header_torn h h' t t' (suc (suc (suc (suc (suc (suc (suc zero))))))) low high read e =
    ground arith
decode_record_header_torn h h' t t' (suc (suc (suc (suc (suc (suc (suc (suc zero)))))))) low high
      read e =
    ground arith
decode_record_header_torn h h' t t' (suc (suc (suc (suc (suc (suc (suc (suc (suc zero))))))))) low
      high read e =
    ground arith
decode_record_header_torn h h' t t' (suc (suc (suc (suc (suc (suc (suc (suc (suc (suc zero))))))))))
      low high read e =
    ground arith
decode_record_header_torn h h' t t'
      (suc (suc (suc (suc (suc (suc (suc (suc (suc (suc (suc zero))))))))))) low high read e =
    ground arith
decode_record_header_torn h h' t t'
      (suc (suc (suc (suc (suc (suc (suc (suc (suc (suc (suc (suc n)))))))))))) low high read e =
    absurd (omega arith)
