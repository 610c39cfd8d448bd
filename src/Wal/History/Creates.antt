-- ===== src/Wal/History/Creates.antt =====
-- NewWAL on an empty directory.
use dattaniddhi.Prelude.{
  ◌≤◌, ◌≡◌, ◌∙◌, bytes_equal_refl, refl, ap, ltb, ltb_of_le, true, false, ap₂, [], ◌∷◌, append-nil,
  arith, length, inl, ok, ℕ,
}
use dattaniddhi.Wal.Disk.{written, open_create, append_file}
use dattaniddhi.Wal.Format.{wal_version}
use dattaniddhi.Wal.Header.{new_segment_header, encode_segment_header}
use dattaniddhi.Wal.Header.RoundTrip.{length-encode_segment_header}
use dattaniddhi.Wal.Names.{segment_file_name}
use dattaniddhi.Wal.Log.{Wal, Answers, opened, create_segment, append_segment}
use dattaniddhi.Wal.Log.Steps.{NothingFails}
use dattaniddhi.Wal.Open.{latest_loop, get_latest_segment_id, open_new, new_wal}
use dattaniddhi.Wal.Scanner.Crash.{length-segment_bytes}
use dattaniddhi.Wal.History.{content_of, file_of}
use dattaniddhi.Wal.History.Appends.{Holds}
use dattaniddhi.Wal.History.Rotates.{fresh_segment}

-- The WAL of an empty directory: one segment with its header.
abbrev pub first_wal : ℕ → Wal
first_wal sp = record {
  dir = file_of (fresh_segment 1) ∷ [];
  active_segment = record {
    seg_id = 1;
    file = opened;
    current_size = length (content_of (fresh_segment 1));
  };
  lsn = 0;
  seg_id = 1;
  sync_policy = sp;
  done = false;
}

pub first_wal-Holds : (sp : ℕ) → Holds (first_wal sp) [] (fresh_segment 1)
first_wal-Holds sp = record {
  dir_is = refl;
  old_fit = tt;
  current_fits = record { id_fits = omega arith; entries_fit = tt; tail_clean = inl refl };
  ascending = tt;
  older = tt;
  untorn = refl;
  active_is = refl;
  seg_id_is = refl;
  bounded = omega (arith, length-segment_bytes 1 []);
}

-- Creation and the write of the header succeed.
abbrev granted : Answers → Answers
granted os = record os { create_ok = true; header_write = written }

granted_lem : (os : Answers) → NothingFails os → os ≡ granted os
granted_lem os good =
    ap₂ (λ c w. record os { create_ok = c; header_write = w }) good.creates good.writes_header

open_new-granted :
    (os : Answers) (sp : ℕ)
    → open_new (granted os) [] sp ≡ (ok (first_wal sp), file_of (fresh_segment 1) ∷ [])
unfolding open_new create_segment append_segment open_create append_file
open_new-granted os sp =
    let header = new_segment_header wal_version 1 in
    rw (
      bytes_equal_refl (segment_file_name 1),
      append-nil (encode_segment_header header),
      length-encode_segment_header header,
    )

-- NewWAL on an empty directory, with no failing call, makes the first segment.
pub new_wal_empty :
    (os : Answers) (sp : ℕ)
    → NothingFails os
    → 1 ≤ sp
    → sp ≤ 3
    → new_wal os [] sp ≡ (ok (first_wal sp), file_of (fresh_segment 1) ∷ [])
unfolding new_wal get_latest_segment_id latest_loop
new_wal_empty os sp good low high =
    let low' : ltb sp 1 ≡ false = ltb_of_le sp 1 low in
    let high' : ltb 3 sp ≡ false = ltb_of_le 3 sp high in
    rw (new_wal, low', high')
      (ap (λ o. open_new o [] sp) (granted_lem os good) ∙ open_new-granted os sp)
