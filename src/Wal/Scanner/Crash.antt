-- ===== src/Wal/Scanner/Crash.antt =====
-- A crash that cuts a segment file at any byte: what scanSegmentFile still returns.
use mathlib.Core.List.{map}
use dattaniddhi.Prelude.{
  ℕ, suc, ◌+◌, ◌-◌, ◌≤◌, ◌<◌, ◌≡◌, refl, sym, ap, ◌∙◌, inl, inr, List, [], ◌∷◌, ◌++◌, arith, length,
  length-append, length-take, take, drop, take-append_le, take-append_add, take_nil,
  take-append-drop, append_assoc, ltb→lt, All, All-take, ltb, Bool-cases, ok,
}
use dattaniddhi.Wal.Bytes.{IsU64}
use dattaniddhi.Wal.Format.{wal_version}
use dattaniddhi.Wal.Header.{new_segment_header, encode_segment_header}
use dattaniddhi.Wal.Header.RoundTrip.{length-encode_segment_header}
use dattaniddhi.Wal.Scanner.{scan_segment_file}
use dattaniddhi.Wal.Scanner.Entry.{Entry, entry_bytes, entries_bytes, decoded, EntryFits}
use dattaniddhi.Wal.Scanner.Recovery.{CleanTail, segment_bytes, scan_segment_file-entries}

-- Of the entries `es`, cut after `n` bytes, the first `kept` are whole and the rest is a clean tail.
pub record Cut (es : List Entry) (n : ℕ) : Type 0 where
  pub kept : ℕ
  pub tail : List ℕ
  pub split : take n (entries_bytes es) ≡ entries_bytes (take kept es) ++ tail
  pub clean : CleanTail tail
  pub kept_whole : length (entries_bytes (take kept es)) ≤ n
  pub next_cut : kept < length es → n < length (entries_bytes (take (suc kept) es))

Cut-nil : (n : ℕ) → Cut [] n
Cut-nil n = record {
  kept = 0;
  tail = [];
  split = take_nil n;
  clean = inl refl;
  kept_whole = omega arith;
  next_cut = λ h. absurd (omega arith);
}

Cut-first :
    (e : Entry) (es : List Entry) (n : ℕ)
    → EntryFits e
    → n < length (entry_bytes e)
    → Cut (e ∷ es) n
Cut-first e es n fits h = record {
  kept = 0;
  tail = take n (entry_bytes e);
  split = take-append_le n (entry_bytes e) (entries_bytes es) (omega arith);
  clean = inr (record {
    entry = e;
    fits = fits;
    lost = drop n (entry_bytes e);
    whole = sym (take-append-drop n (entry_bytes e));
    proper = omega (arith, length-take n (entry_bytes e));
  });
  kept_whole = omega arith;
  next_cut = λ _. omega (arith, length-append (entry_bytes e) []);
}

Cut-later :
    (e : Entry) (es : List Entry) (n m : ℕ)
    → n ≡ length (entry_bytes e) + m
    → Cut es m
    → Cut (e ∷ es) n
Cut-later e es n m h c = record {
  kept = suc c.kept;
  tail = c.tail;
  split =
      rw (h, take-append_add)
        (ap (λ t. entry_bytes e ++ t) c.split
          ∙ sym (append_assoc (entry_bytes e) (entries_bytes (take c.kept es)) c.tail));
  clean = c.clean;
  kept_whole =
      omega (arith, c.kept_whole, length-append (entry_bytes e) (entries_bytes (take c.kept es)));
  next_cut = λ more. omega (
    arith,
    c.next_cut (omega arith),
    length-append (entry_bytes e) (entries_bytes (take (suc c.kept) es)),
  );
}

pub Cut-entries : (es : List Entry) (n : ℕ) → All EntryFits es → Cut es n
Cut-entries [] n fits = Cut-nil n
Cut-entries (e ∷ es) n fits = elim (Bool-cases (ltb n (length (entry_bytes e)))) [
  | inl short ↦ Cut-first e es n fits.0 (ltb→lt _ _ short)
  | inr long ↦
      Cut-later e es n (n - length (entry_bytes e)) (ground arith)
        (Cut-entries es (n - length (entry_bytes e)) fits.1)
]

-- What is on disk after a crash at byte `n` of a segment: the scan returns the first `kept` entries,
-- which are those that were wholly written.
pub record Survives (seg_id : ℕ) (es : List Entry) (n : ℕ) : Type 0 where
  pub kept : ℕ
  pub scanned :
      scan_segment_file (take n (segment_bytes seg_id (entries_bytes es)))
      ≡ ok (map decoded (take kept es))
  pub kept_whole : length (segment_bytes seg_id (entries_bytes (take kept es))) ≤ n
  pub next_cut :
      kept < length es → n < length (segment_bytes seg_id (entries_bytes (take (suc kept) es)))

pub length-segment_bytes :
    (seg_id : ℕ) (body : List ℕ) → length (segment_bytes seg_id body) ≡ 16 + length body
unfolding new_segment_header
length-segment_bytes seg_id body =
    let h = new_segment_header wal_version seg_id in
    omega (arith, length-append (encode_segment_header h) body, length-encode_segment_header h)

take-segment_bytes :
    (seg_id : ℕ) (body : List ℕ) (n m : ℕ)
    → n ≡ 16 + m
    → take n (segment_bytes seg_id body) ≡ segment_bytes seg_id (take m body)
take-segment_bytes seg_id body n m e =
    let h = encode_segment_header (new_segment_header wal_version seg_id) in
    let size : length h ≡ 16 =
      length-encode_segment_header (new_segment_header wal_version seg_id) in
    let e' : n ≡ length h + m = omega arith in rw e' (take-append_add h body m)

-- Wherever behind the segment header a crash cuts the file, scanSegmentFile returns without an
-- error the entries whose records lie wholly before the cut, and no others.
pub scan_segment_file_crash :
    (seg_id : ℕ) (es : List Entry) (n : ℕ)
    → IsU64 seg_id
    → All EntryFits es
    → 16 ≤ n
    → Survives seg_id es n
scan_segment_file_crash seg_id es n id_fits fits h =
    let c = Cut-entries es (n - 16) fits in
    let whole = take c.kept es in
    let cut : take n (segment_bytes seg_id (entries_bytes es))
        ≡ segment_bytes seg_id (entries_bytes whole ++ c.tail) =
      take-segment_bytes seg_id (entries_bytes es) n (n - 16) (omega arith)
      ∙ ap (segment_bytes seg_id) c.split in
    record {
      kept = c.kept;
      scanned =
          ap scan_segment_file cut
          ∙ scan_segment_file-entries seg_id whole c.tail id_fits
              (All-take EntryFits c.kept es fits) c.clean;
      kept_whole = omega (arith, c.kept_whole, length-segment_bytes seg_id (entries_bytes whole));
      next_cut = λ more. omega (
        arith,
        c.next_cut more,
        length-segment_bytes seg_id (entries_bytes (take (suc c.kept) es)),
      );
    }
