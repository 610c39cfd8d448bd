-- ===== src/Wal/History/Durable.antt =====
-- What an append promises to a later recovery, for AppendInsert and AppendDelete.
use mathlib.Core.List.{map, map-append}
use dattaniddhi.Prelude.{
  ℕ, ◌+◌, ◌≡◌, refl, ap, ◌∙◌, sym, List, [], ◌∷◌, ◌++◌, All-append, Result, ok,
}
use dattaniddhi.Wal.Bytes.{IsU64}
use dattaniddhi.Wal.Format.{Error}
use dattaniddhi.Wal.Log.{Wal, Answers, next_lsn, append_insert, append_delete}
use dattaniddhi.Wal.Log.Steps.{NothingFails}
use dattaniddhi.Wal.Open.{recover}
use dattaniddhi.Wal.Payload.{InsertPayload, DeletePayload}
use dattaniddhi.Wal.Scanner.{DecodedRecord}
use dattaniddhi.Wal.Scanner.Entry.{Entry, insert, delete, lsn_of, decoded, EntryFits}
use dattaniddhi.Wal.History.{SegmentLog, all_entries, IsSegment}
use dattaniddhi.Wal.History.Appends.{Holds}
use dattaniddhi.Wal.History.Recovers.{recover-files}
use dattaniddhi.Wal.History.Rotates.{
  Appended, append_record-Appended, files-append, Ascending-append,
}

-- Recovery of a directory that holds a history.
pub recover-Holds :
    (w : Wal) (old : List SegmentLog) (current : SegmentLog)
    → Holds w old current
    → recover w.dir ≡ ok (map decoded (all_entries (old ++ (current ∷ []))))
recover-Holds w old current h =
    ap recover (h.dir_is ∙ sym (files-append old (current ∷ [])))
    ∙ recover-files (old ++ (current ∷ []))
        (All-append IsSegment old (current ∷ []) h.old_fit (h.current_fits, tt))
        (Ascending-append old current h.ascending h.older)

-- The append returned the number of `e`, a recovery finds what was there before and then `e`, and
-- the log stays one that holds its history.
pub record Durable (before : List DecodedRecord) (e : Entry) (r : Wal × Result Error ℕ)
    : Type 0 where
  pub result_is : r.1 ≡ ok (lsn_of e)
  pub recovered : recover r.0.dir ≡ ok (before ++ (decoded e ∷ []))
  pub old' : List SegmentLog
  pub current' : SegmentLog
  pub holds : Holds r.0 old' current'

Appended-Durable :
    {w : Wal} {old : List SegmentLog} {current : SegmentLog} {e : Entry} {r : Wal × Result Error ℕ}
    → Appended w old current e r
    → Durable (map decoded (all_entries (old ++ (current ∷ [])))) e r
Appended-Durable {w} {old} {current} {e} {r} a = record {
  result_is = a.result_is;
  recovered =
      recover-Holds r.0 a.old' a.current' a.holds
      ∙ ap (λ es. ok (map decoded es)) a.entries_are
      ∙ ap ok (map-append decoded (all_entries (old ++ (current ∷ []))) (e ∷ []));
  old' = a.old';
  current' = a.current';
  holds = a.holds;
}

module _ (os : Answers) (w : Wal) (old : List SegmentLog) (current : SegmentLog)
    (good : NothingFails os) (h : Holds w old current) (id_fits : IsU64 (current.id + 1)) where
  -- AppendInsert of a record that fits, with no failing call, returns the next log sequence number,
  -- and Recover then returns all that it returned before, followed by the record of this insert,
  -- rotation or not.
  pub append_insert-Durable :
      (ip : InsertPayload)
      → EntryFits (insert (next_lsn w) ip)
      → Durable
          (map decoded (all_entries (old ++ (current ∷ []))))
          (insert (next_lsn w) ip)
          (append_insert os w ip)
  unfolding append_insert
  append_insert-Durable ip fits =
      Appended-Durable
        (append_record-Appended os w old current (insert (next_lsn w) ip) good h fits refl id_fits)

  -- AppendDelete of a record that fits, with no failing call, returns the next log sequence number,
  -- and Recover then returns all that it returned before, followed by the record of this delete,
  -- rotation or not.
  pub append_delete-Durable :
      (dp : DeletePayload)
      → EntryFits (delete (next_lsn w) dp)
      → Durable
          (map decoded (all_entries (old ++ (current ∷ []))))
          (delete (next_lsn w) dp)
          (append_delete os w dp)
  unfolding append_delete
  append_delete-Durable dp fits =
      Appended-Durable
        (append_record-Appended os w old current (delete (next_lsn w) dp) good h fits refl id_fits)
