-- ===== src/Wal/History/Numbers.antt =====
-- Log sequence numbers: they rise from record to record, as long as an opening finds the last one.
use mathlib.Core.List.{map}
use dattaniddhi.Prelude.{
  ℕ, ◌+◌, ◌^◌, ◌≤◌, ◌<◌, ◌≡◌, ◌≢◌, refl, ap, ◌∙◌, sym, subst, List, [], ◌∷◌, ◌++◌, arith, ok,
  Result, ok_injective,
}
use dattaniddhi.Wal.Bytes.{IsU64}
use dattaniddhi.Wal.Format.{Error}
use dattaniddhi.Wal.Log.{Wal, Answers, next_lsn, append_insert, append_delete}
use dattaniddhi.Wal.Log.Steps.{NothingFails}
use dattaniddhi.Wal.Open.{new_wal, recover}
use dattaniddhi.Wal.Payload.{InsertPayload, DeletePayload}
use dattaniddhi.Wal.Scanner.{DecodedRecord}
use dattaniddhi.Wal.Scanner.Entry.{Entry, insert, delete, lsn_of, decoded, EntryFits}
use dattaniddhi.Wal.History.{SegmentLog, all_entries}
use dattaniddhi.Wal.History.Appends.{Holds}
use dattaniddhi.Wal.History.Rotates.{
  Appended, append_record-Appended, all_entries_last, fresh_segment,
}
use dattaniddhi.Wal.History.Reopens.{last_lsn, Reopened, new_wal-Reopened}
use dattaniddhi.Wal.History.Creates.{first_wal, first_wal-Holds}
use dattaniddhi.Wal.History.Durable.{recover-Holds}

-- The numbers are above `low` and rise from record to record.
abbrev pub Rising : ℕ → List DecodedRecord → Type 0
Rising low [] = Unit
Rising low (r ∷ rs) = (low < r.lsn) × Rising r.lsn rs

-- The number of the last record, or `low` where there is none.
abbrev pub last_number : ℕ → List DecodedRecord → ℕ
last_number low [] = low
last_number low (r ∷ rs) = last_number r.lsn rs

abbrev Climbs : ℕ → List Entry → Type 0
Climbs low [] = Unit
Climbs low (e ∷ es) = (low < lsn_of e) × Climbs (lsn_of e) es

Climbs-append :
    (es : List Entry) (low : ℕ) (e : Entry)
    → Climbs low es
    → last_lsn es low < lsn_of e
    → Climbs low (es ++ (e ∷ []))
Climbs-append [] low e h above = (above, tt)
Climbs-append (f ∷ es) low e h above = (h.0, Climbs-append es (lsn_of f) e h.1 above)

last_lsn-append :
    (es fs : List Entry) (low : ℕ) → last_lsn (es ++ fs) low ≡ last_lsn fs (last_lsn es low)
last_lsn-append [] fs low = refl
last_lsn-append (e ∷ es) fs low = last_lsn-append es fs (lsn_of e)

decoded-lsn : (e : Entry) → (decoded e).lsn ≡ lsn_of e
decoded-lsn (insert lsn ip) = refl
decoded-lsn (delete lsn dp) = refl

Climbs-Rising : (es : List Entry) (low : ℕ) → Climbs low es → Rising low (map decoded es)
Climbs-Rising [] low h = tt
Climbs-Rising (e ∷ es) low h = rw (decoded-lsn e) (h.0, Climbs-Rising es (lsn_of e) h.1)

last_number-decoded :
    (es : List Entry) (low : ℕ) → last_number low (map decoded es) ≡ last_lsn es low
last_number-decoded [] low = refl
last_number-decoded (e ∷ es) low =
    rw (last_number, decoded-lsn e) (last_number-decoded es (lsn_of e))

-- A last entry hides the start; where there is none, the start stays.
last_lsn_start : (es : List Entry) (low : ℕ) → last_lsn es 0 ≢ 0 → last_lsn es low ≡ last_lsn es 0
last_lsn_start [] low h = absurd (h refl)
last_lsn_start (e ∷ es) low h = refl

-- The entries of the log rise, and the WAL has the number of the last one.
record Numbered (w : Wal) : Type 0 where
  old : List SegmentLog
  current : SegmentLog
  holds : Holds w old current
  climbs : Climbs 0 (all_entries (old ++ (current ∷ [])))
  last_is : last_lsn (all_entries (old ++ (current ∷ []))) 0 ≡ w.lsn

Appended-Numbered :
    {w : Wal} (n : Numbered w) (e : Entry) {r : Wal × Result Error ℕ}
    → w.lsn < lsn_of e
    → Appended w n.old n.current e r
    → Numbered r.0
Appended-Numbered {w} n e {r} above a = record {
  old = a.old';
  current = a.current';
  holds = a.holds;
  climbs = subst (Climbs 0) (sym a.entries_are) (
      Climbs-append (all_entries (n.old ++ (n.current ∷ []))) 0 e n.climbs
        (omega (arith, n.last_is)));
  last_is =
      ap (λ es. last_lsn es 0) a.entries_are
      ∙ last_lsn-append (all_entries (n.old ++ (n.current ∷ []))) (e ∷ []) 0
      ∙ sym a.lsn_is;
}

Reopened-Numbered :
    {w : Wal} (n : Numbered w) (sp : ℕ) {v : Wal}
    → Reopened w n.old n.current sp v
    → v.lsn ≢ 0
    → Numbered v
Reopened-Numbered {w} n sp {v} o found = record {
  old = n.old;
  current = n.current;
  holds = o.holds;
  climbs = n.climbs;
  last_is =
      ap (λ es. last_lsn es 0) (all_entries_last n.old n.current)
      ∙ last_lsn-append (all_entries n.old) n.current.entries 0
      ∙ last_lsn_start n.current.entries (last_lsn (all_entries n.old) 0)
          (λ e. found (o.lsn_is ∙ e))
      ∙ sym o.lsn_is;
}

-- A call on the log: an append with no failing call, a record that fits and numbers left, or a reopening that finds a
-- number in the last segment.
pub data Call (w : Wal) : Wal → Type 0 where
  inserts :
      (os : Answers) (ip : InsertPayload)
      → NothingFails os
      → IsU64 (w.seg_id + 1)
      → w.lsn + 1 < 2 ^ 64
      → EntryFits (insert (next_lsn w) ip)
      → Call w (append_insert os w ip).0
  deletes :
      (os : Answers) (dp : DeletePayload)
      → NothingFails os
      → IsU64 (w.seg_id + 1)
      → w.lsn + 1 < 2 ^ 64
      → EntryFits (delete (next_lsn w) dp)
      → Call w (append_delete os w dp).0
  reopens :
      (os : Answers) (sp : ℕ) (v : Wal)
      → 1 ≤ sp
      → sp ≤ 3
      → (new_wal os w.dir sp).0 ≡ ok v
      → v.lsn ≢ 0
      → Call w v

-- A sequence of calls, from the first on.
pub data Calls (w : Wal) : Wal → Type 0 where
  here : Calls w w
  later : {v u : Wal} → Calls w v → Call v u → Calls w u

Call-Numbered : {w v : Wal} → Call w v → Numbered w → Numbered v
unfolding append_insert append_delete
Call-Numbered {w} (inserts os ip good seg room fits) n =
    Appended-Numbered n (insert (next_lsn w) ip) (omega arith) (
      append_record-Appended os w n.old n.current (insert (next_lsn w) ip) good n.holds fits refl
        (omega (arith, n.holds.seg_id_is)))
Call-Numbered {w} (deletes os dp good seg room fits) n =
    Appended-Numbered n (delete (next_lsn w) dp) (omega arith) (
      append_record-Appended os w n.old n.current (delete (next_lsn w) dp) good n.holds fits refl
        (omega (arith, n.holds.seg_id_is)))
Call-Numbered {w} (reopens os sp v low high opened found) n =
    let (u, is, o) = new_wal-Reopened w n.old n.current n.holds sp os low high in
    let same : u ≡ v = ok_injective (sym (ap (λ t. t.0) is) ∙ opened) in
    Reopened-Numbered n sp (subst (Reopened w n.old n.current sp) same o) found

Calls-Numbered : {w v : Wal} → Numbered w → Calls w v → Numbered v
Calls-Numbered n here = n
Calls-Numbered n (later calls call) = Call-Numbered call (Calls-Numbered n calls)

-- Behind any sequence of appends in which no call fails, every record fits its fields and a segment,
-- and numbers are left, and of reopenings that find a number in the last segment, from the WAL of an
-- empty directory on: Recover succeeds, the log sequence numbers of its records rise strictly, and
-- the last one is the number that the WAL has.
pub Calls-Rising :
    (sp : ℕ) {w : Wal}
    → Calls (first_wal sp) w
    → (rs : List DecodedRecord) × (recover w.dir ≡ ok rs) × Rising 0 rs × (last_number 0 rs ≡ w.lsn)
Calls-Rising sp {w} calls =
    let start : Numbered (first_wal sp) = record {
      old = [];
      current = fresh_segment 1;
      holds = first_wal-Holds sp;
      climbs = tt;
      last_is = refl;
    } in
    let n = Calls-Numbered start calls in
    let es = all_entries (n.old ++ (n.current ∷ [])) in
    (
      map decoded es,
      recover-Holds w n.old n.current n.holds,
      Climbs-Rising es 0 n.climbs,
      last_number-decoded es 0 ∙ n.last_is,
    )
