-- ===== src/Wal/History/Listing.antt =====
-- Recover, whatever the order in which the directory is read.
use mathlib.Core.List.{map, Permᴰ}
use dattaniddhi.Prelude.{
  ◌<◌, ◌≡◌, ◌≢◌, refl, ap, ap₂, ◌∙◌, sym, subst, List, [], ◌∷◌, arith, All, ok,
}
use dattaniddhi.Prelude.Perms.{Perm-All, Perm-map}
use dattaniddhi.Wal.Open.{Found, insert_sorted, sort_segments, get_all_segment, recover}
use dattaniddhi.Wal.Scanner.Entry.{decoded}
use dattaniddhi.Wal.History.{SegmentLog, files, all_entries, IsSegment, Ascending}
use dattaniddhi.Wal.History.Recovers.{
  found_of, list_segments-files, sort_segments-Ascending, scan_segments-files,
}

insert_sorted-insert_sorted :
    (x y : Found) (ss : List Found)
    → x.seg_id ≢ y.seg_id
    → insert_sorted x (insert_sorted y ss) ≡ insert_sorted y (insert_sorted x ss)
unfolding insert_sorted
insert_sorted-insert_sorted x y [] apart = grind arith
insert_sorted-insert_sorted x y (s ∷ ss) apart =
    grind (arith, insert_sorted-insert_sorted x y ss apart)

-- No two have the same number.
abbrev Apart : List Found → Type 0
Apart [] = Unit
Apart (x ∷ xs) = All (λ y. x.seg_id ≢ y.seg_id) xs × Apart xs

Perm-Apart : {xs ys : List Found} → Permᴰ xs ys → Apart xs → Apart ys
Perm-Apart Permᴰ.nil h = tt
Perm-Apart (Permᴰ.cons {l₂ = ys} e d) h = (
  subst (λ (x : Found). All (λ y. x.seg_id ≢ y.seg_id) ys) e
      (Perm-All (λ (y : Found). _ ≢ y.seg_id) d h.0),
  Perm-Apart d h.1,
)
Perm-Apart (Permᴰ.swap {l = l} e f) h =
    let first = subst (λ (x : Found). All (λ (y : Found). x.seg_id ≢ y.seg_id) l) f h.1.0 in
    let second = subst (λ (x : Found). All (λ (y : Found). x.seg_id ≢ y.seg_id) l) e h.0.1 in
    let apart = ap (λ (x : Found). x.seg_id) e in
    let apart' = ap (λ (x : Found). x.seg_id) f in
    ((λ same. h.0.0 (apart ∙ sym same ∙ sym apart'), first), (second, h.1.1))
Perm-Apart (Permᴰ.trans d e) h = Perm-Apart e (Perm-Apart d h)

sort_segments-Perm :
    {xs ys : List Found} → Permᴰ xs ys → Apart xs → sort_segments xs ≡ sort_segments ys
unfolding sort_segments
sort_segments-Perm Permᴰ.nil h = refl
sort_segments-Perm (Permᴰ.cons {b = b} {l₁ = l₁} e d) h =
    ap (λ (x : Found). insert_sorted x (sort_segments l₁)) e
    ∙ ap (insert_sorted b) (sort_segments-Perm d h.1)
sort_segments-Perm (Permᴰ.swap {a = a} {b = b} {l = l} e f) h =
    insert_sorted-insert_sorted a b (sort_segments l) h.0.0
    ∙ ap₂ (λ (x y : Found). insert_sorted x (insert_sorted y (sort_segments l))) f e
sort_segments-Perm (Permᴰ.trans d e) h =
    sort_segments-Perm d h ∙ sort_segments-Perm e (Perm-Apart d h)

Ascending-Apart : (ss : List SegmentLog) → Ascending ss → Apart (map found_of ss)
Ascending-Apart [] h = tt
Ascending-Apart (s ∷ ss) h = (below-Apart s ss h.0, Ascending-Apart ss h.1)
  where
    below-Apart :
        (s : SegmentLog) (ss : List SegmentLog)
        → All (λ t. s.id < t.id) ss
        → All (λ (y : Found). s.id ≢ y.seg_id) (map found_of ss)
    below-Apart s [] k = tt
    below-Apart s (t ∷ ts) k = ((λ same. absurd (omega (arith, same, k.0))), below-Apart s ts k.1)

-- Recover on a directory of segments, listed in any order, returns every entry of every segment, by
-- ascending number of the segment and in the order of the file; what a torn write left at the end of
-- a segment is dropped.
pub recover-files_listed :
    (ss listed : List SegmentLog)
    → All IsSegment ss
    → Ascending ss
    → Permᴰ ss listed
    → recover (files listed) ≡ ok (map decoded (all_entries ss))
unfolding recover get_all_segment
recover-files_listed ss listed fit ascending perm =
    let sorted : sort_segments (map found_of listed) ≡ map found_of ss =
      sym (sort_segments-Perm (Perm-map found_of perm) (Ascending-Apart ss ascending))
      ∙ sort_segments-Ascending ss ascending in
    rw (list_segments-files listed (Perm-All IsSegment perm fit), sorted)
      (scan_segments-files ss fit)
