-- ===== src/Index/Examples.antt =====
-- The search at a concrete input.
use Prim.Native.Nat.{Ordering, lt, eq, gt, compare}
use mathlib.Core.List.Permᴰ
use mathlib.Core.List.{Permᴰ}
use dattaniddhi.Prelude.{
  ℕ, ◌+◌, ◌*◌, ◌≡◌, ◌≢◌, refl, sym, ◌∙◌, subst, ◌⊎◌, ltb, List, [], ◌∷◌, some, arith, All, ok, inl,
  inr,
}
use dattaniddhi.Floats.{Floats, IsWeakOrder, CompareLaws}
use dattaniddhi.Vector.{Vector}
use dattaniddhi.Index.{validate, new_linear_index, LinearIndex, linear_index, metric_dot}
use dattaniddhi.Index.Contract.{IsIndex, linear_vector_index, linear_vector_index-IsIndex}
use dattaniddhi.Index.Search.{search}
use dattaniddhi.Index.Search.Best.{SortedBy, Library, Best, search-Best}

before_or_not : {A : Type 0} (cmp : A → A → Ordering) (a b : A) → (cmp a b ≡ lt) ⊎ (cmp a b ≢ lt)
before_or_not cmp a b = go (cmp a b) refl
  where
    go : (o : Ordering) → cmp a b ≡ o → (cmp a b ≡ lt) ⊎ (cmp a b ≢ lt)
    go lt h = inl h
    go eq h = inr (λ k. let clash = sym h ∙ k in cc)
    go gt h = inr (λ k. let clash = sym h ∙ k in cc)

-- Arithmetic on natural numbers in the place of floats.
abbrev pub naturals : Floats
naturals = record {
  Float64 = ℕ;
  widen = λ v. v;
  zero64 = 0;
  add = λ a b. a + b;
  subtract = λ a b. a;
  multiply = λ a b. a * b;
  negate = λ a. a;
  sqrt = λ a. a;
  epsilon = 1;
  less = ltb;
  compare = compare;
  divide32 = λ v m. v;
}

module _ {A : Type 0} (cmp : A → A → Ordering) where
  abbrev pub insert_result : A → List A → List A
  insert_result r [] = r ∷ []
  insert_result r (s ∷ ss) =
      let rest = insert_result r ss in
      elim (cmp s r) [ lt ↦ s ∷ rest | eq ↦ r ∷ (s ∷ ss) | gt ↦ r ∷ (s ∷ ss) ]

  abbrev pub insertion_sort : List A → List A
  insertion_sort [] = []
  insertion_sort (r ∷ rs) = insert_result r (insertion_sort rs)

  insert_result-Perm : (r : A) (ss : List A) → Permᴰ (r ∷ ss) (insert_result r ss)
  insert_result-Perm r [] = Permᴰ.refl (r ∷ [])
  insert_result-Perm r (s ∷ ss) = elim (before_or_not cmp s r) [
    | inl before ↦
        subst (Permᴰ (r ∷ (s ∷ ss))) (ground arith)
          (Permᴰ.trans (Permᴰ.swap refl refl) (Permᴰ.cons refl (insert_result-Perm r ss)))
    | inr behind ↦ subst (Permᴰ (r ∷ (s ∷ ss))) (ground arith) (Permᴰ.refl (r ∷ (s ∷ ss)))
  ]

  insertion_sort-Perm : (rs : List A) → Permᴰ rs (insertion_sort rs)
  insertion_sort-Perm [] = Permᴰ.nil
  insertion_sort-Perm (r ∷ rs) =
      Permᴰ.trans (Permᴰ.cons refl (insertion_sort-Perm rs))
        (insert_result-Perm r (insertion_sort rs))

  -- Nothing in the list is to stand before `a`.
  abbrev Behind : A → List A → Type 0
  Behind a rs = All (λ s. cmp s a ≢ lt) rs

  module _ (order : IsWeakOrder cmp) where
    Behind-trans : (a b : A) (rs : List A) → cmp b a ≢ lt → Behind b rs → Behind a rs
    Behind-trans a b [] h k = tt
    Behind-trans a b (r ∷ rs) h k = (order.not_below a b r h k.0, Behind-trans a b rs h k.1)

    Behind-insert_result :
        (a r : A) (ss : List A) → cmp r a ≢ lt → Behind a ss → Behind a (insert_result r ss)
    Behind-insert_result a r [] h k = (h, tt)
    Behind-insert_result a r (s ∷ ss) h k = elim (before_or_not cmp s r) [
      | inl before ↦
          subst (Behind a) {x = s ∷ insert_result r ss} (ground arith)
            (k.0, Behind-insert_result a r ss h k.1)
      | inr behind ↦ subst (Behind a) {x = r ∷ (s ∷ ss)} (ground arith) (h, k)
    ]

    not_before : (r s : A) → cmp s r ≡ lt → cmp r s ≢ lt
    not_before r s h = let flipped = order.flips_lt s r h in grind arith

    insert_result-SortedBy :
        (r : A) (ss : List A) → SortedBy cmp ss → SortedBy cmp (insert_result r ss)
    insert_result-SortedBy r [] h = (tt, tt)
    insert_result-SortedBy r (s ∷ ss) h = elim (before_or_not cmp s r) [
      | inl before ↦
          subst (SortedBy cmp) {x = s ∷ insert_result r ss} (ground arith) (
            Behind-insert_result s r ss (not_before r s before) h.0,
            insert_result-SortedBy r ss h.1,
          )
      | inr behind ↦
          subst (SortedBy cmp) {x = r ∷ (s ∷ ss)} (ground arith)
            ((behind, Behind-trans r s ss behind h.0), h)
    ]

    insertion_sort-SortedBy : (rs : List A) → SortedBy cmp (insertion_sort rs)
    insertion_sort-SortedBy [] = tt
    insertion_sort-SortedBy (r ∷ rs) =
        insert_result-SortedBy r (insertion_sort rs) (insertion_sort-SortedBy rs)

naturals-CompareLaws : CompareLaws naturals
naturals-CompareLaws = record {
  compare_order = record {
    same = λ a. ground arith;
    flips_lt = λ a b h. ground arith;
    flips_gt = λ a b h. ground arith;
    not_below = λ a b c h k. ground arith;
  };
  compare_less = λ a b h. ground arith;
}

pub library : Library naturals (λ m. m) insertion_sort
library = record {
  order_perm = Permᴰ.refl;
  sort_perm = insertion_sort-Perm;
  sort_sorts = insertion_sort-SortedBy;
  compare_laws = naturals-CompareLaws;
}

abbrev three : LinearIndex
three = record {
  vectors =
      (1, record { values = 2 ∷ []; dimensions = 1 })
      ∷ ((2, record { values = 5 ∷ []; dimensions = 1 })
          ∷ ((3, record { values = 3 ∷ []; dimensions = 1 }) ∷ []));
  config = record { index_type = linear_index; metric = metric_dot; dimension = 1 };
}

abbrev query : Vector
query = record { values = 1 ∷ []; dimensions = 1 }

search-Best_example :
    Best naturals
      (λ m. m)
      insertion_sort
      three
      query
      2
      (search naturals (λ m. m) insertion_sort three (some query) 2)
search-Best_example =
    search-Best naturals (λ m. m) insertion_sort library three query 2 refl
      (refl, (refl, (refl, tt))) refl refl (omega arith) (omega arith) (omega arith) (omega arith)

one_dimension : new_linear_index three.config ≡ ok (record { vectors = []; config = three.config })
unfolding new_linear_index validate
one_dimension = refl

linear_vector_index-IsIndex_example :
    IsIndex naturals
      (linear_vector_index naturals (λ m. m) insertion_sort)
      (record { vectors = []; config = three.config })
      1
linear_vector_index-IsIndex_example =
    linear_vector_index-IsIndex naturals (λ m. m) insertion_sort three.config
      (record { vectors = []; config = three.config }) one_dimension
