-- ===== src/Lsm/Merge/Merged.antt =====
-- The loop ends within the fuel, and what it adds has rising keys and the newest values.
use amind.Prelude.{
  ℕ, zero, suc, ◌≤◌, ◌<◌, ◌≡◌, refl, ap, sym, ◌∙◌, true, false, ◌||◌, Option, none, some, List, [],
  ◌∷◌, arith, ◌==◌, length, Bool-cases, Option-cases, inl, inr,
}
use amind.Prelude.Map
use amind.Prelude.Ids.{is_empty}
use amind.Lsm.Entries.{Entry, Ascending, AllAbove, AllAbove-le, find-above}
use amind.Lsm.SsTable.Cursor.{Cursor}
use amind.Lsm.Merge.{min_key, pop, is_duplicate, merge_loop}
use amind.Lsm.Merge.Newest.{
  newest, live, total, AllSound, HeapFrom, min_key-none, min_key-HeapFrom, HeapFrom-min_key,
  pop-newest, pop-others, pop-AllSound, pop-HeapFrom, pop-total,
}

abbrev pub HeapFromPrev : Option ℕ → List Cursor → Type 0
HeapFromPrev none heap = Unit {0}
HeapFromPrev (some p) heap = HeapFrom p heap

abbrev pub AbovePrev : Option ℕ → List Entry → Type 0
AbovePrev none es = Unit {0}
AbovePrev (some p) es = AllAbove p es

-- The entries `es` are what is left to merge after the key `prev_key`.
pub record IsMerged (prev_key : Option ℕ) (heap : List Cursor) (es : List Entry) : Type 0 where
  pub rising : Ascending es
  pub above : AbovePrev prev_key es
  pub bounded : length es ≤ total heap
  pub finds :
      (key : ℕ) → is_duplicate prev_key key ≡ false → Map.find key es ≡ live (newest key heap)

module _ (prev_key : Option ℕ) (heap : List Cursor) (m : ℕ) (es : List Entry) where
  skipped :
      AllSound heap
      → HeapFromPrev prev_key heap
      → min_key heap ≡ some m
      → (is_duplicate prev_key m || is_empty (pop m heap).0) ≡ true
      → IsMerged (some m) (pop m heap).1 es
      → IsMerged prev_key heap es
  skipped s f e skip i = record {
    rising = i.rising;
    above = above_lem prev_key f;
    bounded = omega (arith, i.bounded, pop-total heap m s e);
    finds = λ key d. elim (Bool-cases (m == key)) [
      | inl same ↦
          find-above key m es (ground (arith, same)) i.above
          ∙ sym (empty_lem key d (ground (arith, same)) (pop m heap).0 refl)
      | inr other ↦
          i.finds key (ground (arith, other))
          ∙ ap live (pop-others heap m key s (ground (arith, other)))
    ];
  }
    where
      above_lem : (prev : Option ℕ) → HeapFromPrev prev heap → AbovePrev prev es
      above_lem none f = tt
      above_lem (some p) f = AllAbove-le p m es (HeapFrom-min_key heap p m f e) i.above

      empty_lem :
          (key : ℕ)
          → is_duplicate prev_key key ≡ false
          → m ≡ key
          → (v : List ℕ) → (pop m heap).0 ≡ v
          → live (newest key heap) ≡ none
      empty_lem key d same [] got = ap live (
          ap (λ (k : ℕ). newest k heap) (sym same)
          ∙ pop-newest heap m s (min_key-HeapFrom heap m s e) e
          ∙ ap some got)
      empty_lem key d same (b ∷ v) got =
          absurd (ground (arith, skip, d, ap (is_duplicate prev_key) same, ap is_empty got))

  emitted :
      AllSound heap
      → HeapFromPrev prev_key heap
      → min_key heap ≡ some m
      → (is_duplicate prev_key m || is_empty (pop m heap).0) ≡ false
      → IsMerged (some m) (pop m heap).1 es
      → IsMerged prev_key heap ((m, (pop m heap).0) ∷ es)
  unfolding Map.find
  emitted s f e skip i = record {
    rising = (i.above, i.rising);
    above = above_lem prev_key f skip;
    bounded = omega (arith, i.bounded, pop-total heap m s e);
    finds = λ key d. elim (Bool-cases (m == key)) [
      | inl same ↦ rw same (sym (full_lem key (ground (arith, same)) (pop m heap).0 refl))
      | inr other ↦ rw other (
          i.finds key (ground (arith, other))
          ∙ ap live (pop-others heap m key s (ground (arith, other))))
    ];
  }
    where
      above_lem :
          (prev : Option ℕ)
          → HeapFromPrev prev heap
          → (is_duplicate prev m || is_empty (pop m heap).0) ≡ false
          → AbovePrev prev ((m, (pop m heap).0) ∷ es)
      above_lem none f d = tt
      above_lem (some p) f d =
          let h = HeapFrom-min_key heap p m f e in
          (ground (arith, h, d), AllAbove-le p m es h i.above)

      full_lem :
          (key : ℕ) → m ≡ key → (v : List ℕ) → (pop m heap).0 ≡ v → live (newest key heap) ≡ some v
      full_lem key same [] got = absurd (ground (arith, skip, ap is_empty got))
      full_lem key same (b ∷ v) got = ap live (
          ap (λ (k : ℕ). newest k heap) (sym same)
          ∙ pop-newest heap m s (min_key-HeapFrom heap m s e) e
          ∙ ap some got)

-- With more fuel than the cursors have entries left the loop ends, and the entries that it adds
-- have rising keys above the last key, and for every other key the value of the newest table that
-- has the key, unless this value is empty.
pub merge_loop-IsMerged :
    (fuel : ℕ) (heap : List Cursor) (prev_key : Option ℕ)
    → AllSound heap
    → HeapFromPrev prev_key heap
    → total heap < fuel
    → (es : List Entry) × (merge_loop fuel heap prev_key ≡ some es) × IsMerged prev_key heap es
unfolding merge_loop Map.find
merge_loop-IsMerged zero heap prev_key s f h = absurd (omega arith)
merge_loop-IsMerged (suc fuel) heap prev_key s f h = elim (Option-cases (min_key heap)) [
  | inl done ↦ (
    [],
    rw (done, merge_loop) refl,
    record {
      rising = tt;
      above = nothing_above prev_key;
      bounded = omega arith;
      finds = λ key d. ap live (sym (min_key-none heap key done));
    },
  )
  | inr (m, least) ↦
      let (es, e, i) =
        merge_loop-IsMerged fuel (pop m heap).1 (some m) (pop-AllSound heap m s)
          (pop-HeapFrom heap m s (min_key-HeapFrom heap m s least))
          (omega (arith, pop-total heap m s least)) in
      elim (Bool-cases (is_duplicate prev_key m || is_empty (pop m heap).0)) [
        | inl skip ↦
            (es, rw (least, e, skip, merge_loop) refl, skipped prev_key heap m es s f least skip i)
        | inr keep ↦ (
          (m, (pop m heap).0) ∷ es,
          rw (least, e, keep, merge_loop) refl,
          emitted prev_key heap m es s f least keep i,
        )
      ]
]
  where
    nothing_above : (prev : Option ℕ) → AbovePrev prev []
    nothing_above none = tt
    nothing_above (some p) = tt
