-- ===== src/Registry/Sorting.antt =====
-- The order in which `list_contracts` returns the entries.
use open_social_protocol.Prelude.{
  ℕ, ◌+◌, Bool, true, false, ◌≡◌, refl, [], ◌∷◌, All, arith, if◌then◌else◌,
}
use open_social_protocol.Chain.{Bytes}
use open_social_protocol.Chain.Util.{Sign, less, same, greater, compare}
use open_social_protocol.Chain.Util.Compare.{compare-swap, compare_trans, eq_of_compare}
use open_social_protocol.Registry.State.{ContractEntry}
use open_social_protocol.Registry.Listing.{Rows, insert_row, insert_all}

abbrev pub at_most : Sign → Bool
at_most less = true
at_most same = true
at_most greater = false

-- From the last row to the first, each key is at least every key after it.
abbrev pub IsDescending : Rows → Type 0
IsDescending [] = Unit
IsDescending (r ∷ rest) = All (λ q. at_most (compare q.0 r.0) ≡ true) rest × IsDescending rest

-- How many rows pass the test.
unfoldable pub occurrences : (Bytes × ContractEntry → Bool) → Rows → ℕ
occurrences test [] = 0
occurrences test (r ∷ rest) = let n = occurrences test rest in if test r then 1 + n else n

at_most_trans :
    (a b c : Bytes)
    → at_most (compare a b) ≡ true
    → at_most (compare b c) ≡ true
    → at_most (compare a c) ≡ true
at_most_trans a b c h k = ground (arith, compare_trans a b c, eq_of_compare a b, eq_of_compare b c)

All-trans :
    (a b : Bytes) (rows : Rows)
    → at_most (compare a b) ≡ true
    → All (λ q. at_most (compare q.0 a) ≡ true) rows
    → All (λ q. at_most (compare q.0 b) ≡ true) rows
All-trans a b [] h v = tt
All-trans a b (r ∷ rest) h v = (at_most_trans r.0 a b v.0 h, All-trans a b rest h v.1)

All-insert_row :
    (b : Bytes) (row : Bytes × ContractEntry) (rows : Rows)
    → at_most (compare row.0 b) ≡ true
    → All (λ q. at_most (compare q.0 b) ≡ true) rows
    → All (λ q. at_most (compare q.0 b) ≡ true) (insert_row row rows)
unfolding insert_row
All-insert_row b row [] h v = (h, tt)
All-insert_row b row (r ∷ rest) h v = ground (arith, All-insert_row b row rest)

insert_row-IsDescending :
    (row : Bytes × ContractEntry) (rows : Rows)
    → IsDescending rows
    → IsDescending (insert_row row rows)
unfolding insert_row
insert_row-IsDescending row [] v = (tt, tt)
insert_row-IsDescending row (r ∷ rest) v = ground (
  arith,
  insert_row-IsDescending row rest,
  All-insert_row r.0 row rest,
  All-trans r.0 row.0 rest,
  compare-swap r.0 row.0,
  compare-swap row.0 r.0,
)

insert_row-occurrences :
    (k : Bytes × ContractEntry → Bool) (row : Bytes × ContractEntry) (rows : Rows)
    → occurrences k (insert_row row rows) ≡ occurrences k (row ∷ rows)
unfolding insert_row occurrences
insert_row-occurrences k row [] = refl
insert_row-occurrences k row (r ∷ rest) = ground (arith, insert_row-occurrences k row rest)

-- Inserting rows one after another into a list that descends by key gives a list that descends by
-- key and has, for every test of a row, as many rows that pass it as the two lists together.
pub insert_all-IsDescending :
    (sorted objs : Rows)
    → IsDescending sorted
    → IsDescending (insert_all sorted objs)
      × ((k : Bytes × ContractEntry → Bool)
          → occurrences k (insert_all sorted objs) ≡ occurrences k sorted + occurrences k objs)
unfolding insert_all occurrences
insert_all-IsDescending sorted [] v = (v, λ k. omega arith)
insert_all-IsDescending sorted (row ∷ objs) v =
    let (d, o) =
      insert_all-IsDescending (insert_row row sorted) objs (insert_row-IsDescending row sorted v) in
    (d, λ k. counts k (o k) (insert_row-occurrences k row sorted))
  where
    counts :
        (k : Bytes × ContractEntry → Bool)
        → occurrences k (insert_all (insert_row row sorted) objs)
          ≡ occurrences k (insert_row row sorted) + occurrences k objs
        → occurrences k (insert_row row sorted) ≡ occurrences k (row ∷ sorted)
        → occurrences k (insert_all (insert_row row sorted) objs)
          ≡ occurrences k sorted + occurrences k (row ∷ objs)
    counts k e f = ground arith
