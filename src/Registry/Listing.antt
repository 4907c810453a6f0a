-- ===== src/Registry/Listing.antt =====
-- The insertion sort of `list_contracts`, by the raw bytes of the names.
use open_social_protocol.Prelude.{List, [], ◌∷◌, map}
use mathlib.Core.List.{reverse}
use open_social_protocol.Chain.{Bytes}
use open_social_protocol.Chain.Util.{Sign, less, same, greater, compare}
use open_social_protocol.Registry.State.{ContractEntry}

-- The arrays `keys` and `values` as one list of pairs, the last pair first.
abbrev pub Rows : Type 0
Rows = List (Bytes × ContractEntry)

-- One turn of the `while` loop: the pair at `j - 1` moves up past the new one if its key is greater.
abbrev pub place : Sign → Bytes × ContractEntry → Bytes × ContractEntry → Rows → Rows → Rows
place greater row r rest moved = r ∷ moved
place less row r rest moved = row ∷ r ∷ rest
place same row r rest moved = row ∷ r ∷ rest

unfoldable pub insert_row : Bytes × ContractEntry → Rows → Rows
insert_row row [] = row ∷ []
insert_row row (r ∷ rest) = place (compare r.0 row.0) row r rest (insert_row row rest)

-- The `for` loop over what `getMany` returned, from the arrays that it has built so far.
unfoldable pub insert_all : Rows → Rows → Rows
insert_all sorted [] = sorted
insert_all sorted (row ∷ objs) = insert_all (insert_row row sorted) objs

-- Registry.list_contracts, on the entries that `getMany` returns.
unfoldable pub list_contracts : Rows → List ContractEntry
list_contracts objs = map (λ r. r.1) (reverse (insert_all [] objs))
