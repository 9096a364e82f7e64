-- ===== src/Store/Laws.antt =====
-- Reads of the document table after a write.
use agentdock_mcp_harness.Base.{
  ℕ, ◌+◌, String, ◌≡◌, none, some, List, [], ◌∷◌, ◌&&◌, arith, if◌then◌else◌, same,
}
use agentdock_mcp_harness.Store.{Row, select_value, upsert, delete_rows, is_row}

module _ {ℓ} {V : Type ℓ} where
  -- The revision of a document, 0 if there is none.
  abbrev pub revision_of : String → String → List (Row V) → ℕ
  revision_of kind id [] = 0
  revision_of kind id (row ∷ rows) =
      if is_row kind id row then row.revision else revision_of kind id rows

  pub select_value-upsert :
      (k i k' i' : String) (v : V) (now : ℕ) (rows : List (Row V))
      → select_value k' i' (upsert k i v now rows)
        ≡ (if same k k' && same i i' then some v else select_value k' i' rows)
  unfolding select_value upsert
  select_value-upsert k i k' i' v now [] = ground arith
  select_value-upsert k i k' i' v now (row ∷ rows) =
      ground (arith, select_value-upsert k i k' i' v now rows)

  pub select_value-delete_rows :
      (k i k' i' : String) (rows : List (Row V))
      → select_value k' i' (delete_rows k i rows)
        ≡ (if same k k' && same i i' then none else select_value k' i' rows)
  unfolding select_value delete_rows
  select_value-delete_rows k i k' i' [] = ground arith
  select_value-delete_rows k i k' i' (row ∷ rows) =
      ground (arith, select_value-delete_rows k i k' i' rows)

  pub revision_of-upsert :
      (k i : String) (v : V) (now : ℕ) (rows : List (Row V))
      → revision_of k i (upsert k i v now rows) ≡ revision_of k i rows + 1
  unfolding upsert
  revision_of-upsert k i v now [] = ground arith
  revision_of-upsert k i v now (row ∷ rows) = ground (arith, revision_of-upsert k i v now rows)
