-- ===== src/Idempotency/Table.antt =====
-- The document table of operations, and the order in which `prune` lists it.
use agentdock_mcp_harness.Base.{
  String, Bool, true, false, ◌≡◌, refl, Option, some, List, [], ◌∷◌, arith, ok, All, any, keep,
  same, trim, Bool-cases, inl, inr,
}
use agentdock_mcp_harness.Store.{Row, is_row, select_value, safe_document_part, delete_rows}
use agentdock_mcp_harness.Idempotency.{Operation}
use agentdock_mcp_harness.Idempotency.Prune.{status_terminal, sort, insert_sorted}

-- The primary key of the table, and identifiers that are stored as they are.
abbrev pub IsTable : List (Row (Option Operation)) → Type 0
IsTable [] = Unit
IsTable (row ∷ rows) =
    (any (is_row row.kind row.id) rows ≡ false)
    × (safe_document_part row.id ≡ ok row.id)
    × IsTable rows

abbrev pub is_operation : Row (Option Operation) → Bool
is_operation row = same row.kind "operation"

module _ {A : Type 0} (P : A → Type 0) where
  All-insert_sorted :
      (before : A → A → Bool) (x : A) (xs : List A)
      → P x
      → All P xs
      → All P (insert_sorted before x xs)
  unfolding insert_sorted
  All-insert_sorted before x [] p h = (p, tt)
  All-insert_sorted before x (y ∷ ys) p h = ground (arith, All-insert_sorted before x ys p h.1)

  pub All-sort :
      (before : A → A → Bool) (sorted xs : List A)
      → All P sorted
      → All P xs
      → All P (sort before sorted xs)
  unfolding sort
  All-sort before sorted [] s h = s
  All-sort before sorted (x ∷ xs) s h =
      All-sort before (insert_sorted before x sorted) xs (All-insert_sorted before x sorted h.0 s)
        h.1

pub operation_kind : safe_document_part "operation" ≡ ok "operation"
unfolding safe_document_part trim
operation_kind = refl

-- A deletion of the document does not concern the identifier.
abbrev pub Other : String → Row (Option Operation) → Type 0
Other id row = (safe_document_part row.id ≡ ok row.id) × (same row.id id ≡ false)

abbrev pub Spared : String → Row (Option Operation) → Type 0
Spared id row = (status_terminal row.value ≡ true) → Other id row

any-delete_rows :
    (k i k' i' : String) (rows : List (Row (Option Operation)))
    → any (is_row k' i') rows ≡ false
    → any (is_row k' i') (delete_rows k i rows) ≡ false
unfolding delete_rows
any-delete_rows k i k' i' [] h = refl
any-delete_rows k i k' i' (row ∷ rows) h = ground (arith, any-delete_rows k i k' i' rows)

pub IsTable-delete_rows :
    (k i : String) (rows : List (Row (Option Operation)))
    → IsTable rows
    → IsTable (delete_rows k i rows)
unfolding delete_rows
IsTable-delete_rows k i [] t = tt
IsTable-delete_rows k i (row ∷ rows) t =
    ground (arith, IsTable-delete_rows k i rows t.2, any-delete_rows k i row.kind row.id rows t.0)

listed_others :
    (id : String) (rows : List (Row (Option Operation)))
    → IsTable rows
    → any (is_row "operation" id) rows ≡ false
    → All (Spared id) (keep is_operation rows)
listed_others id [] t h = tt
listed_others id (row ∷ rows) t h = ground (arith, listed_others id rows t.2)

pub table-Spared :
    (id : String) (v : Option Operation) (rows : List (Row (Option Operation)))
    → IsTable rows
    → select_value "operation" id rows ≡ some v
    → status_terminal v ≡ false
    → All (Spared id) (keep is_operation rows)
unfolding select_value
table-Spared id v [] t h f = tt
table-Spared id v (row ∷ rows) t h f = elim (Bool-cases (is_row "operation" id row)) [
  | inl hit ↦ ground (arith, listed_others id rows t.2)
  | inr miss ↦ ground (arith, table-Spared id v rows t.2)
]
