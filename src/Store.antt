-- ===== src/Store.antt =====
-- state-store.js with the sqlite backend: the table `state_documents` and its document operations.
-- A row holds a parsed JSON value of type `V`; the copies by `cloneJson` are the values themselves.
-- `DOCUMENT_PART_PATTERN` is tested on the characters of the trimmed text.
pub mod Laws
pub mod Transactions
mod Examples
use Prim.Native.Char.{code}
use agentdock_mcp_harness.Base.{
  ℕ, ◌+◌, String, Bool, true, false, ◌&&◌, ◌||◌, Option, none, some, List, [], ◌∷◌, ◌++◌, map, ltb,
  leb, ◌==◌, if◌then◌else◌, same, is_some, or_else, keep, find, trim, truthy, Result, ok, err, Code,
  type_error, invalid_state_document_key, invalid_state_mutation, state_store_closed,
  transaction_open, ◌>>=◌, ◌>>◌, guard,
}

-- A row of `state_documents`; its primary key is (kind, id).
pub record Row {ℓ} (V : Type ℓ) : Type ℓ where
  pub kind : String
  pub id : String
  pub value : V
  pub revision : ℕ
  pub updated_at : ℕ

-- The connection: the rows that it sees and, inside a transaction, the rows at its `BEGIN`.
pub record Db {ℓ} (V : Type ℓ) : Type ℓ where
  pub rows : List (Row V)
  pub saved : Option (List (Row V))
  pub closed : Bool

document_char : ℕ → Bool
document_char c =
    (leb b'A' c && leb c b'Z')
    || (leb b'a' c && leb c b'z')
    || (leb b'0' c && leb c b'9')
    || c == b'.'
    || c == b'_'
    || c == b'-'

document_chars : String → Bool
document_chars String.[] = true
document_chars (String.◌∷◌ c s) = document_char (code c) && document_chars s

-- `safeDocumentPart`
unfoldable pub safe_document_part : String → Result String
unfolding document_char document_chars trim
safe_document_part value =
    let normalized = trim value in
    do
      guard (truthy normalized && document_chars normalized) invalid_state_document_key
      ok normalized

module _ {ℓ} {V : Type ℓ} where
  -- `#assertOpen`
  abbrev pub assert_open : Db V → Result (Unit {0})
  assert_open db = if db.closed then err state_store_closed else ok tt

  -- `WHERE kind = ? AND id = ?`
  abbrev pub is_row : String → String → Row V → Bool
  is_row kind id row = same row.kind kind && same row.id id

  abbrev value_of : Option (Row V) → Option V
  value_of none = none
  value_of (some row) = some row.value

  abbrev pub new_row : String → String → V → ℕ → Row V
  new_row kind id value now = record {
    kind = kind;
    id = id;
    value = value;
    revision = 1;
    updated_at = now;
  }

  -- `SELECT value_json FROM state_documents WHERE kind = ? AND id = ?`
  unfoldable pub select_value : String → String → List (Row V) → Option V
  select_value kind id [] = none
  select_value kind id (row ∷ rows) =
      if is_row kind id row then some row.value else select_value kind id rows

  -- `INSERT … ON CONFLICT(kind, id) DO UPDATE SET …, revision = revision + 1`
  unfoldable pub upsert : String → String → V → ℕ → List (Row V) → List (Row V)
  upsert kind id value now [] = new_row kind id value now ∷ []
  upsert kind id value now (row ∷ rows) =
      if is_row kind id row
      then record row { value = value; revision = row.revision + 1; updated_at = now } ∷ rows
      else row ∷ upsert kind id value now rows

  -- `DELETE FROM state_documents WHERE kind = ? AND id = ?`
  unfoldable pub delete_rows : String → String → List (Row V) → List (Row V)
  delete_rows kind id [] = []
  delete_rows kind id (row ∷ rows) =
      let rest = delete_rows kind id rows in if is_row kind id row then rest else row ∷ rest

  -- `loadDocument`
  unfoldable pub load_document : String → String → Db V → Result (Option V)
  unfolding select_value
  load_document kind id db = do
    assert_open db
    safe_kind ← safe_document_part kind
    safe_id ← safe_document_part id
    ok (select_value safe_kind safe_id db.rows)

  -- `saveDocument`, at the time `now`
  unfoldable pub save_document : String → String → V → ℕ → Db V → Result (Db V)
  unfolding upsert
  save_document kind id value now db = do
    assert_open db
    safe_kind ← safe_document_part kind
    safe_id ← safe_document_part id
    ok (record db { rows = upsert safe_kind safe_id value now db.rows })

  -- `deleteDocument`
  unfoldable pub delete_document : String → String → Db V → Result (Db V)
  unfolding delete_rows
  delete_document kind id db = do
    assert_open db
    safe_kind ← safe_document_part kind
    safe_id ← safe_document_part id
    ok (record db { rows = delete_rows safe_kind safe_id db.rows })

  -- `BEGIN IMMEDIATE`: SQLite refuses a transaction inside another.
  abbrev begin : Db V → Result (Db V)
  begin db =
      if is_some db.saved then err transaction_open else ok (record db { saved = some db.rows })

  -- `COMMIT`
  abbrev commit : Db V → Db V
  commit db = record db { saved = none }

  -- `ROLLBACK`: the rows at `BEGIN` come back.
  abbrev rollback : Db V → Db V
  rollback db = record db { rows = or_else db.saved db.rows; saved = none }

  open_keys : String → String → Db V → Result (String × String)
  open_keys kind id db = do
    assert_open db
    safe_kind ← safe_document_part kind
    safe_id ← safe_document_part id
    ok (safe_kind, safe_id)

-- What the steps of a mutation throw once the mutator has returned, and nothing for a step that succeeds:
-- `JSON.stringify` with the test of its result, the INSERT, and COMMIT. An INSERT that throws has changed no row, and
-- a COMMIT that throws leaves the transaction open.
pub record Failures : Type 0 where
  pub of_stringify : Option Code
  pub of_insert : Option Code
  pub of_commit : Option Code

abbrev pub no_failures : Failures
no_failures = record { of_stringify = none; of_insert = none; of_commit = none }

module _ {ℓ κ} {V : Type ℓ} {A : Type κ} where
  -- The end of the `try` block of `mutateDocument` after the INSERT: it commits, or rolls back and rethrows.
  commit_mutation : Option Code → V × A → Db V → Db V × Result (V × A)
  commit_mutation none result db = (commit db, ok result)
  commit_mutation (some c) result db = (rollback db, err c)

  insert_value : Failures → String → String → ℕ → V × A → Db V → Option Code → Db V × Result (V × A)
  unfolding upsert commit_mutation
  insert_value failures kind id now (next, a) db none =
      commit_mutation failures.of_commit (next, a)
        (record db { rows = upsert kind id next now db.rows })
  insert_value failures kind id now (next, a) db (some c) = (rollback db, err c)

  write_value : Failures → String → String → ℕ → V × A → Db V → Option Code → Db V × Result (V × A)
  unfolding insert_value
  write_value failures kind id now result db none =
      insert_value failures kind id now result db failures.of_insert
  write_value failures kind id now result db (some c) = (rollback db, err c)

  -- What the `try` block does with what the mutator returned or threw. What a mutator assigns to a captured variable
  -- is returned beside the value, as an `A`.
  finish_mutation : Failures → String → String → ℕ → Db V → Result (V × A) → Db V × Result (V × A)
  unfolding write_value
  finish_mutation failures kind id now db (ok result) =
      write_value failures kind id now result db failures.of_stringify
  finish_mutation failures kind id now db (err c) = (rollback db, err c)

  run_mutation :
      Failures
      → String
      → String
      → (Option V → Result (V × A))
      → ℕ
      → Result (Db V)
      → Db V
      → Db V × Result (V × A)
  unfolding finish_mutation select_value
  run_mutation failures kind id mutator now (ok begun) db =
      finish_mutation failures kind id now begun (mutator (select_value kind id begun.rows))
  run_mutation failures kind id mutator now (err c) db = (db, err c)

  with_keys :
      Failures
      → (Option V → Result (V × A))
      → ℕ
      → Db V
      → Result (String × String)
      → Db V × Result (V × A)
  unfolding run_mutation
  with_keys failures mutator now db (ok (kind, id)) =
      run_mutation failures kind id mutator now (begin db) db
  with_keys failures mutator now db (err c) = (db, err c)

  -- `mutateDocument` with the default `null`. The state comes back beside a thrown error too.
  unfoldable pub mutate_document_with :
      Failures → String → String → (Option V → Result (V × A)) → ℕ → Db V → Db V × Result (V × A)
  unfolding open_keys with_keys
  mutate_document_with failures kind id mutator now db =
      with_keys failures mutator now db (open_keys kind id db)

  -- `mutateDocument` as the services are modelled to call it: its own steps succeed.
  unfoldable pub mutate_document :
      String → String → (Option V → Result (V × A)) → ℕ → Db V → Db V × Result (V × A)
  unfolding mutate_document_with
  mutate_document kind id mutator now db = mutate_document_with no_failures kind id mutator now db
