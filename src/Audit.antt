-- ===== src/Audit.antt =====
-- audit-service.js: the bounded log of a Task. An entry is its number, its time and a body `B`, the
-- fields of the caller, which name none of the service's own; `redactObject` is the argument `redact`.
pub mod Window
pub mod Pages
mod Examples
use agentdock_mcp_harness.Base.{
  ℕ, ◌+◌, ◌-◌, String, Bool, true, false, ◌&&◌, Option, none, some, List, [], ◌∷◌, ◌++◌, ltb,
  if◌then◌else◌, length, drop, take, keep, last?, or_else, Result, ok, err, ◌>>=◌,
}
use agentdock_mcp_harness.Store.{Db, load_document, mutate_document}

module _ (B : Type 0) where
  pub record Entry : Type 0 where
    pub sequence : ℕ
    pub timestamp : ℕ
    pub body : B

  pub record AuditLog : Type 0 where
    pub next_sequence : ℕ
    pub entries : List Entry

  -- What `get` returns.
  pub record Page : Type 0 where
    pub after_sequence : ℕ
    pub entries : List Entry
    pub next_sequence : ℕ
    pub has_more : Bool
    pub retained_from_sequence : ℕ
    pub truncated_before_sequence : Bool

module _ {B : Type 0} where
  -- state-store.js: the log of a Task that has none.
  abbrev pub initial_log : AuditLog B
  initial_log = record { next_sequence = 1; entries = [] }

  abbrev pub new_entry : (B → B) → ℕ → ℕ → B → Entry B
  new_entry redact sequence now body = record {
    sequence = sequence;
    timestamp = now;
    body = redact body;
  }

  -- `entries.splice(0, entries.length - max)` where there are more than the maximum.
  abbrev pub cut : ℕ → List (Entry B) → List (Entry B)
  cut max entries =
      if ltb max (length entries) then drop (length entries - max) entries else entries

  -- The mutator of `append`, with the entry that it assigns to `appended`.
  unfoldable pub append_log : (B → B) → ℕ → ℕ → B → AuditLog B → AuditLog B × Entry B
  append_log redact max now body log =
      let appended = new_entry redact log.next_sequence now body in
      (
        record {
          next_sequence = log.next_sequence + 1;
          entries = cut max (log.entries ++ appended ∷ []);
        },
        appended,
      )

  -- `append`
  unfoldable pub append :
      (B → B)
      → ℕ
      → String
      → ℕ
      → B
      → Db (AuditLog B)
      → Db (AuditLog B) × Result (AuditLog B × Entry B)
  append redact max task_id now body db =
      mutate_document "audit" task_id
        (λ stored. ok (append_log redact max now body (or_else stored initial_log))) now db

  -- `entries.filter((entry) => entry.sequence > afterSequence)`
  abbrev pub later : ℕ → List (Entry B) → List (Entry B)
  later after = keep (λ entry. ltb after entry.sequence)

  abbrev first_sequence : ℕ → List (Entry B) → ℕ
  first_sequence next [] = next
  first_sequence next (entry ∷ _) = entry.sequence

  abbrev pub resume_at : ℕ → Option (Entry B) → ℕ
  resume_at next none = next
  resume_at next (some entry) = entry.sequence + 1

  -- `get`, on the log that was loaded.
  unfoldable pub page_of : ℕ → ℕ → AuditLog B → Page B
  page_of after limit log =
      let found = later after log.entries in
      let shown = take limit found in
      let oldest = first_sequence log.next_sequence log.entries in
      record {
        after_sequence = after;
        entries = shown;
        next_sequence = resume_at log.next_sequence (last? shown);
        has_more = ltb (length shown) (length found);
        retained_from_sequence = oldest;
        truncated_before_sequence = ltb 1 oldest && ltb after (oldest - 1);
      }

  -- `get`
  unfoldable pub get_page : String → ℕ → ℕ → Db (AuditLog B) → Result (Page B)
  get_page task_id after limit db = do
    stored ← load_document "audit" task_id db
    ok (page_of after limit (or_else stored initial_log))
