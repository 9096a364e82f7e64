-- ===== src/Task/Evidence/Newest.antt =====
-- completion-evidence.js: the record of a kind that `latest` finds.
use mathlib.Core.List.{reverse-append, reverse-reverse, reverse-cons, append_assoc}
use agentdock_mcp_harness.Base.{
  Bool, true, false, ◌≡◌, ap, ◌∙◌, sym, some, List, [], ◌∷◌, ◌++◌, reverse, arith, find, All,
  All-append, Bool-cases, inl, inr,
}
use agentdock_mcp_harness.Task.{EvidenceKind, EvidenceRecord}
use agentdock_mcp_harness.Task.Evidence.{latest, same_kind}

-- `r` is of the kind, and no record after it is.
pub record Newest (kind : EvidenceKind) (records : List EvidenceRecord) (r : EvidenceRecord)
    : Type 0 where
  pub before : List EvidenceRecord
  pub after : List EvidenceRecord
  pub at : records ≡ before ++ r ∷ after
  pub of_kind : same_kind r.kind kind ≡ true
  pub later : All (λ x. same_kind x.kind kind ≡ false) after

module _ {ℓ} {A : Type ℓ} (p : A → Bool) where
  find-split :
      (xs : List A) (r : A)
      → find p xs ≡ some r
      → (before : List A) × (after : List A) × (xs ≡ before ++ r ∷ after)
        × (p r ≡ true)
        × All (λ x. p x ≡ false) before
  find-split [] r h = cc
  find-split (x ∷ xs) r h = elim (Bool-cases (p x)) [
    | inl hit ↦ ([], xs, ground arith, ground arith, tt)
    | inr miss ↦
        let (before, after, at, e, none_before) = find-split xs r (ground arith) in
        (x ∷ before, after, ap (λ l. x ∷ l) at, e, (miss, none_before))
  ]

  find-append :
      (before after : List A) (r : A)
      → All (λ x. p x ≡ false) before
      → p r ≡ true
      → find p (before ++ r ∷ after) ≡ some r
  find-append [] after r h e = rw e
  find-append (x ∷ before) after r h e = rw h.0 (find-append before after r h.1 e)

module _ {ℓ κ} {A : Type ℓ} (P : A → Type κ) where
  All-reverse : (xs : List A) → All P xs → All P (reverse xs)
  All-reverse [] h = h
  All-reverse (x ∷ xs) h =
      rw (reverse-append (x ∷ []) xs)
        (All-append P (reverse xs) (x ∷ []) (All-reverse xs h.1) (h.0, tt))

module _ {ℓ} {A : Type ℓ} where
  reverse-split :
      (before after : List A) (r : A)
      → reverse (before ++ r ∷ after) ≡ reverse after ++ r ∷ reverse before
  reverse-split before after r = simp (reverse-append, reverse-cons, append_assoc)

pub latest-Newest :
    (kind : EvidenceKind) (records : List EvidenceRecord) (r : EvidenceRecord)
    → latest kind records ≡ some r
    → Newest kind records r
latest-Newest kind records r h =
    let (before, after, at, e, none_before) =
      find-split (λ x. same_kind x.kind kind) (reverse records) r h in
    record {
      before = reverse after;
      after = reverse before;
      at = sym (reverse-reverse records) ∙ ap reverse at ∙ reverse-split before after r;
      of_kind = e;
      later = All-reverse (λ x. same_kind x.kind kind ≡ false) before none_before;
    }

pub Newest-latest :
    (kind : EvidenceKind) (records : List EvidenceRecord) (r : EvidenceRecord)
    → Newest kind records r
    → latest kind records ≡ some r
Newest-latest kind records r n =
    ap (latest kind) n.at
    ∙ ap (find (λ x. same_kind x.kind kind)) (reverse-split n.before n.after r)
    ∙ find-append (λ x. same_kind x.kind kind) (reverse n.after) (reverse n.before) r
        (All-reverse (λ x. same_kind x.kind kind ≡ false) n.after n.later) n.of_kind
