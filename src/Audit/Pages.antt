-- ===== src/Audit/Pages.antt =====
-- Reading a log page by page.
use agentdock_mcp_harness.Base.{
  ℕ, zero, suc, ◌+◌, ◌-◌, ◌≤◌, ◌≡◌, ◌≢◌, ◌⊎◌, refl, sym, ap, ◌∙◌, List, [], ◌∷◌, ◌++◌, arith,
  length, drop, take, last?, ltb, length-drop, Bool-cases, inl, inr,
}
use agentdock_mcp_harness.Audit.{Entry, AuditLog, initial_log, page_of, later, resume_at}
use agentdock_mcp_harness.Audit.Window.{drop-drop, drop-nil, full, append_all, window}

module _ {B : Type 0} where
  -- The entries are numbered from a number on, without a gap.
  abbrev pub IsNumbered : ℕ → List (Entry B) → Type 0
  IsNumbered k [] = Unit
  IsNumbered k (entry ∷ entries) = (entry.sequence ≡ k) × IsNumbered (suc k) entries

  -- The numbers of a log begin at 1 or later, and end before the next number.
  pub record IsLog (log : AuditLog B) : Type 0 where
    pub from_number : ℕ
    pub positive : 1 ≤ from_number
    pub numbered : IsNumbered from_number log.entries
    pub ends : log.next_sequence ≡ from_number + length log.entries

  later-drop :
      (k after : ℕ) (entries : List (Entry B))
      → IsNumbered k entries
      → later after entries ≡ drop (suc after - k) entries
  later-drop k after [] h = sym (drop-nil (suc after - k))
  later-drop k after (entry ∷ entries) h =
      let rest = later-drop (suc k) after entries h.1 in
      elim (Bool-cases (ltb after entry.sequence)) [
        | inl new ↦
            let none_before : suc after - k ≡ 0 = ground arith in
            let none_later : suc after - suc k ≡ 0 = ground arith in
            rw (new, none_before) (ap (λ l. entry ∷ l) (rw none_later at rest))
        | inr old ↦
            let one_more : suc after - k ≡ suc (suc after - suc k) = ground arith in
            rw (old, one_more) rest
      ]

  IsNumbered-drop :
      (n k : ℕ) (entries : List (Entry B))
      → IsNumbered k entries
      → IsNumbered (k + n) (drop n entries)
  IsNumbered-drop zero k entries h = ground arith
  IsNumbered-drop (suc n) k [] h = tt
  IsNumbered-drop (suc n) k (entry ∷ entries) h =
      let moved : k + suc n ≡ suc k + n = omega arith in
      rw moved (IsNumbered-drop n (suc k) entries h.1)

  resume_at-take :
      (next k limit : ℕ) (entry : Entry B) (entries : List (Entry B))
      → IsNumbered k (entry ∷ entries)
      → resume_at next (last? (take (suc limit) (entry ∷ entries)))
        ≡ k + length (take (suc limit) (entry ∷ entries))
  resume_at-take next k zero entry [] h = ground arith
  resume_at-take next k (suc limit) entry [] h = ground arith
  resume_at-take next k zero entry (e ∷ entries) h = ground arith
  resume_at-take next k (suc limit) entry (e ∷ entries) h =
      let rest = resume_at-take next (suc k) limit e entries h.1 in ground arith

  take-drop : (n : ℕ) (xs : List (Entry B)) → take n xs ++ drop (length (take n xs)) xs ≡ xs
  take-drop zero xs = refl
  take-drop (suc n) [] = refl
  take-drop (suc n) (x ∷ xs) = ap (λ l. x ∷ l) (take-drop n xs)

  page_from :
      (next k limit : ℕ) (found : List (Entry B))
      → IsNumbered k found
      → length found ≢ 0
      → resume_at next (last? (take (suc limit) found)) ≡ k + length (take (suc limit) found)
  page_from next k limit [] h some_found = absurd (some_found refl)
  page_from next k limit (entry ∷ entries) h some_found =
      resume_at-take next k limit entry entries h

  drop_past : (n : ℕ) (xs : List (Entry B)) → length xs ≤ n → drop n xs ≡ []
  drop_past n [] h = drop-nil n
  drop_past zero (x ∷ xs) h = absurd (omega arith)
  drop_past (suc n) (x ∷ xs) h = drop_past n xs (omega arith)

  empty-cases : (xs : List (Entry B)) → (xs ≡ []) ⊎ (length xs ≢ 0)
  empty-cases [] = inl refl
  empty-cases (x ∷ xs) = inr (λ h. absurd (omega (arith, h)))

  -- The entries from the next number of a page on.
  resume_rest :
      (k n limit next : ℕ) (entries : List (Entry B))
      → 1 ≤ k
      → IsNumbered k entries
      → next ≡ k + length entries
      → later (resume_at next (last? (take (suc limit) (drop n entries))) - 1) entries
        ≡ drop (length (take (suc limit) (drop n entries))) (drop n entries)
  resume_rest k n limit next entries positive numbered ends = elim (empty-cases (drop n entries)) [
    | inl none_found ↦ rw none_found (
        later-drop k (next - 1) entries numbered
        ∙ drop_past (suc (next - 1) - k) entries (omega arith))
    | inr some_found ↦
        let m = length (take (suc limit) (drop n entries)) in
        let resumed =
          page_from next (k + n) limit (drop n entries) (IsNumbered-drop n k entries numbered)
            some_found in
        let moved : suc ((k + n + m) - 1) - k ≡ n + m = omega arith in
        ap (λ i. later (i - 1) entries) resumed
        ∙ later-drop k ((k + n + m) - 1) entries numbered
        ∙ ap (λ i. drop i entries) moved
        ∙ sym (drop-drop m n entries)
  ]

  -- A reader of a log whose numbers have no gap, who asks again from just before the next number of
  -- a page of one or more entries, misses none and gets none twice: the entries of the page and
  -- those after it are the entries that the first request was for.
  pub page_resume :
      (after limit : ℕ) (log : AuditLog B)
      → IsLog log
      → let page = page_of after (suc limit) log in
        later after log.entries ≡ page.entries ++ later (page.next_sequence - 1) log.entries
  unfolding page_of
  page_resume after limit log well =
      let n = suc after - well.from_number in
      let listed = later-drop well.from_number after log.entries well.numbered in
      rw listed (
        sym (
          ap (λ rest. take (suc limit) (drop n log.entries) ++ rest)
            (resume_rest well.from_number n limit log.next_sequence log.entries well.positive
              well.numbered well.ends)
          ∙ take-drop (suc limit) (drop n log.entries)))

module _ {B : Type 0} (redact : B → B) (max : ℕ) where
  full-IsNumbered : (n : ℕ) (calls : List (ℕ × B)) → IsNumbered n (full redact max n calls)
  full-IsNumbered n [] = tt
  full-IsNumbered n ((now, body) ∷ calls) =
      let next : n + 1 ≡ suc n = omega arith in (refl, rw next (full-IsNumbered (suc n) calls))

  length-full : (n : ℕ) (calls : List (ℕ × B)) → length (full redact max n calls) ≡ length calls
  length-full n [] = refl
  length-full n ((now, body) ∷ calls) = ap (λ k. suc k) (length-full (n + 1) calls)

  -- After any calls of `append` on a Task that had no log, the numbers of the log have no gap, begin
  -- at 1 or later and end just before the next number.
  pub append_all-IsLog : (calls : List (ℕ × B)) → IsLog (append_all redact max calls initial_log)
  append_all-IsLog calls =
      let (entries, next) = window redact max calls in
      let all = full redact max 1 calls in
      let n = length all - max in
      record {
        from_number = 1 + n;
        positive = omega arith;
        numbered = rw entries (IsNumbered-drop n 1 all (full-IsNumbered 1 calls));
        ends = next ∙ rw entries (omega (arith, length-full 1 calls, length-drop n all));
      }
