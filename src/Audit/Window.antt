-- ===== src/Audit/Window.antt =====
-- The log after any number of `append`s.
use agentdock_mcp_harness.Base.{
  ℕ, zero, suc, ◌+◌, ◌-◌, ◌≤◌, ◌≡◌, refl, sym, ap, ◌∙◌, List, [], ◌∷◌, ◌++◌, arith, length, drop,
  take_last, ltb, length-append, length-drop, Bool-cases, inl, inr,
}
use agentdock_mcp_harness.Audit.{Entry, AuditLog, initial_log, new_entry, append_log, cut}

module _ {A : Type 0} where
  pub drop-append : (n : ℕ) (xs ys : List A) → n ≤ length xs → drop n (xs ++ ys) ≡ drop n xs ++ ys
  drop-append zero xs ys h = refl
  drop-append (suc n) [] ys h = absurd (omega arith)
  drop-append (suc n) (x ∷ xs) ys h = drop-append n xs ys (omega arith)

  pub drop-nil : (n : ℕ) → drop {A = A} n [] ≡ []
  drop-nil zero = refl
  drop-nil (suc n) = refl

  append_nil : (xs : List A) → xs ++ [] ≡ xs
  append_nil [] = refl
  append_nil (x ∷ xs) = ap (λ l. x ∷ l) (append_nil xs)

  append_one : (xs : List A) (x : A) (ys : List A) → (xs ++ x ∷ []) ++ ys ≡ xs ++ x ∷ ys
  append_one [] x ys = refl
  append_one (y ∷ xs) x ys = ap (λ l. y ∷ l) (append_one xs x ys)

  pub drop-drop : (m n : ℕ) (xs : List A) → drop m (drop n xs) ≡ drop (n + m) xs
  drop-drop m zero xs = ground arith
  drop-drop m (suc n) [] = ground (arith, drop-nil m, drop-nil (suc n + m))
  drop-drop m (suc n) (x ∷ xs) =
      let e : suc n + m ≡ suc (n + m) = omega arith in rw e (drop-drop m n xs)

module _ {B : Type 0} (redact : B → B) (max : ℕ) where
  -- The calls in order, each with its time and its body.
  abbrev pub append_all : List (ℕ × B) → AuditLog B → AuditLog B
  append_all [] log = log
  append_all ((now, body) ∷ calls) log = append_all calls (append_log redact max now body log).0

  -- The entries of all calls, numbered from a number on: the log without a bound.
  abbrev pub full : ℕ → List (ℕ × B) → List (Entry B)
  full n [] = []
  full n ((now, body) ∷ calls) = new_entry redact n now body ∷ full (n + 1) calls

  cut_lem : (entries : List (Entry B)) → cut max entries ≡ take_last max entries
  cut_lem entries = elim (Bool-cases (ltb max (length entries))) [
    | inl more ↦ rw more
    | inr fits ↦ let none_cut : length entries - max ≡ 0 = ground arith in rw (fits, none_cut)
  ]

  cut-take_last :
      (known : List (Entry B)) (x : Entry B)
      → cut max (take_last max known ++ x ∷ []) ≡ take_last max (known ++ x ∷ [])
  cut-take_last known x =
      let n = length known - max in
      let moved : take_last max known ++ x ∷ [] ≡ drop n (known ++ x ∷ []) =
        sym (drop-append n known (x ∷ []) (omega arith)) in
      let counts : n + (length (drop n (known ++ x ∷ [])) - max) ≡ length (known ++ x ∷ []) - max =
        omega (arith, length-drop n (known ++ x ∷ []), length-append known (x ∷ [])) in
      ap (cut max) moved
      ∙ cut_lem (drop n (known ++ x ∷ []))
      ∙ drop-drop (length (drop n (known ++ x ∷ [])) - max) n (known ++ x ∷ [])
      ∙ ap (λ k. drop k (known ++ x ∷ [])) counts

  window_from :
      (known : List (Entry B)) (calls : List (ℕ × B)) (log : AuditLog B)
      → log.entries ≡ take_last max known
      → ((append_all calls log).entries ≡ take_last max (known ++ full log.next_sequence calls))
        × ((append_all calls log).next_sequence ≡ log.next_sequence + length calls)
  unfolding append_log
  window_from known [] log e = (e ∙ ap (take_last max) (sym (append_nil known)), omega arith)
  window_from known ((now, body) ∷ calls) log e =
      let x = new_entry redact log.next_sequence now body in
      let (entries, next) =
        window_from (known ++ x ∷ []) calls (append_log redact max now body log).0
          (ap (λ l. cut max (l ++ x ∷ [])) e ∙ cut-take_last known x) in
      (
        entries ∙ ap (take_last max) (append_one known x (full (log.next_sequence + 1) calls)),
        next ∙ omega arith,
      )

  -- After any calls of `append` on a Task that had no log, the log is the last entries, at most the
  -- maximum, of all that were appended, numbered from 1 on in the order of the calls; and the next
  -- number is one more than the number of calls.
  pub window :
      (calls : List (ℕ × B))
      → ((append_all calls initial_log).entries ≡ take_last max (full 1 calls))
        × ((append_all calls initial_log).next_sequence ≡ 1 + length calls)
  window calls = window_from [] calls initial_log (sym (drop-nil (0 - max)))
