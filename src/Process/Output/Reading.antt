-- ===== src/Process/Output/Reading.antt =====
-- process-service.js: a reader of the pages of `output`.
use agentdock_mcp_harness.Base.{
  ℕ, suc, ◌+◌, ◌≤◌, max, true, false, ◌&&◌, ltb, leb, List, [], ◌∷◌, ◌++◌, last?, arith, ◌≡◌, refl,
  sym, ap, subst, ◌∙◌, inl, inr, Bool-cases, ok, guard, guard-eq-ok, >>=-eq-ok, ok-injective,
  invalid_output_page_size, invalid_output_page_chunks, invalid_output_cursor,
}
use agentdock_mcp_harness.Process.Output.{
  byte_length, Chunk, Live, take_page, available_from, next_after, Page, page_of, output,
  chunk_bytes,
}
use agentdock_mcp_harness.Process.Output.Window.{Counts, IsWindow}

available_from-all :
    (k from end : ℕ) (chunks : List Chunk)
    → Counts from chunks end
    → k ≤ from
    → available_from k chunks ≡ chunks
available_from-all k from end [] h le = refl
available_from-all k from end (x ∷ chunks) h le =
    let rest = available_from-all k (suc from) end chunks h.1 (omega (arith, le)) in
    let kept : leb k x.cursor ≡ true = ground (arith, h.0, le) in rw kept (ap (λ cs. x ∷ cs) rest)

-- What a reader is shown begins with its cursor.
available_from-Counts :
    (k from end : ℕ) (chunks : List Chunk)
    → Counts from chunks end
    → k ≤ end
    → Counts (max k from) (available_from k chunks) end
available_from-Counts k from end [] h le = omega (arith, h, le)
available_from-Counts k from end (x ∷ chunks) h le = elim (Bool-cases (leb k x.cursor)) [
  | inl kept ↦
      let all_kept = available_from-all k (suc from) end chunks h.1 (ground (arith, h.0, kept)) in
      let same_start : max k from ≡ from = ground (arith, h.0, kept) in
      rw (kept, all_kept, same_start) (h.0, h.1)
  | inr skipped ↦
      let same_start : max k (suc from) ≡ max k from = ground (arith, h.0, skipped) in
      rw skipped (
        subst (λ n. Counts n (available_from k chunks) end) same_start
          (available_from-Counts k (suc from) end chunks h.1 le))
]

available_from-twice :
    (k later : ℕ) (chunks : List Chunk)
    → k ≤ later
    → available_from later (available_from k chunks) ≡ available_from later chunks
available_from-twice k later [] le = refl
available_from-twice k later (x ∷ chunks) le =
    let rest = available_from-twice k later chunks le in ground (arith, rest, le)

next_after-some :
    (y : Chunk) (ys : List Chunk) (a b : ℕ)
    → next_after (last? (y ∷ ys)) a ≡ next_after (last? (y ∷ ys)) b
next_after-some y [] a b = refl
next_after-some y (z ∷ ys) a b = next_after-some z ys a b

next_after-cons :
    (x : Chunk) (page : List Chunk) (from : ℕ)
    → x.cursor ≡ from
    → next_after (last? (x ∷ page)) from ≡ next_after (last? page) (suc from)
next_after-cons x [] from h = omega (arith, h)
next_after-cons x (y ∷ ys) from h = next_after-some y ys from (suc from)

-- A page is the front of the chunks, and its next cursor is where the rest begins.
IsFront : ℕ → List Chunk → List Chunk → Type 0
IsFront from chunks page =
    let next = next_after (last? page) from in
    (page ++ available_from next chunks ≡ chunks) × (from ≤ next)

IsFront-nil : (from end : ℕ) (chunks : List Chunk) → Counts from chunks end → IsFront from chunks []
unfolding IsFront
IsFront-nil from end chunks h =
    (available_from-all from from end chunks h (omega arith), omega arith)

IsFront-cons :
    (from : ℕ) (x : Chunk) (rest page : List Chunk)
    → x.cursor ≡ from
    → IsFront (suc from) rest page
    → IsFront from (x ∷ rest) (x ∷ page)
unfolding IsFront
IsFront-cons from x rest page h front =
    subst (λ n. ((x ∷ page) ++ available_from n (x ∷ rest) ≡ x ∷ rest) × (from ≤ n))
      (sym (next_after-cons x page from h))
      (let passed : leb (next_after (last? page) (suc from)) x.cursor ≡ false =
          ground (arith, h, front.1) in
        (rw passed (ap (λ cs. x ∷ cs) front.0), omega (arith, front.1)))

take_page-IsFront :
    (max_bytes max_chunks count bytes from end : ℕ) (chunks : List Chunk)
    → Counts from chunks end
    → IsFront from chunks (take_page max_bytes max_chunks count bytes chunks)
unfolding take_page
take_page-IsFront max_bytes max_chunks count bytes from end [] h = IsFront-nil from end [] h
take_page-IsFront max_bytes max_chunks count bytes from end (x ∷ rest) h =
    let more =
      take_page-IsFront max_bytes max_chunks (count + 1) (bytes + byte_length x.text) (suc from) end
        rest h.1 in
    elim (Bool-cases (leb max_chunks count)) [
      | inl full ↦ rw full (IsFront-nil from end (x ∷ rest) h)
      | inr open_page ↦
          elim (Bool-cases (ltb 0 count && ltb max_bytes (bytes + byte_length x.text))) [
            | inl too_long ↦ rw (open_page, too_long) (IsFront-nil from end (x ∷ rest) h)
            | inr fits ↦ rw (open_page, fits) (IsFront-cons from x rest _ h.0 more)
          ]
    ]

Counts-le : (from end : ℕ) (chunks : List Chunk) → Counts from chunks end → from ≤ end
Counts-le from end [] h = omega (arith, h)
Counts-le from end (x ∷ chunks) h = omega (arith, Counts-le (suc from) end chunks h.1)

-- Below the floor there is nothing.
available_from-floor :
    (cursor floor end : ℕ) (chunks : List Chunk)
    → Counts floor chunks end
    → available_from (max cursor floor) chunks ≡ available_from cursor chunks
available_from-floor cursor floor end chunks h = elim (Bool-cases (leb cursor floor)) [
  | inl below ↦
      let start : max cursor floor ≡ floor = ground (arith, below) in
      rw start (
        available_from-all floor floor end chunks h (omega arith)
        ∙ sym (available_from-all cursor floor end chunks h (ground (arith, below))))
  | inr above ↦ let start : max cursor floor ≡ cursor = ground (arith, above) in rw start refl
]

take_page-some :
    (max_bytes max_chunks : ℕ) (chunks : List Chunk)
    → 1 ≤ max_chunks
    → take_page max_bytes max_chunks 0 0 chunks ≡ []
    → chunks ≡ []
unfolding take_page
take_page-some max_bytes max_chunks [] one h = refl
take_page-some max_bytes max_chunks (x ∷ chunks) one h = ground (arith, one, h)

-- The page of a reader that asked for the chunks from a cursor on.
pub record IsPage (live : Live) (cursor : ℕ) (page : Page) : Type 0 where
  pub resumes :
      page.chunks ++ available_from page.next_cursor live.output ≡ available_from cursor live.output
  pub goes_on : page.chunks ≡ [] → available_from cursor live.output ≡ []
  pub truncated : page.truncated_before_cursor ≡ ltb cursor live.output_floor_cursor

page_of-IsPage :
    (live : Live) (cursor max_bytes max_chunks : ℕ)
    → IsWindow live
    → cursor ≤ live.next_output_cursor
    → 1 ≤ max_chunks
    → IsPage live cursor (page_of live cursor max_bytes max_chunks)
unfolding page_of IsFront
page_of-IsPage live cursor max_bytes max_chunks w h one =
    let floor = live.output_floor_cursor in
    let end = live.next_output_cursor in
    let from = max cursor floor in
    let low = Counts-le floor end live.output w.counts in
    let within : from ≤ end = ground (arith, h, low) in
    let same_start : max from floor ≡ from = ground arith in
    let counts = available_from-Counts from floor end live.output w.counts within in
    let front =
      take_page-IsFront max_bytes max_chunks 0 0 from end (available_from from live.output)
        (subst (λ n. Counts n (available_from from live.output) end) same_start counts) in
    let chunks = take_page max_bytes max_chunks 0 0 (available_from from live.output) in
    let asked = available_from-floor cursor floor end live.output w.counts in
    record {
      resumes =
          subst (λ (cs : List Chunk). chunks ++ cs ≡ available_from from live.output)
            (available_from-twice from (next_after (last? chunks) from) live.output front.1) front.0
          ∙ asked;
      goes_on = λ none_taken.
          sym asked
          ∙ take_page-some max_bytes max_chunks (available_from from live.output) one none_taken;
      truncated = refl;
    }

-- A page of the live output of a Run, for a reader that asked for the chunks from a cursor on: its chunks, and what is
-- available from its next cursor, are what was available from the asked cursor, so a reader that goes on from the next
-- cursor misses no held chunk and gets none twice. The page is empty only when nothing is available, and it says
-- whether the asked cursor lies before the floor.
pub output-IsPage :
    (live : Live) (cursor max_bytes max_chunks : ℕ) (page : Page)
    → IsWindow live
    → output live cursor max_bytes max_chunks ≡ ok page
    → IsPage live cursor page
unfolding output
output-IsPage live cursor max_bytes max_chunks page w h =
    let a =
      >>=-eq-ok (guard (leb chunk_bytes max_bytes && leb max_bytes 32768) invalid_output_page_size)
        _ h in
    let b =
      >>=-eq-ok (guard (leb 1 max_chunks && leb max_chunks 128) invalid_output_page_chunks) _ a.2 in
    let c = >>=-eq-ok (guard (leb cursor live.next_output_cursor) invalid_output_cursor) _ b.2 in
    let in_range = guard-eq-ok (leb cursor live.next_output_cursor) invalid_output_cursor c.1 in
    let some_chunks =
      guard-eq-ok (leb 1 max_chunks && leb max_chunks 128) invalid_output_page_chunks b.1 in
    subst (IsPage live cursor) (ok-injective c.2) (
      page_of-IsPage live cursor max_bytes max_chunks w (ground (arith, in_range))
        (ground (arith, some_chunks)))
