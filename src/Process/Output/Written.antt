-- ===== src/Process/Output/Written.antt =====
-- process-service.js: what the live output of a Run still holds of all that the Run wrote.
use Prim.Native.Char.{Char}
use agentdock_mcp_harness.Base.{
  ℕ, ◌+◌, ◌-◌, ◌≤◌, Bool, true, false, not, ltb, if◌then◌else◌, List, [], ◌∷◌, ◌++◌, length, arith,
  ◌≡◌, refl, sym, ap, ◌∙◌, subst, ◌⊎◌, inl, inr, Bool-cases,
}
use agentdock_mcp_harness.Process.Output.{
  byte_length, is_empty, Stream, stdout, stderr, Chunk, Live, push_parts, drop_oldest, append,
  trim_live_output, split_utf8_text, chunk_bytes,
}
use agentdock_mcp_harness.Process.Output.Parts.{join, join-split_utf8_text}
use agentdock_mcp_harness.Process.Output.Window.{
  bytes_of, bytes_of-append, Counts, Counts-append, IsWindow, push_parts-IsWindow, trim-IsWindow,
}

abbrev pub is_stream : Stream → Stream → Bool
is_stream stdout stdout = true
is_stream stderr stderr = true
is_stream _ _ = false

-- What the chunks show of a stream.
abbrev pub text_of : Stream → List Chunk → List Char
text_of s [] = []
text_of s (chunk ∷ chunks) =
    if is_stream s chunk.stream then chunk.text ++ text_of s chunks else text_of s chunks

-- What the Run wrote to a stream.
abbrev pub written : Stream → List (Stream × List Char) → List Char
written s [] = []
written s ((stream, text) ∷ writes) =
    if is_stream s stream then text ++ written s writes else written s writes

-- The chunks that were dropped and the ones that are held are numbered from 0 on, and they are all that the Run
-- wrote, each stream in its order.
pub record HoldsEndOf (writes : List (Stream × List Char)) (live : Live) : Type 0 where
  pub window : IsWindow live
  pub dropped : List Chunk
  pub counts : Counts 0 (dropped ++ live.output) live.next_output_cursor
  pub texts : (s : Stream) → text_of s (dropped ++ live.output) ≡ written s writes
  pub total : live.output_total_bytes ≡ bytes_of (dropped ++ live.output)
  pub truncated : live.live_output_truncated ≡ not (is_empty dropped)

assoc_lem : {A : Type 0} → (xs ys zs : List A) → (xs ++ ys) ++ zs ≡ xs ++ (ys ++ zs)
assoc_lem [] ys zs = refl
assoc_lem (x ∷ xs) ys zs = cc (assoc_lem xs ys zs)

text_of-append :
    (s : Stream) (xs ys : List Chunk) → text_of s (xs ++ ys) ≡ text_of s xs ++ text_of s ys
text_of-append s [] ys = refl
text_of-append s (x ∷ xs) ys = elim (Bool-cases (is_stream s x.stream)) [
  | inl same_one ↦ rw same_one (
      ap (λ t. x.text ++ t) (text_of-append s xs ys)
      ∙ sym (assoc_lem x.text (text_of s xs) (text_of s ys)))
  | inr other ↦ rw other (text_of-append s xs ys)
]

written-append :
    (s stream : Stream) (text : List Char) (writes : List (Stream × List Char))
    → written s (writes ++ (stream, text) ∷ [])
      ≡ written s writes ++ (if is_stream s stream then text else [])
written-append s stream text [] = elim (Bool-cases (is_stream s stream)) [
  | inl same_one ↦ rw same_one (nil_lem text)
  | inr other ↦ rw other refl
]
  where
    nil_lem : (t : List Char) → t ++ [] ≡ t
    nil_lem [] = refl
    nil_lem (c ∷ t) = cc (nil_lem t)
written-append s stream text ((one, said) ∷ writes) = elim (Bool-cases (is_stream s one)) [
  | inl same_one ↦ rw same_one (
      ap (λ t. said ++ t) (written-append s stream text writes)
      ∙ sym (assoc_lem said (written s writes) (if is_stream s stream then text else [])))
  | inr other ↦ rw other (written-append s stream text writes)
]

nil_lem : {A : Type 0} → (xs : List A) → xs ++ [] ≡ xs
nil_lem [] = refl
nil_lem (x ∷ xs) = cc (nil_lem xs)

-- What the chunks of some parts show of a stream.
said_of :
    (s stream : Stream) (part : List Char) (rest : List Char) (before : List Char)
    → (before ++ (if is_stream s stream then part ++ [] else []))
        ++ (if is_stream s stream then rest else [])
      ≡ before ++ (if is_stream s stream then part ++ rest else [])
said_of s stream part rest before = elim (Bool-cases (is_stream s stream)) [
  | inl same_one ↦
      rw same_one
        (assoc_lem before (part ++ []) rest ∙ ap (λ t. before ++ t) (assoc_lem part [] rest))
  | inr other ↦ rw other (nil_lem (before ++ []) ∙ ap (λ t. before ++ t) refl)
]

-- What the loop over the parts adds to the chunks `before` it.
Adds : Stream → List (List Char) → Live → List Chunk → Live → Type 0
Adds stream parts live before after =
    Counts 0 (before ++ after.output) after.next_output_cursor
    × (after.output_total_bytes ≡ bytes_of (before ++ after.output))
    × (after.live_output_truncated ≡ live.live_output_truncated)
    × ((s : Stream)
        → text_of s (before ++ after.output)
          ≡ text_of s (before ++ live.output) ++ (if is_stream s stream then join parts else []))

push_parts-Adds :
    (stream : Stream) (parts : List (List Char)) (live : Live) (before : List Chunk)
    → Counts 0 (before ++ live.output) live.next_output_cursor
    → live.output_total_bytes ≡ bytes_of (before ++ live.output)
    → Adds stream parts live before (push_parts stream parts live)
unfolding push_parts Adds
push_parts-Adds stream [] live before h t = (h, t, refl, λ s. sym (nothing s))
  where
    nothing :
        (s : Stream)
        → text_of s (before ++ live.output) ++ (if is_stream s stream then [] else [])
          ≡ text_of s (before ++ live.output)
    nothing s = elim (Bool-cases (is_stream s stream)) [
      | inl same_one ↦ rw same_one (nil_lem (text_of s (before ++ live.output)))
      | inr other ↦ rw other (nil_lem (text_of s (before ++ live.output)))
    ]
push_parts-Adds stream (part ∷ parts) live before h t =
    let chunk : Chunk = record { cursor = live.next_output_cursor; stream = stream; text = part } in
    let all_before = before ++ live.output in
    let regroup : all_before ++ chunk ∷ [] ≡ before ++ (live.output ++ chunk ∷ []) =
      assoc_lem before live.output (chunk ∷ []) in
    let more =
      push_parts-Adds stream parts _ before
        (subst (λ cs. Counts 0 cs (live.next_output_cursor + 1)) regroup
          (Counts-append 0 live.next_output_cursor all_before chunk h refl))
        (subst (λ cs. live.output_total_bytes + byte_length part ≡ bytes_of cs) regroup
          (omega (arith, t, bytes_of-append all_before chunk))) in
    (
      more.0,
      more.1,
      more.2,
      λ s.
          more.3 s
          ∙ ap (λ t. t ++ (if is_stream s stream then join parts else []))
              (ap (text_of s) (sym regroup) ∙ text_of-append s all_before (chunk ∷ []))
          ∙ said_of s stream part (join parts) (text_of s all_before),
    )

drop_oldest-splits :
    (limit : ℕ) (chunks : List Chunk) (retained : ℕ)
    → let (kept, bytes, cut) = drop_oldest limit chunks retained in
      (gone : List Chunk) × (gone ++ kept ≡ chunks) × (cut ≡ not (is_empty gone))
unfolding drop_oldest
drop_oldest-splits limit [] retained = ([], refl, refl)
drop_oldest-splits limit (x ∷ []) retained = ([], refl, refl)
drop_oldest-splits limit (x ∷ y ∷ rest) retained =
    let later = drop_oldest-splits limit (y ∷ rest) (retained - byte_length x.text) in
    elim (Bool-cases (ltb limit retained)) [
      | inl over ↦ rw over (x ∷ later.0, ap (λ cs. x ∷ cs) later.1, refl)
      | inr within ↦ rw within ([], refl, refl)
    ]

cut_lem :
    (gone before : List Chunk) (cut truncated : Bool)
    → cut ≡ not (is_empty gone)
    → truncated ≡ not (is_empty before)
    → (if cut then true else truncated) ≡ not (is_empty (before ++ gone))
cut_lem [] [] cut truncated h k = ground (arith, h, k)
cut_lem [] (x ∷ before) cut truncated h k = ground (arith, h, k)
cut_lem (g ∷ gone) [] cut truncated h k = ground (arith, h, k)
cut_lem (g ∷ gone) (x ∷ before) cut truncated h k = ground (arith, h, k)

trim-HoldsEndOf :
    (limit : ℕ) (writes : List (Stream × List Char)) (live : Live)
    → HoldsEndOf writes live
    → HoldsEndOf writes (trim_live_output limit live)
unfolding trim_live_output
trim-HoldsEndOf limit writes live h =
    let (gone, splits, cut) = drop_oldest-splits limit live.output live.retained_output_bytes in
    let kept = (drop_oldest limit live.output live.retained_output_bytes).0 in
    let regroup : h.dropped ++ live.output ≡ (h.dropped ++ gone) ++ kept =
      ap (λ cs. h.dropped ++ cs) (sym splits) ∙ sym (assoc_lem h.dropped gone kept) in
    record {
      window = (trim-IsWindow limit live h.window).0;
      dropped = h.dropped ++ gone;
      counts = subst (λ cs. Counts 0 cs live.next_output_cursor) regroup h.counts;
      texts = λ s. ap (text_of s) (sym regroup) ∙ h.texts s;
      total = h.total ∙ ap bytes_of regroup;
      truncated = cut_lem gone h.dropped _ live.live_output_truncated cut h.truncated;
    }

push_parts-HoldsEndOf :
    (writes : List (Stream × List Char)) (stream : Stream) (text : List Char)
    (parts : List (List Char)) (live : Live)
    → join parts ≡ text
    → HoldsEndOf writes live
    → HoldsEndOf (writes ++ (stream, text) ∷ []) (push_parts stream parts live)
unfolding Adds
push_parts-HoldsEndOf writes stream text parts live joined h =
    let more = push_parts-Adds stream parts live h.dropped h.counts h.total in
    record {
      window = push_parts-IsWindow stream parts live h.window;
      dropped = h.dropped;
      counts = more.0;
      texts = λ s.
          more.3 s
          ∙ ap (λ t. t ++ (if is_stream s stream then join parts else [])) (h.texts s)
          ∙ ap (λ (t : List Char). written s writes ++ (if is_stream s stream then t else []))
              joined
          ∙ sym (written-append s stream text writes);
      total = more.1;
      truncated = more.2 ∙ h.truncated;
    }

-- The live output of a Run, after what the Run wrote before and one more text: the chunks that were dropped and the
-- held ones are numbered from 0 up to the next cursor without a gap and show, for each stream, exactly the text that
-- was written to it; the held ones are the last of them, from the floor on. The counts of all bytes and of the held
-- bytes are right, the output is marked as truncated exactly when a chunk was dropped, and what is held is within the
-- limit or a single chunk.
pub append-HoldsEndOf :
    (limit : ℕ) (writes : List (Stream × List Char)) (stream : Stream) (text : List Char)
    (live : Live)
    → HoldsEndOf writes live
    → HoldsEndOf (writes ++ (stream, text) ∷ []) (append limit stream text live)
      × (((append limit stream text live).retained_output_bytes ≤ limit)
          ⊎ (length (append limit stream text live).output ≤ 1))
unfolding append
append-HoldsEndOf limit writes stream text live h =
    let pushed =
      push_parts-HoldsEndOf writes stream text (split_utf8_text text chunk_bytes) live
        (join-split_utf8_text text chunk_bytes) h in
    (
      trim-HoldsEndOf limit (writes ++ (stream, text) ∷ []) _ pushed,
      (trim-IsWindow limit _ pushed.window).1,
    )
