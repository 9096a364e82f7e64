-- ===== src/Process/Output.antt =====
-- process-service.js: the live output of a Run and its pages. A text is the list of its characters, as `for … of`
-- runs through it; what `chunk.toString("utf8")` returns has no lone surrogates.
pub mod Parts
pub mod Window
pub mod Written
pub mod Reading
mod Examples
use Prim.Native.Char.{Char, code}
use agentdock_mcp_harness.Base.{
  ℕ, zero, suc, ◌+◌, ◌-◌, ◌*◌, Bool, true, false, not, ◌&&◌, ltb, leb, max, if◌then◌else◌, Option,
  none, some, List, [], ◌∷◌, ◌++◌, length, keep, any, last?, Result, ok, err, ◌>>=◌, ◌>>◌, guard,
  invalid_output_page_size, invalid_output_page_chunks, invalid_output_cursor,
}

-- OUTPUT_CHUNK_BYTES
abbrev pub chunk_bytes : ℕ
chunk_bytes = 16384

-- `Buffer.byteLength(char, "utf8")`
abbrev pub char_bytes : Char → ℕ
char_bytes c =
    if ltb (code c) 128
    then 1
    else if ltb (code c) 2048
    then 2
    else if ltb (code c) 65536
    then 3
    else 4

abbrev pub byte_length : List Char → ℕ
byte_length [] = 0
byte_length (c ∷ text) = char_bytes c + byte_length text

abbrev pub is_empty {ℓ} : {A : Type ℓ} → List A → Bool
is_empty [] = true
is_empty (_ ∷ _) = false

-- The loop of `splitUtf8Text`, with `chars` and `bytes`.
unfoldable pub split_loop : ℕ → List Char → ℕ → List Char → List (List Char)
split_loop limit chars bytes [] = if is_empty chars then [] else chars ∷ []
split_loop limit chars bytes (c ∷ text) =
    elim (not (is_empty chars) && ltb limit (bytes + char_bytes c)) [
      | true ↦ chars ∷ split_loop limit (c ∷ []) (char_bytes c) text
      | false ↦ split_loop limit (chars ++ c ∷ []) (bytes + char_bytes c) text
    ]

-- `splitUtf8Text`
unfoldable pub split_utf8_text : List Char → ℕ → List (List Char)
split_utf8_text text limit = elim (leb (byte_length text) limit) [
  | true ↦ text ∷ []
  | false ↦ split_loop limit [] 0 text
]

pub data Stream : Type 0 where
  stdout stderr : Stream

pub record Chunk : Type 0 where
  pub cursor : ℕ
  pub stream : Stream
  pub text : List Char

-- The fields of a record that the output concerns.
pub record Live : Type 0 where
  pub output : List Chunk
  pub output_floor_cursor : ℕ
  pub next_output_cursor : ℕ
  pub output_total_bytes : ℕ
  pub retained_output_bytes : ℕ
  pub live_output_truncated : Bool

abbrev pub no_output : Live
no_output = record {
  output = [];
  output_floor_cursor = 0;
  next_output_cursor = 0;
  output_total_bytes = 0;
  retained_output_bytes = 0;
  live_output_truncated = false;
}

-- The loop of `append` over the parts.
unfoldable pub push_parts : Stream → List (List Char) → Live → Live
push_parts stream [] live = live
push_parts stream (part ∷ parts) live = push_parts stream parts (record live {
  output =
      live.output ++ record { cursor = live.next_output_cursor; stream = stream; text = part } ∷ [];
  next_output_cursor = live.next_output_cursor + 1;
  output_total_bytes = live.output_total_bytes + byte_length part;
  retained_output_bytes = live.retained_output_bytes + byte_length part;
})

-- The `while` of `#trimLiveOutput`: what it leaves of the chunks and of their bytes, and whether it took any away.
unfoldable pub drop_oldest : ℕ → List Chunk → ℕ → List Chunk × ℕ × Bool
drop_oldest limit [] retained = ([], retained, false)
drop_oldest limit (chunk ∷ []) retained = (chunk ∷ [], retained, false)
drop_oldest limit (chunk ∷ second ∷ rest) retained =
    let (kept, bytes, _) = drop_oldest limit (second ∷ rest) (retained - byte_length chunk.text) in
    if ltb limit retained then (kept, bytes, true) else (chunk ∷ second ∷ rest, retained, false)

abbrev pub first_cursor : List Chunk → ℕ → ℕ
first_cursor [] next = next
first_cursor (chunk ∷ _) next = chunk.cursor

-- `#trimLiveOutput`
unfoldable pub trim_live_output : ℕ → Live → Live
unfolding drop_oldest
trim_live_output limit live =
    let (kept, bytes, dropped) = drop_oldest limit live.output live.retained_output_bytes in
    record live {
      output = kept;
      retained_output_bytes = bytes;
      live_output_truncated = if dropped then true else live.live_output_truncated;
      output_floor_cursor = first_cursor kept live.next_output_cursor;
    }

-- `append`, up to the write of the record
unfoldable pub append : ℕ → Stream → List Char → Live → Live
unfolding push_parts trim_live_output split_utf8_text split_loop
append limit stream text live =
    trim_live_output limit (push_parts stream (split_utf8_text text chunk_bytes) live)

-- The loop of `output` over the available chunks, with the number and the bytes of those that it took.
unfoldable pub take_page : ℕ → ℕ → ℕ → ℕ → List Chunk → List Chunk
take_page max_bytes max_chunks count bytes [] = []
take_page max_bytes max_chunks count bytes (chunk ∷ rest) =
    let more = take_page max_bytes max_chunks (count + 1) (bytes + byte_length chunk.text) rest in
    if leb max_chunks count
    then []
    else if ltb 0 count && ltb max_bytes (bytes + byte_length chunk.text)
    then []
    else chunk ∷ more

abbrev pub available_from : ℕ → List Chunk → List Chunk
available_from cursor chunks = keep (λ chunk. leb cursor chunk.cursor) chunks

abbrev pub next_after : Option Chunk → ℕ → ℕ
next_after none cursor = cursor
next_after (some chunk) cursor = chunk.cursor + 1

pub record Page : Type 0 where
  pub chunks : List Chunk
  pub effective_cursor : ℕ
  pub next_cursor : ℕ
  pub has_more : Bool
  pub truncated_before_cursor : Bool

unfoldable pub page_of : Live → ℕ → ℕ → ℕ → Page
unfolding take_page
page_of live cursor max_bytes max_chunks =
    let from = max cursor live.output_floor_cursor in
    let available = available_from from live.output in
    let chunks = take_page max_bytes max_chunks 0 0 available in
    let next = next_after (last? chunks) from in
    record {
      chunks = chunks;
      effective_cursor = from;
      next_cursor = next;
      has_more = any (λ chunk. leb next chunk.cursor) available;
      truncated_before_cursor = ltb cursor live.output_floor_cursor;
    }

-- `output` on a Run of the Task
unfoldable pub output : Live → ℕ → ℕ → ℕ → Result Page
unfolding page_of
output live cursor max_bytes max_chunks = do
  guard (leb chunk_bytes max_bytes && leb max_bytes 32768) invalid_output_page_size
  guard (leb 1 max_chunks && leb max_chunks 128) invalid_output_page_chunks
  guard (leb cursor live.next_output_cursor) invalid_output_cursor
  ok (page_of live cursor max_bytes max_chunks)
