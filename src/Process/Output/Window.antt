-- ===== src/Process/Output/Window.antt =====
-- process-service.js: the chunks that the live output holds, and the pages of `output`.
use Prim.Native.Char.{Char}
use agentdock_mcp_harness.Base.{
  ℕ, suc, ◌+◌, ◌-◌, ◌≤◌, ltb, List, [], ◌∷◌, ◌++◌, length, arith, ◌≡◌, refl, sym, subst, ◌⊎◌, inl,
  inr, Bool-cases,
}
use agentdock_mcp_harness.Process.Output.{
  byte_length, Stream, Chunk, Live, push_parts, drop_oldest, first_cursor, trim_live_output,
}

abbrev pub bytes_of : List Chunk → ℕ
bytes_of [] = 0
bytes_of (chunk ∷ chunks) = byte_length chunk.text + bytes_of chunks

-- The cursors count up from the first number to just before the second.
abbrev pub Counts : ℕ → List Chunk → ℕ → Type 0
Counts from [] end = from ≡ end
Counts from (chunk ∷ chunks) end = (chunk.cursor ≡ from) × Counts (suc from) chunks end

-- The chunks are the ones from the floor to the next cursor, and the count of their bytes is right.
pub record IsWindow (live : Live) : Type 0 where
  pub counts : Counts live.output_floor_cursor live.output live.next_output_cursor
  pub bytes : live.retained_output_bytes ≡ bytes_of live.output

pub Counts-append :
    (from end : ℕ) (chunks : List Chunk) (chunk : Chunk)
    → Counts from chunks end
    → chunk.cursor ≡ end
    → Counts from (chunks ++ chunk ∷ []) (end + 1)
Counts-append from end [] chunk h e = (cc (h, e), omega (arith, h))
Counts-append from end (x ∷ chunks) chunk h e =
    (h.0, Counts-append (suc from) end chunks chunk h.1 e)

pub bytes_of-append :
    (chunks : List Chunk) (chunk : Chunk)
    → bytes_of (chunks ++ chunk ∷ []) ≡ bytes_of chunks + byte_length chunk.text
bytes_of-append [] chunk = omega arith
bytes_of-append (x ∷ chunks) chunk = omega (arith, bytes_of-append chunks chunk)

pub push_parts-IsWindow :
    (stream : Stream) (parts : List (List Char)) (live : Live)
    → IsWindow live
    → IsWindow (push_parts stream parts live)
unfolding push_parts
push_parts-IsWindow stream [] live w = w
push_parts-IsWindow stream (part ∷ parts) live w =
    let chunk : Chunk = record { cursor = live.next_output_cursor; stream = stream; text = part } in
    push_parts-IsWindow stream parts _ (record {
      counts =
          Counts-append live.output_floor_cursor live.next_output_cursor live.output chunk w.counts
            refl;
      bytes = omega (arith, w.bytes, bytes_of-append live.output chunk);
    })

drop_oldest-Counts :
    (limit from end : ℕ) (chunks : List Chunk) (retained : ℕ)
    → Counts from chunks end
    → retained ≡ bytes_of chunks
    → let (kept, bytes, _) = drop_oldest limit chunks retained in
      Counts (first_cursor kept end) kept end
      × (bytes ≡ bytes_of kept)
      × ((bytes ≤ limit) ⊎ (length kept ≤ 1))
unfolding drop_oldest
drop_oldest-Counts limit from end [] retained h e = (refl, e, inr (omega arith))
drop_oldest-Counts limit from end (x ∷ []) retained h e =
    ((refl, omega (arith, h.0, h.1)), e, inr (omega arith))
drop_oldest-Counts limit from end (x ∷ y ∷ rest) retained h e =
    let later =
      drop_oldest-Counts limit (suc from) end (y ∷ rest) (retained - byte_length x.text) h.1
        (omega (arith, e)) in
    elim (Bool-cases (ltb limit retained)) [
      | inl over ↦ rw over later
      | inr within ↦ rw within (
        (refl, subst (λ n. Counts (suc n) (y ∷ rest) end) (sym h.0) h.1),
        e,
        inl (ground (arith, within)),
      )
    ]

pub trim-IsWindow :
    (limit : ℕ) (live : Live)
    → IsWindow live
    → IsWindow (trim_live_output limit live)
      × (((trim_live_output limit live).retained_output_bytes ≤ limit)
          ⊎ (length (trim_live_output limit live).output ≤ 1))
unfolding trim_live_output
trim-IsWindow limit live window =
    let trimmed =
      drop_oldest-Counts limit live.output_floor_cursor live.next_output_cursor live.output
        live.retained_output_bytes window.counts window.bytes in
    (record { counts = trimmed.0; bytes = trimmed.1 }, trimmed.2)
