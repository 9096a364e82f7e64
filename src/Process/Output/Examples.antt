-- ===== src/Process/Output/Examples.antt =====
-- The live output of a Run in process-service.js, with small limits.
use Prim.Native.Char.{Char}
use agentdock_mcp_harness.Base.{◌≤◌, ◌≡◌, refl, ◌⊎◌, List, [], ◌∷◌, All, length, arith}
use agentdock_mcp_harness.Process.Output.{
  byte_length, split_loop, split_utf8_text, stdout, stderr, Live, Page, no_output, append, output,
  page_of,
}
use agentdock_mcp_harness.Process.Output.Parts.{join, split_utf8_text-parts}
use agentdock_mcp_harness.Process.Output.Written.{HoldsEndOf, append-HoldsEndOf}
use agentdock_mcp_harness.Process.Output.Reading.{IsPage, output-IsPage}

-- Six characters of one byte and two of two.
abbrev words : List Char
words = "a" ∷ "b" ∷ "é" ∷ "c" ∷ "d" ∷ "é" ∷ "e" ∷ "f" ∷ []

words_cut :
    split_utf8_text words 4
    ≡ ("a" ∷ "b" ∷ "é" ∷ []) ∷ ("c" ∷ "d" ∷ "é" ∷ []) ∷ ("e" ∷ "f" ∷ []) ∷ []
unfolding split_utf8_text split_loop
words_cut = refl

split_utf8_text-parts_example :
    (join (split_utf8_text words 4) ≡ words)
    × All (λ part. byte_length part ≤ 4) (split_utf8_text words 4)
split_utf8_text-parts_example = split_utf8_text-parts words 4 (omega arith)

no_output-HoldsEndOf : HoldsEndOf [] no_output
no_output-HoldsEndOf = record {
  window = record { counts = refl; bytes = refl };
  dropped = [];
  counts = refl;
  texts = λ s. refl;
  total = refl;
  truncated = refl;
}

abbrev once : Live
once = append 12 stdout words no_output

abbrev twice : Live
twice = append 12 stderr words once

once-HoldsEndOf : HoldsEndOf ((stdout, words) ∷ []) once
once-HoldsEndOf = (append-HoldsEndOf 12 [] stdout words no_output no_output-HoldsEndOf).0

append-HoldsEndOf_example :
    HoldsEndOf ((stdout, words) ∷ (stderr, words) ∷ []) twice
    × ((twice.retained_output_bytes ≤ 12) ⊎ (length twice.output ≤ 1))
append-HoldsEndOf_example =
    append-HoldsEndOf 12 ((stdout, words) ∷ []) stderr words once once-HoldsEndOf

-- The first text was dropped.
twice_floor : twice.output_floor_cursor ≡ 1
unfolding append
twice_floor = refl

abbrev first_page : Page
first_page = page_of twice 0 16384 1

output-IsPage_example : IsPage twice 0 first_page
unfolding output append
output-IsPage_example =
    output-IsPage twice 0 16384 1 first_page append-HoldsEndOf_example.0.window refl
