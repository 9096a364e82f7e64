-- ===== src/Process/Output/Parts.antt =====
-- process-service.js: the parts of `splitUtf8Text`.
use Prim.Native.Char.{Char}
use agentdock_mcp_harness.Base.{
  ℕ, ◌+◌, ◌≤◌, false, not, ◌&&◌, ltb, leb, List, [], ◌∷◌, ◌++◌, All, arith, ◌≡◌, refl, ap, ◌∙◌,
  subst, Bool-cases, inl, inr,
}
use agentdock_mcp_harness.Process.Output.{
  char_bytes, byte_length, is_empty, split_loop, split_utf8_text,
}

abbrev pub join : List (List Char) → List Char
join [] = []
join (part ∷ parts) = part ++ join parts

++-assoc_lem : (xs ys zs : List Char) → (xs ++ ys) ++ zs ≡ xs ++ (ys ++ zs)
++-assoc_lem [] ys zs = refl
++-assoc_lem (x ∷ xs) ys zs = cc (++-assoc_lem xs ys zs)

++-nil_lem : (xs : List Char) → xs ++ [] ≡ xs
++-nil_lem [] = refl
++-nil_lem (x ∷ xs) = cc (++-nil_lem xs)

byte_length-append : (xs ys : List Char) → byte_length (xs ++ ys) ≡ byte_length xs + byte_length ys
byte_length-append [] ys = omega arith
byte_length-append (x ∷ xs) ys = omega (arith, byte_length-append xs ys)

join-split_loop :
    (limit bytes : ℕ) (chars text : List Char)
    → join (split_loop limit chars bytes text) ≡ chars ++ text
unfolding split_loop
join-split_loop limit bytes [] [] = refl
join-split_loop limit bytes (x ∷ chars) [] = refl
join-split_loop limit bytes chars (c ∷ text) =
    elim (Bool-cases (not (is_empty chars) && ltb limit (bytes + char_bytes c))) [
      | inl full ↦
          rw (full, join)
            (ap (λ t. chars ++ t) (join-split_loop limit (char_bytes c) (c ∷ []) text))
      | inr fits ↦
          rw (fits, join)
            (join-split_loop limit (bytes + char_bytes c) (chars ++ c ∷ []) text
              ∙ ++-assoc_lem chars (c ∷ []) text)
    ]

char_bytes-le : (c : Char) → char_bytes c ≤ 4
char_bytes-le c = ground arith

grown :
    (chars : List Char) (c : Char) (limit : ℕ)
    → 4 ≤ limit
    → byte_length chars ≤ limit
    → (not (is_empty chars) && ltb limit (byte_length chars + char_bytes c)) ≡ false
    → byte_length (chars ++ c ∷ []) ≤ limit
grown [] c limit wide h fits = omega (arith, char_bytes-le c, wide)
grown (x ∷ chars) c limit wide h fits =
    let total = byte_length-append (x ∷ chars) (c ∷ []) in ground (arith, total, fits)

split_loop-bytes :
    (limit : ℕ) (chars text : List Char)
    → 4 ≤ limit
    → byte_length chars ≤ limit
    → All (λ part. byte_length part ≤ limit) (split_loop limit chars (byte_length chars) text)
unfolding split_loop
split_loop-bytes limit [] [] wide h = tt
split_loop-bytes limit (x ∷ chars) [] wide h = (h, tt)
split_loop-bytes limit chars (c ∷ text) wide h =
    elim (Bool-cases (not (is_empty chars) && ltb limit (byte_length chars + char_bytes c))) [
      | inl full ↦
          rw (full, All)
            (
              h,
              subst (λ n. All (λ part. byte_length part ≤ limit) (split_loop limit (c ∷ []) n text))
                  (omega arith)
                  (split_loop-bytes limit (c ∷ []) text wide
                    (omega (arith, char_bytes-le c, wide))),
            )
      | inr fits ↦
          rw (fits, All)
            (subst
              (λ n.
                All (λ part. byte_length part ≤ limit) (split_loop limit (chars ++ c ∷ []) n text))
              (omega (arith, byte_length-append chars (c ∷ [])))
              (split_loop-bytes limit (chars ++ c ∷ []) text wide
                (grown chars c limit wide h fits)))
    ]

-- The parts of a text, joined, are the text.
pub join-split_utf8_text : (text : List Char) (limit : ℕ) → join (split_utf8_text text limit) ≡ text
unfolding split_utf8_text
join-split_utf8_text text limit = elim (Bool-cases (leb (byte_length text) limit)) [
  | inl short ↦ rw (short, join) (++-nil_lem text)
  | inr long ↦ rw (long, join) (join-split_loop limit 0 [] text)
]

pub split_utf8_text-bytes :
    (text : List Char) (limit : ℕ)
    → 4 ≤ limit
    → All (λ part. byte_length part ≤ limit) (split_utf8_text text limit)
unfolding split_utf8_text
split_utf8_text-bytes text limit wide = elim (Bool-cases (leb (byte_length text) limit)) [
  | inl short ↦ rw (short, All) (ground (arith, short), tt)
  | inr long ↦ rw (long, All) (split_loop-bytes limit [] text wide (omega arith))
]

-- `splitUtf8Text` cuts a text between its characters and loses none: joined, the parts are the text, and with a
-- limit of four bytes or more each of them is at most as long as the limit.
pub split_utf8_text-parts :
    (text : List Char) (limit : ℕ)
    → 4 ≤ limit
    → (join (split_utf8_text text limit) ≡ text)
      × All (λ part. byte_length part ≤ limit) (split_utf8_text text limit)
split_utf8_text-parts text limit wide =
    (join-split_utf8_text text limit, split_utf8_text-bytes text limit wide)
