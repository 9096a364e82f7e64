-- ===== src/Base/Text.antt =====
-- `String.prototype.trim`, over the characters of a text.
use Prim.Native.Nat.{ℕ}
use Prim.Native.Char.{code}
use Prim.Native.String.{String}
use mathlib.Core.Path.{◌≡◌, refl}
use mathlib.Core.Bool.{Bool, true, false, ◌||◌, ◌&&◌}
use agentdock_mcp_harness.Base.Tests.{◌==◌, leb, if◌then◌else◌}

-- White space and line terminators of ECMAScript.
pub is_space : ℕ → Bool
is_space c =
    (leb 9 c && leb c 13)
    || c == 32
    || c == 160
    || c == 5760
    || (leb 8192 c && leb c 8202)
    || c == 8232
    || c == 8233
    || c == 8239
    || c == 8287
    || c == 12288
    || c == 65279

trim_start : String → String
trim_start String.[] = ""
trim_start (String.◌∷◌ c s) =
    let rest = trim_start s in if is_space (code c) then rest else String.◌∷◌ c s

-- One character in front of a text whose end is trimmed.
trim_cons : Bool → String → String → String
trim_cons true kept String.[] = ""
trim_cons _ kept _ = kept

trim_end : String → String
trim_end String.[] = ""
trim_end (String.◌∷◌ c s) =
    let rest = trim_end s in trim_cons (is_space (code c)) (String.◌∷◌ c rest) rest

unfoldable pub trim : String → String
unfolding is_space trim_start trim_cons trim_end
trim s = trim_end (trim_start s)

-- `Boolean(s)`: only the empty text is falsy.
abbrev pub truthy : String → Bool
truthy String.[] = false
truthy (String.◌∷◌ _ _) = true

trim_both : trim "  a b\n" ≡ "a b"
unfolding trim
trim_both = refl
