-- ===== src/Prelude/Utf8.antt =====
-- `String::from_utf8`: which byte strings are UTF-8.
use Prim.Native.Nat.{ℕ, zero, suc}
use mathlib.Core.Bool.{Bool, true, false, ◌&&◌}
use mathlib.Core.Option.{Option, none, some}
use mathlib.Core.List.{List, [], ◌∷◌}
use bkndb.Prelude.Tests.{ltb, leb, ◌==◌, if◌then◌else◌}

-- What follows a first byte: how many bytes, and the range of the next one.
lead_byte : ℕ → Option (ℕ × ℕ × ℕ)
lead_byte b =
    if ltb b 0x80
    then some (0, 0x80, 0xbf)
    else if leb 0xc2 b && leb b 0xdf
    then some (1, 0x80, 0xbf)
    else if b == 0xe0
    then some (2, 0xa0, 0xbf)
    else if b == 0xed
    then some (2, 0x80, 0x9f)
    else if leb 0xe1 b && leb b 0xef
    then some (2, 0x80, 0xbf)
    else if b == 0xf0
    then some (3, 0x90, 0xbf)
    else if leb 0xf1 b && leb b 0xf3
    then some (3, 0x80, 0xbf)
    else if b == 0xf4
    then some (3, 0x80, 0x8f)
    else none

-- The bytes still due for the current character, and the range of the first of them.
utf8_from : ℕ → ℕ → ℕ → List ℕ → Bool
unfolding lead_byte
utf8_from zero lo hi [] = true
utf8_from (suc due) lo hi [] = false
utf8_from zero lo hi (b ∷ rest) = elim (lead_byte b) [
  | none ↦ false
  | some (due, lo', hi') ↦ utf8_from due lo' hi' rest
]
utf8_from (suc due) lo hi (b ∷ rest) = (leb lo b && leb b hi) && utf8_from due 0x80 0xbf rest

unfoldable pub is_utf8 : List ℕ → Bool
unfolding utf8_from
is_utf8 bytes = utf8_from 0 0x80 0xbf bytes
