-- ===== src/Common/Utf8.antt =====
-- UTF-8 as Go's `range` over a string decodes it, and as common/common.rl has it (RFC 3629).
use go_syslog.Base.{
  ℕ, ◌<◌, ◌≡◌, [], ◌∷◌, Bytes, Bool, true, false, ◌&&◌, leb, ltb, ◌==◌, if◌then◌else◌,
}

abbrev pub within : ℕ → ℕ → ℕ → Bool
within lo hi c = leb lo c && leb c hi

-- The range of the byte behind the first of a character.
abbrev pub low : ℕ → ℕ
low c = if c == 224 then 160 else if c == 240 then 144 else 128

abbrev pub high : ℕ → ℕ
high c = if c == 237 then 159 else if c == 244 then 143 else 191

abbrev tail1 : Bytes → Bool
tail1 [] = false
tail1 (b ∷ bs) = within 128 191 b

abbrev tail2 : Bytes → Bool
tail2 [] = false
tail2 (b ∷ bs) = within 128 191 b && tail1 bs

abbrev second : ℕ → (Bytes → Bool) → Bytes → Bool
second c more [] = false
second c more (b ∷ bs) = within (low c) (high c) b && more bs

-- The number of bytes of the character that a text starts with, and 0 if it starts with none.
unfoldable pub width : ℕ → Bytes → ℕ
width c bs =
    if ltb c 128
    then 1
    else if within 194 223 c
    then (if second c (λ _. true) bs then 2 else 0)
    else if within 224 239 c
    then (if second c tail1 bs then 3 else 0)
    else if within 240 244 c
    then (if second c tail2 bs then 4 else 0)
    else 0

-- A text of whole characters.
pub data IsUtf8 : Bytes → Type 0 where
  nil : IsUtf8 []
  one : (a : ℕ) (s : Bytes) → a < 128 → IsUtf8 s → IsUtf8 (a ∷ s)
  two :
      (a b : ℕ) (s : Bytes)
      → within 194 223 a ≡ true
      → within 128 191 b ≡ true
      → IsUtf8 s
      → IsUtf8 (a ∷ b ∷ s)
  three :
      (a b c : ℕ) (s : Bytes)
      → within 224 239 a ≡ true
      → within (low a) (high a) b ≡ true
      → within 128 191 c ≡ true
      → IsUtf8 s
      → IsUtf8 (a ∷ b ∷ c ∷ s)
  four :
      (a b c d : ℕ) (s : Bytes)
      → within 240 244 a ≡ true
      → within (low a) (high a) b ≡ true
      → within 128 191 c ≡ true
      → within 128 191 d ≡ true
      → IsUtf8 s
      → IsUtf8 (a ∷ b ∷ c ∷ d ∷ s)
