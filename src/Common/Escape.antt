-- ===== src/Common/Escape.antt =====
-- `EscapeBytes` and `RemoveBytes` of common/functions.go.
pub mod Laws
use go_syslog.Base.{
  ℕ, zero, suc, ◌+◌, ◌-◌, Option, none, some, List, [], ◌∷◌, ◌++◌, Bytes, Bool, true, false, ◌||◌,
  length, take, drop, ltb, leb, ◌==◌, if◌then◌else◌,
}
use go_syslog.Common.Utf8.{width}

-- A backslash, `]` or a double quote.
abbrev pub needs_escape : ℕ → Bool
needs_escape c = c == 92 || (c == 93 || c == 34)

-- What is written for the first byte of a character, of a width; U+FFFD for an invalid one.
abbrev written : ℕ → ℕ → Bytes → Bytes
written zero c later = 239 ∷ 191 ∷ 189 ∷ later
written (suc w) c later = if needs_escape c then 92 ∷ c ∷ later else c ∷ later

-- The loop over the characters; `skip` are the bytes left of one whose first byte is written.
unfoldable pub escape_loop : ℕ → Bytes → Bytes
unfolding width
escape_loop skip [] = []
escape_loop (suc skip) (c ∷ cs) = c ∷ escape_loop skip cs
escape_loop zero (c ∷ cs) = written (width c cs) c (escape_loop (width c cs - 1) cs)

-- `EscapeBytes`.
unfoldable pub escape_bytes : Bytes → Bytes
escape_bytes value = escape_loop 0 value

-- The loop of `RemoveBytes`: the copy without the byte at each position, less those removed
-- before; `none` is a slice that is out of range.
unfoldable pub remove_loop : ℕ → ℕ → List ℕ → Bytes → Option Bytes
remove_loop offset i [] cp = some cp
remove_loop offset i (pos ∷ positions) cp =
    let at = pos - i - offset in
    let later = remove_loop offset (suc i) positions (take at cp ++ drop (suc at) cp) in
    if ltb pos (i + offset) then none else if ltb at (length cp) then later else none

-- `RemoveBytes`.
unfoldable pub remove_bytes : Bytes → List ℕ → ℕ → Option Bytes
remove_bytes text positions offset = remove_loop offset 0 positions text
