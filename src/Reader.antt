-- ===== src/Reader.antt =====
-- What the framing layers use of the standard library's `bufio.Reader` and `io.ReadFull`.
-- `rest` are the bytes that the reader will still deliver, those of its buffer included, before
-- the source ends or fails; `last` is the byte that `UnreadByte` may put back; `size` is the
-- capacity of the buffer. A source that failed is taken to fail again when it is asked again.
use go_syslog.Base.{
  ℕ, Option, none, some, [], ◌∷◌, Bytes, Bool, true, false, length, take, drop, ltb, ◌==◌,
  if◌then◌else◌,
}

pub record Reader : Type 0 where
  pub rest : Bytes
  pub last : Option ℕ
  pub size : ℕ

-- `ReadByte`; no byte at the end of the source.
abbrev read_byte_of : Bytes → Reader → Option ℕ × Reader
read_byte_of [] r = (none, r)
read_byte_of (b ∷ bs) r = (some b, record r { rest = bs; last = some b })

abbrev pub read_byte : Reader → Option ℕ × Reader
read_byte r = read_byte_of r.rest r

abbrev unread_byte_of : Option ℕ → Reader → Reader
unread_byte_of none r = r
unread_byte_of (some b) r = record r { rest = b ∷ r.rest; last = none }

-- `UnreadByte`, whose error the program drops.
abbrev pub unread_byte : Reader → Reader
unread_byte r = unread_byte_of r.last r

-- `Peek(n)`: the bytes, whether there are n of them, and the reader.
unfoldable pub peek : ℕ → Reader → Bytes × Bool × Reader
peek n r =
    let r' : Reader = record r { last = none } in
    if ltb r.size n
    then (take r.size r.rest, false, r')
    else if ltb (length r.rest) n
    then (r.rest, false, r')
    else (take n r.rest, true, r')

-- `Discard(n)` behind a successful `Peek(n)`.
unfoldable pub discard : ℕ → Reader → Reader
discard n r = record r { rest = drop n r.rest; last = none }

-- `bytes.TrimSuffix(b, suffix)` at the two-byte suffix CRLF.
unfoldable pub trim_crlf : Bytes → Bytes
trim_crlf [] = []
trim_crlf (a ∷ []) = a ∷ []
trim_crlf (a ∷ b ∷ []) = if a == 13 then (if b == 10 then [] else a ∷ b ∷ []) else a ∷ b ∷ []
trim_crlf (a ∷ b ∷ c ∷ cs) = a ∷ trim_crlf (b ∷ c ∷ cs)

-- `ReadBytes('\n')`: the bytes up to the line feed, and whether it was found.
unfoldable pub read_line : Bytes → Bytes × Bool × Bytes
read_line [] = ([], false, [])
read_line (b ∷ bs) =
    let (line, found, rest) = read_line bs in
    if b == 10 then (b ∷ [], true, bs) else (b ∷ line, found, rest)

-- `io.ReadFull` into a slice of n bytes: the bytes, whether all were there, and what is left.
unfoldable pub read_full : ℕ → Bytes → Bytes × Bool × Bytes
read_full n source =
    if ltb (length source) n then (source, false, []) else (take n source, true, drop n source)
