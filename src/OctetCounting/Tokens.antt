-- ===== src/OctetCounting/Tokens.antt =====
-- octetcounting/tokens.go.
use go_syslog.Base.{
  ℕ, suc, List, [], ◌∷◌, ◌++◌, Option, some, Bytes, codes, take, drop, get_elem?, ◌≡◌, refl,
}

-- `TokenType`, with its declared constants.
pub data TokenType : Type 0 where
  illegal eof lf ws msglen syslogmsg : TokenType

pub record Token : Type 0 where
  pub typ : TokenType
  pub lit : Bytes

-- The value that `iota` gives.
abbrev ordinal : TokenType → ℕ
ordinal illegal = 0
ordinal eof = 1
ordinal lf = 2
ordinal ws = 3
ordinal msglen = 4
ordinal syslogmsg = 5

abbrev tokentypename : Bytes
tokentypename = codes "ILLEGALEOFLFWSMSGLENSYSLOGMSG"

abbrev tokentypeindex : List ℕ
tokentypeindex = 0 ∷ 7 ∷ 10 ∷ 12 ∷ 14 ∷ 20 ∷ 29 ∷ []

abbrev slice : Bytes → Option ℕ → Option ℕ → Bytes
slice b (some i) (some j) = drop i (take j b)
slice b _ _ = []

-- `TokenType.String` at a declared constant.
unfoldable pub type_string : TokenType → Bytes
type_string i =
    slice tokentypename (get_elem? tokentypeindex (ordinal i))
      (get_elem? tokentypeindex (suc (ordinal i)))

-- `Token.String`.
unfoldable pub token_string : Token → Bytes
unfolding type_string
token_string t = elim t.typ [
  | ws ↦ type_string t.typ
  | eof ↦ type_string t.typ
  | other ↦ type_string t.typ ++ codes "(" ++ t.lit ++ codes ")"
]

-- The names that the index table cuts out of the one string.
type_string_names :
    (type_string illegal ≡ codes "ILLEGAL")
    × (type_string eof ≡ codes "EOF")
    × (type_string lf ≡ codes "LF")
    × (type_string ws ≡ codes "WS")
    × (type_string msglen ≡ codes "MSGLEN")
    × (type_string syslogmsg ≡ codes "SYSLOGMSG")
unfolding type_string
type_string_names = (refl, refl, refl, refl, refl, refl)
