-- ===== src/Rfc3195/Fields.antt =====
-- What rfc3195/frame.go uses of `bytes.Fields`: the text is cut at runs of white space, which is
-- ASCII white space and the UTF-8 encodings of the other code points that unicode.IsSpace accepts.
-- No such encoding can stand inside that of another code point, so it is found wherever it stands.
pub mod Laws
use go_syslog.Base.{
  ℕ, zero, suc, List, [], ◌∷◌, ◌++◌, Bytes, Bool, ◌&&◌, ◌||◌, leb, ◌==◌, if◌then◌else◌, codes, ◌≡◌,
  refl,
}

abbrev pub is_ascii_space : ℕ → Bool
is_ascii_space c = c == 32 || leb 9 c && leb c 13

abbrev two_bytes : ℕ → ℕ → Bool
two_bytes a b = a == 0xc2 && (b == 0x85 || b == 0xa0)

abbrev three_bytes : ℕ → ℕ → ℕ → Bool
three_bytes a b c =
    a == 0xe1 && (b == 0x9a && c == 0x80)
    || (a == 0xe2
          && (b == 0x80 && (leb 0x80 c && leb c 0x8a || (c == 0xa8 || (c == 0xa9 || c == 0xaf)))
              || b == 0x81 && c == 0x9f)
        || a == 0xe3 && (b == 0x80 && c == 0x80))

-- The length of the white space at the head of a text; 0 if there is none.
unfoldable pub space_width : Bytes → ℕ
space_width [] = 0
space_width (a ∷ []) = if is_ascii_space a then 1 else 0
space_width (a ∷ b ∷ []) = if is_ascii_space a then 1 else if two_bytes a b then 2 else 0
space_width (a ∷ b ∷ c ∷ rest) =
    if is_ascii_space a then 1 else if two_bytes a b then 2 else if three_bytes a b c then 3 else 0

-- A field is kept if it is not empty.
abbrev keep : Bytes → List Bytes → List Bytes
keep [] fields = fields
keep (c ∷ cs) fields = (c ∷ cs) ∷ fields

-- `skip` bytes of white space are still to be passed over, and `field` is the field so far.
unfoldable pub fields_loop : ℕ → Bytes → Bytes → List Bytes
fields_loop skip field [] = keep field []
fields_loop (suc skip) field (c ∷ cs) = fields_loop skip field cs
fields_loop zero field (c ∷ cs) = elim (space_width (c ∷ cs)) [
  | zero ↦ fields_loop zero (field ++ (c ∷ [])) cs
  | suc skip ↦ keep field (fields_loop skip [] cs)
]

-- `bytes.Fields`.
unfoldable pub fields : Bytes → List Bytes
unfolding fields_loop space_width
fields line = fields_loop 0 [] line

three_fields : fields (codes " MSG\t1  . ") ≡ codes "MSG" ∷ codes "1" ∷ codes "." ∷ []
unfolding fields
three_fields = refl

wide_space :
    fields (65 ∷ 0xe2 ∷ 0x80 ∷ 0x83 ∷ 66 ∷ 0xe2 ∷ 0x80 ∷ [])
    ≡ (65 ∷ []) ∷ (66 ∷ 0xe2 ∷ 0x80 ∷ []) ∷ []
unfolding fields
wide_space = refl
