-- ===== src/Nontransparent/Trailer.antt =====
-- nontransparent/trailer_type.go. A `TrailerType` is an `int`, and any `int` may be one.
use Prim.Native.Nat.{zero}
use go_syslog.Base.{
  sym, ◌∙◌, false, true, ◌++◌, suc, ℕ, ◌-◌, ◌≡◌, Option, none, some, [], ◌∷◌, map, Bytes, codes,
  Bool, ◌&&◌, ◌||◌, equal, leb, if◌then◌else◌,
}
use go_syslog.Base.Int.{ℤ, pos, negsuc}

abbrev pub TrailerType : Type 0
TrailerType = ℤ

-- `LF` and `NUL`.
abbrev pub lf : TrailerType
lf = pos 0

abbrev pub nul : TrailerType
nul = pos 1

-- `names[t]` and `bytes[t]` behind the range tests.
abbrev name : ℕ → Bytes
name zero = codes "LF"
name (suc zero) = codes "NUL"
name (suc (suc n)) = []

abbrev byte : ℕ → Option ℕ
byte zero = some 10
byte (suc zero) = some 0
byte (suc (suc n)) = none

-- `String`; the empty text for an unknown type.
abbrev pub string : TrailerType → Bytes
string (pos n) = name n
string (negsuc n) = []

-- `Value`; no byte is the error.
abbrev pub value : TrailerType → Option ℕ
value (pos n) = byte n
value (negsuc n) = none

-- `strings.ToUpper`, on ASCII letters. No other letter has an upper case that a name holds.
unfoldable pub to_upper : Bytes → Bytes
to_upper s = map (λ c. if leb 97 c && leb c 122 then c - 32 else c) s

-- A name, bare or in quotes of one kind.
abbrev quoted : Bytes → Bytes → Bool
quoted s n = equal s (34 ∷ (n ++ (34 ∷ []))) || (equal s (39 ∷ (n ++ (39 ∷ []))) || equal s n)

-- `TrailerTypeFromString`: the type, and whether there is no error.
unfoldable pub trailer_type_from_string : Bytes → TrailerType × Bool
unfolding equal
trailer_type_from_string s =
    if quoted (to_upper s) (codes "LF")
    then (lf, true)
    else if quoted (to_upper s) (codes "NUL")
    then (nul, true)
    else (negsuc 0, false)

-- `UnmarshalText` and `UnmarshalTOML`: what the receiver becomes, and whether there is no error.
unfoldable pub unmarshal_text : Bytes → TrailerType × Bool
unmarshal_text text = trailer_type_from_string text

abbrev non_empty_text : Bytes → Option Bytes
non_empty_text [] = none
non_empty_text (c ∷ cs) = some (c ∷ cs)

-- `MarshalText`.
unfoldable pub marshal_text : TrailerType → Option Bytes
marshal_text t = non_empty_text (string t)

some_inj : {a b : Bytes} → some a ≡ some b → a ≡ b
some_inj h = cc

-- What is marshalled is read back, in upper or lower case.
pub unmarshal_text-marshal_text :
    (t : TrailerType) {b : Bytes} (s : Bytes)
    → marshal_text t ≡ some b
    → to_upper s ≡ b
    → unmarshal_text s ≡ (t, true)
unfolding unmarshal_text marshal_text trailer_type_from_string equal
unmarshal_text-marshal_text (pos zero) s e h =
    let g : to_upper s ≡ codes "LF" = h ∙ sym (some_inj e) in rw g
unmarshal_text-marshal_text (pos (suc zero)) s e h =
    let g : to_upper s ≡ codes "NUL" = h ∙ sym (some_inj e) in rw g
unmarshal_text-marshal_text (pos (suc (suc n))) s e h = cc
unmarshal_text-marshal_text (negsuc n) s e h = cc
