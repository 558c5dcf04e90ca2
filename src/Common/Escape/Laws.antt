-- ===== src/Common/Escape/Laws.antt =====
-- Escaping, and removing the backslashes again.
use go_syslog.Base.{
  ◌≤◌, lt→ltb, if◌then◌else◌, ltb, ℕ, suc, ◌+◌, ◌-◌, ◌<◌, ◌≡◌, refl, sym, ap, ◌∙◌, inl, inr, some,
  List, [], ◌∷◌, ◌++◌, Bytes, true, false, Bool-cases, length, drop, arith, append_assoc,
  length-append, take-length-append,
}
use go_syslog.Common.Utf8.{width, within, low, high, IsUtf8, nil, one, two, three, four}
use go_syslog.Common.Escape.{needs_escape, escape_loop, escape_bytes, remove_loop, remove_bytes}

pub drop-suc :
    (out : Bytes) (c : ℕ) (rest : Bytes) → drop (suc (length out)) (out ++ (c ∷ rest)) ≡ rest
drop-suc [] c rest = refl
drop-suc (b ∷ out) c rest = drop-suc out c rest

length-middle : (out : Bytes) (c : ℕ) (rest : Bytes) → length out < length (out ++ (c ∷ rest))
length-middle out c rest = omega (arith, length-append out (c ∷ rest))

-- A removal of the byte behind `out`.
pub remove_loop-cons :
    (i c : ℕ) (out rest : Bytes) (positions : List ℕ) (p : ℕ)
    → p ≡ length out + i
    → remove_loop 0 i (p ∷ positions) (out ++ (c ∷ rest))
      ≡ remove_loop 0 (suc i) positions (out ++ rest)
unfolding remove_loop
remove_loop-cons i c out rest positions p e =
    let a : ltb p (i + 0) ≡ false = ground arith in
    let b : ltb (length out) (length (out ++ (c ∷ rest))) ≡ true =
      lt→ltb (length out) (length (out ++ (c ∷ rest))) (length-middle out c rest) in
    let d : p - i - 0 ≡ length out = omega arith in
    rw (a, d, b, take-length-append out (c ∷ rest), drop-suc out c rest)

-- Each byte that needs it with a backslash in front.
unfoldable pub escaped : Bytes → Bytes
escaped [] = []
escaped (c ∷ cs) = if needs_escape c then 92 ∷ c ∷ escaped cs else c ∷ escaped cs

-- The positions of the backslashes, from `p` on.
unfoldable pub marks : ℕ → Bytes → List ℕ
marks p [] = []
marks p (c ∷ cs) = if needs_escape c then p ∷ marks (suc (suc p)) cs else marks (suc p) cs

remove_loop-escaped :
    (v out : Bytes) (i p : ℕ)
    → p ≡ length out + i
    → remove_loop 0 i (marks p v) (out ++ escaped v) ≡ some (out ++ v)
unfolding escaped marks
remove_loop-escaped [] out i p e = unfold remove_loop in refl
remove_loop-escaped (c ∷ cs) out i p e =
    let ih = λ (i p : ℕ) (e : p ≡ length (out ++ (c ∷ [])) + i).
      remove_loop-escaped cs (out ++ (c ∷ [])) i p e in
    let len = length-append out (c ∷ []) in
    elim (Bool-cases (needs_escape c)) [
      | inl y ↦ rw y (
          remove_loop-cons i 92 out (c ∷ escaped cs) (marks (suc (suc p)) cs) p e
          ∙ ap (λ t. remove_loop 0 (suc i) (marks (suc (suc p)) cs) t)
              (sym (append_assoc out (c ∷ []) (escaped cs)))
          ∙ ih (suc i) (suc (suc p)) (omega (arith, len))
          ∙ ap some (append_assoc out (c ∷ []) cs))
      | inr n ↦ rw n (
          ap (λ t. remove_loop 0 i (marks (suc p) cs) t)
            (sym (append_assoc out (c ∷ []) (escaped cs)))
          ∙ ih i (suc p) (omega (arith, len))
          ∙ ap some (append_assoc out (c ∷ []) cs))
    ]

-- The bytes behind the first of a character need no escape.
pub high_byte : (b : ℕ) → within 128 191 b ≡ true → needs_escape b ≡ false
high_byte b h = ground arith

pub first_byte : (a : ℕ) → 194 ≤ a → needs_escape a ≡ false
first_byte a h = ground arith

width-one : (a : ℕ) (s : Bytes) → a < 128 → width a s ≡ 1
unfolding width
width-one a s h = let f1 : ltb a 128 ≡ true = ground arith in rw f1

width-two :
    (a b : ℕ) (s : Bytes) → within 194 223 a ≡ true → within 128 191 b ≡ true → width a (b ∷ s) ≡ 2
unfolding width
width-two a b s h k =
    let f1 : ltb a 128 ≡ false = ground arith in
    let f2 : within (low a) (high a) b ≡ true = ground arith in rw (f1, h, f2)

width-three :
    (a b c : ℕ) (s : Bytes)
    → within 224 239 a ≡ true
    → within (low a) (high a) b ≡ true
    → within 128 191 c ≡ true
    → width a (b ∷ c ∷ s) ≡ 3
unfolding width
width-three a b c s h k l =
    let f1 : ltb a 128 ≡ false = ground arith in
    let f2 : within 194 223 a ≡ false = ground arith in rw (f1, f2, h, k, l)

width-four :
    (a b c d : ℕ) (s : Bytes)
    → within 240 244 a ≡ true
    → within (low a) (high a) b ≡ true
    → within 128 191 c ≡ true
    → within 128 191 d ≡ true
    → width a (b ∷ c ∷ d ∷ s) ≡ 4
unfolding width
width-four a b c d s h k l m =
    let f1 : ltb a 128 ≡ false = ground arith in
    let f2 : within 194 223 a ≡ false = ground arith in
    let f3 : within 224 239 a ≡ false = ground arith in rw (f1, f2, f3, h, k, l, m)

pub second_byte : (a b : ℕ) → within (low a) (high a) b ≡ true → needs_escape b ≡ false
second_byte a b h = ground arith

-- The first byte of a character of some width that needs no escape.
escape_loop-first :
    (a w : ℕ) (s : Bytes)
    → width a s ≡ suc w
    → needs_escape a ≡ false
    → escape_loop 0 (a ∷ s) ≡ a ∷ escape_loop w s
unfolding escape_loop
escape_loop-first a w s e n = rw (e, n) (ap (λ k. a ∷ escape_loop k s) (omega arith))

-- On text in UTF-8 `EscapeBytes` puts a backslash in front of each byte that needs it, and nothing
-- else.
pub escape_bytes-escaped : (v : Bytes) → IsUtf8 v → escape_bytes v ≡ escaped v
unfolding escape_bytes escape_loop escaped
escape_bytes-escaped _ nil = refl
escape_bytes-escaped _ (one a s h u) = elim (Bool-cases (needs_escape a)) [
  | inl y ↦ rw (width-one a s h, y) (ap (λ t. 92 ∷ a ∷ t) (escape_bytes-escaped s u))
  | inr n ↦
      escape_loop-first a 0 s (width-one a s h) n
      ∙ rw n (ap (λ t. a ∷ t) (escape_bytes-escaped s u))
]
escape_bytes-escaped _ (two a b s h k u) =
    escape_loop-first a 1 (b ∷ s) (width-two a b s h k) (first_byte a (ground arith))
    ∙ (rw (first_byte a (ground arith), high_byte b k)
        (ap (λ t. a ∷ b ∷ t) (escape_bytes-escaped s u)))
escape_bytes-escaped _ (three a b c s h k l u) =
    escape_loop-first a 2 (b ∷ c ∷ s) (width-three a b c s h k l) (first_byte a (ground arith))
    ∙ (rw (first_byte a (ground arith), second_byte a b k, high_byte c l)
        (ap (λ t. a ∷ b ∷ c ∷ t) (escape_bytes-escaped s u)))
escape_bytes-escaped _ (four a b c d s h k l m u) =
    escape_loop-first a 3 (b ∷ c ∷ d ∷ s) (width-four a b c d s h k l m)
      (first_byte a (ground arith))
    ∙ (rw (first_byte a (ground arith), second_byte a b k, high_byte c l, high_byte d m)
        (ap (λ t. a ∷ b ∷ c ∷ d ∷ t) (escape_bytes-escaped s u)))

-- Removing the backslashes that it added gives the text back.
pub remove_bytes-escaped : (v : Bytes) → remove_bytes (escaped v) (marks 0 v) 0 ≡ some v
unfolding remove_bytes
remove_bytes-escaped v = remove_loop-escaped v [] 0 0 (omega arith)
