-- ===== src/Rfc5424/Builder/Values.antt =====
-- The values of parameters: what the run over one notes, and what is stored of it.
use go_syslog.Base.{
  ◌||◌, ◌==◌, Option-cases, ℕ, suc, ◌+◌, ◌<◌, ◌≡◌, refl, sym, ap, ◌∙◌, inl, inr, Option, none, some,
  List, [], ◌∷◌, ◌++◌, Bytes, Bool, true, false, Bool-cases, length, arith, append_assoc,
  length-append,
}
use go_syslog.Common.Utf8.{within, low, high, IsUtf8, nil, one, two, three, four}
use go_syslog.Common.Escape.{escape_bytes, remove_loop, remove_bytes, needs_escape}
use go_syslog.Common.Escape.Laws.{
  escape_bytes-escaped, high_byte, first_byte, second_byte, remove_loop-cons, escaped, marks,
  remove_bytes-escaped,
}
use go_syslog.Rfc5424.Grammar.{
  ValueState, ready, tail1, e0, tail2, ed, f0, tail3, f4, value_step, mark, resume, scan_value,
}
use go_syslog.Rfc5424.Builder.Store.{strip_backslashes}

-- The text without the backslashes that the run of the automaton notes.
abbrev keep : (ValueState → Bytes) → ℕ → Option (ValueState × Bool) → Bytes
keep later c none = []
keep later c (some (st, true)) = later st
keep later c (some (st, false)) = c ∷ later st

unfoldable pub unescaped : ValueState → Bytes → Bytes
unfolding value_step
unescaped st [] = []
unescaped st (c ∷ cs) = keep (λ st. unescaped st cs) c (value_step st c)

-- What a run on a text gives for removals behind `out`.
Removes : ValueState → Bytes → Type 0
Removes st cs =
    (out : Bytes) (i p : ℕ) (ps : List ℕ)
    → p ≡ length out + i
    → scan_value st p cs ≡ some ps
    → remove_loop 0 i ps (out ++ cs) ≡ some (out ++ unescaped st cs)

Removes-nil : (st : ValueState) → Removes st []
unfolding Removes scan_value unescaped
Removes-nil ready out i p [] e h = unfold remove_loop in refl
Removes-nil ready out i p (q ∷ ps) e h = absurd (ground arith)
Removes-nil st out i p ps e h = absurd (ground arith)

-- One byte more, when the rest is done.
Removes-cons :
    (c : ℕ) (cs : Bytes) (r : Option (ValueState × Bool))
    → ((st : ValueState) → Removes st cs)
    → (out : Bytes) (i p : ℕ) (ps : List ℕ) → p ≡ length out + i
    → resume (λ st. scan_value st (suc p) cs) p r ≡ some ps
    → remove_loop 0 i ps (out ++ (c ∷ cs)) ≡ some (out ++ keep (λ st. unescaped st cs) c r)
unfolding Removes
Removes-cons c cs none ih out i p ps e h = absurd (ground arith)
Removes-cons c cs (some (st, false)) ih out i p ps e h =
    elim (Option-cases (scan_value st (suc p) cs)) [
      | inl n ↦ absurd (ground (arith, n, h))
      | inr (qs, y) ↦
          let k : qs ≡ ps = ground (arith, y, h) in
          ap (λ t. remove_loop 0 i ps t) (sym (append_assoc out (c ∷ []) cs))
          ∙ ih st (out ++ (c ∷ [])) i (suc p) ps (omega (arith, length-append out (c ∷ [])))
              (y ∙ ap some k)
          ∙ ap some (append_assoc out (c ∷ []) (unescaped st cs))
    ]
Removes-cons c cs (some (st, true)) ih out i p ps e h =
    elim (Option-cases (scan_value st (suc p) cs)) [
      | inl n ↦ absurd (ground (arith, n, h))
      | inr (qs, y) ↦
          let k : p ∷ qs ≡ ps = ground (arith, y, h) in
          ap (λ t. remove_loop 0 i t (out ++ (c ∷ cs))) (sym k)
          ∙ remove_loop-cons i c out cs qs p e
          ∙ ih st out (suc i) (suc p) qs (omega arith) y
    ]

Removes-suc :
    (st : ValueState) (c : ℕ) (cs : Bytes)
    → ((st : ValueState) → Removes st cs)
    → Removes st (c ∷ cs)
unfolding Removes scan_value unescaped
Removes-suc st c cs ih out i p ps e h = Removes-cons c cs (value_step st c) ih out i p ps e h

removes : (st : ValueState) (cs : Bytes) → Removes st cs
removes st [] = Removes-nil st
removes st (c ∷ cs) = Removes-suc st c cs (λ st'. removes st' cs)

trim :
    (value text : Bytes) (ps : List ℕ)
    → remove_loop 0 0 ps value ≡ some text
    → strip_backslashes ps value ≡ some text
unfolding strip_backslashes remove_bytes
trim value text [] h = unfold remove_loop in h
trim value text (p ∷ ps) h = h

-- If the automaton accepts a value, removing the backslashes that it noted is never out of range,
-- and leaves the value without them.
pub strip_backslashes-unescaped :
    (value : Bytes) (ps : List ℕ)
    → scan_value ready 0 value ≡ some ps
    → strip_backslashes ps value ≡ some (unescaped ready value)
strip_backslashes-unescaped value ps h =
    trim value _ ps (unfold Removes in removes ready value [] 0 0 ps (omega arith) h)

-- The escaped text from a state on is accepted, and its backslashes are those that are noted.
Marks : ValueState → ℕ → Bytes → Type 0
Marks st p v = scan_value st p (escaped v) ≡ some (marks p v)

mark-false : (p : ℕ) (r : Option (List ℕ)) → mark false p r ≡ r
mark-false p none = refl
mark-false p (some ps) = refl

Marks-plain :
    (c : ℕ) (cs : Bytes) (st st' : ValueState) (p : ℕ)
    → needs_escape c ≡ false
    → value_step st c ≡ some (st', false)
    → Marks st' (suc p) cs
    → Marks st p (c ∷ cs)
unfolding Marks scan_value escaped marks
Marks-plain c cs st st' p n e h = rw (n, e) (mark-false p (scan_value st' (suc p) (escaped cs)) ∙ h)

Marks-escaped :
    (c : ℕ) (cs : Bytes) (p : ℕ)
    → needs_escape c ≡ true
    → Marks ready (suc (suc p)) cs
    → Marks ready p (c ∷ cs)
unfolding Marks scan_value escaped marks value_step
Marks-escaped c cs p n h =
    let f : (c == 34 || within 92 93 c) ≡ true = ground (arith, n) in
    rw (n, f) (ap (λ r. mark true p (mark false (suc p) r)) h)

step_one : (a : ℕ) → a < 128 → needs_escape a ≡ false → value_step ready a ≡ some (ready, false)
unfolding value_step
step_one a h n = ground (arith, n)

step_two : (a : ℕ) → within 194 223 a ≡ true → value_step ready a ≡ some (tail1, false)
unfolding value_step
step_two a h = ground arith

step_tail1 : (b : ℕ) → within 128 191 b ≡ true → value_step tail1 b ≡ some (ready, false)
unfolding value_step
step_tail1 b h = ground arith

step_tail2 : (b : ℕ) → within 128 191 b ≡ true → value_step tail2 b ≡ some (tail1, false)
unfolding value_step
step_tail2 b h = ground arith

Marks-tail1 :
    (b : ℕ) (cs : Bytes) (p : ℕ)
    → within 128 191 b ≡ true
    → Marks ready (suc p) cs
    → Marks tail1 p (b ∷ cs)
Marks-tail1 b cs p k h = Marks-plain b cs tail1 ready p (high_byte b k) (step_tail1 b k) h

-- The state behind the first byte of three or four takes just the second bytes that fit it.
step_three :
    (a : ℕ)
    → within 224 239 a ≡ true
    → (st : ValueState) × (value_step ready a ≡ some (st, false))
      × ((b : ℕ) → within (low a) (high a) b ≡ true → value_step st b ≡ some (tail1, false))
unfolding value_step
step_three a h = elim (Bool-cases (a == 224)) [
  | inl y ↦ (e0, ground (arith, y), λ b k. ground (arith, y, k))
  | inr n ↦ elim (Bool-cases (a == 237)) [
    | inl y ↦ (ed, ground (arith, y), λ b k. ground (arith, y, k))
    | inr m ↦ (tail2, ground (arith, n, m, h), λ b k. ground (arith, n, m, k))
  ]
]

step_four :
    (a : ℕ)
    → within 240 244 a ≡ true
    → (st : ValueState) × (value_step ready a ≡ some (st, false))
      × ((b : ℕ) → within (low a) (high a) b ≡ true → value_step st b ≡ some (tail2, false))
unfolding value_step
step_four a h = elim (Bool-cases (a == 240)) [
  | inl y ↦ (f0, ground (arith, y), λ b k. ground (arith, y, k))
  | inr n ↦ elim (Bool-cases (a == 244)) [
    | inl y ↦ (f4, ground (arith, y), λ b k. ground (arith, y, k))
    | inr m ↦ (tail3, ground (arith, n, m, h), λ b k. ground (arith, n, m, k))
  ]
]

scan_value-escaped : (v : Bytes) (p : ℕ) → IsUtf8 v → Marks ready p v
scan_value-escaped _ p nil = unfold Marks scan_value escaped marks in refl
scan_value-escaped _ p (one a s h u) = elim (Bool-cases (needs_escape a)) [
  | inl y ↦ Marks-escaped a s p y (scan_value-escaped s (suc (suc p)) u)
  | inr n ↦ Marks-plain a s ready ready p n (step_one a h n) (scan_value-escaped s (suc p) u)
]
scan_value-escaped _ p (two a b s h k u) =
    Marks-plain a (b ∷ s) ready tail1 p (first_byte a (ground arith)) (step_two a h)
      (Marks-tail1 b s (suc p) k (scan_value-escaped s (suc (suc p)) u))
scan_value-escaped _ p (three a b c s h k l u) =
    let (st, e, f) = step_three a h in
    Marks-plain a (b ∷ c ∷ s) ready st p (first_byte a (ground arith)) e (
      Marks-plain b (c ∷ s) st tail1 (suc p) (second_byte a b k) (f b k)
        (Marks-tail1 c s (suc (suc p)) l (scan_value-escaped s (suc (suc (suc p))) u)))
scan_value-escaped _ p (four a b c d s h k l m u) =
    let (st, e, f) = step_four a h in
    Marks-plain a (b ∷ c ∷ d ∷ s) ready st p (first_byte a (ground arith)) e (
      Marks-plain b (c ∷ d ∷ s) st tail2 (suc p) (second_byte a b k) (f b k) (
        Marks-plain c (d ∷ s) tail2 tail1 (suc (suc p)) (high_byte c l) (step_tail2 c l) (
          Marks-tail1 d s (suc (suc (suc p))) m
            (scan_value-escaped s (suc (suc (suc (suc p)))) u))))

pub scan_value-escape_bytes :
    (v : Bytes) → IsUtf8 v → scan_value ready 0 (escape_bytes v) ≡ some (marks 0 v)
scan_value-escape_bytes v u =
    ap (scan_value ready 0) (escape_bytes-escaped v u) ∙ (unfold Marks in scan_value-escaped v 0 u)

-- Escaping and taking the noted backslashes out again.
pub unescaped-escape_bytes : (v : Bytes) → IsUtf8 v → unescaped ready (escape_bytes v) ≡ v
unescaped-escape_bytes v u =
    let e = escape_bytes-escaped v u in
    let left =
      strip_backslashes-unescaped (escape_bytes v) (marks 0 v) (scan_value-escape_bytes v u) in
    let right = trim (escape_bytes v) v (marks 0 v) (
      ap (λ t. remove_loop 0 0 (marks 0 v) t) e
      ∙ (unfold remove_bytes in remove_bytes-escaped v)) in
    ground (arith, left, right)
