-- ===== src/Rfc5424/Automaton/Numbers.antt =====
-- The numbers that the automaton of rfc5424/machine.go reads: the priority and the version.
use go_syslog.Base.{
  ℕ, zero, suc, ◌+◌, ◌*◌, ◌-◌, ◌≤◌, ◌≡◌, refl, ap, Option, none, some, [], ◌∷◌, ◌++◌, Bytes, Bool,
  true, false, All, arith, ◌==◌,
}
use go_syslog.Common.{valid_priority, valid_version, in_between}
use go_syslog.Base.Int.{bits}
use go_syslog.Common.Decimal.{conversion-small, value}
use go_syslog.Strconv.Decimal.{IsDigit}
use go_syslog.Common.Utf8.{within}
use go_syslog.Rfc5424.Automaton.Fine.{PriGood, Good, Fine, Fine-bind, Fine-if, Fine-on, byte-Fine}
use go_syslog.Rfc5424.Automaton.Steps.{Cursor, Step, is_digit}
use go_syslog.Rfc5424.Automaton.Header.{
  version, version_end, version_at, message_body, pri, prival, Prival, empty, one, two, nineteen,
  close, set_version, value_of, prival_step, next_prival, leave_prival, closes,
}
use go_syslog.Rfc5424.Builder.Store.{Elements}
use go_syslog.Rfc5424.Message.{Draft}

-- Digits with a value up to a bound.
record UpTo (bound : ℕ) (text : Bytes) : Type 0 where
  pub digits : All IsDigit text
  pub bounded : value 0 text ≤ bound

value-snoc : (n c : ℕ) (text : Bytes) → value n (text ++ (c ∷ [])) ≡ value n text * 10 + (c - 48)
value-snoc n c [] = refl
value-snoc n c (d ∷ text) = value-snoc (n * 10 + (d - 48)) c text

All-snoc : (c : ℕ) (text : Bytes) → All IsDigit text → IsDigit c → All IsDigit (text ++ (c ∷ []))
All-snoc c [] h k = (k, tt)
All-snoc c (d ∷ text) (h, hs) k = (h, All-snoc c text hs k)

-- One more digit.
UpTo-snoc :
    (b b' c : ℕ) (text : Bytes)
    → UpTo b text
    → is_digit c ≡ true
    → b * 10 + (c - 48) ≤ b'
    → UpTo b' (text ++ (c ∷ []))
UpTo-snoc b b' c text w h k = record {
  digits = All-snoc c text w.digits (ground arith);
  bounded = omega (arith, value-snoc 0 c text, w.bounded);
}

priority_of : (text : Bytes) → UpTo 191 text → valid_priority (value_of 256 text) ≡ true
unfolding valid_priority in_between
priority_of text w =
    let e = ap bits (conversion-small text w.digits (omega (arith, w.bounded))) in
    let f : value_of 256 text ≤ 191 = omega (arith, e, w.bounded) in ground (arith, f)

version_of :
    (text : Bytes) → UpTo 999 text → 1 ≤ value 0 text → valid_version (value_of 65536 text) ≡ true
unfolding valid_version in_between
version_of text w h =
    let e = ap bits (conversion-small text w.digits (omega (arith, w.bounded))) in
    let f : value_of 65536 text ≡ value 0 text = omega (arith, e, w.bounded) in
    ground (arith, f, w.bounded)

-- The largest value in a state.
abbrev bound : Prival → ℕ
bound empty = 0
bound one = 1
bound two = 18
bound nineteen = 19
bound close = 191

prival_case :
    (st st' : Prival) (c : ℕ) (text : Bytes)
    → UpTo (bound st) text
    → is_digit c ≡ true
    → bound st * 10 + (c - 48) ≤ bound st'
    → UpTo (bound st') (text ++ (c ∷ []))
prival_case st st' c text w h k = UpTo-snoc (bound st) (bound st') c text w h k

prival_step-UpTo :
    (st st' : Prival) (c : ℕ) (text : Bytes)
    → UpTo (bound st) text
    → prival_step st c ≡ some st'
    → UpTo (bound st') (text ++ (c ∷ []))
prival_step-UpTo empty st' c text w h =
    prival_case empty st' c text w (ground (arith, h)) (ground (arith, h))
prival_step-UpTo one st' c text w h =
    prival_case one st' c text w (ground (arith, h)) (ground (arith, h))
prival_step-UpTo two st' c text w h =
    prival_case two st' c text w (ground (arith, h)) (ground (arith, h))
prival_step-UpTo nineteen st' c text w h =
    prival_case nineteen st' c text w (ground (arith, h)) (ground (arith, h))
prival_step-UpTo close st' c text w h = absurd (ground (arith, h))

bound-191 : (st : Prival) → bound st ≤ 191
bound-191 empty = omega arith
bound-191 one = omega arith
bound-191 two = omega arith
bound-191 nineteen = omega arith
bound-191 close = omega arith

UpTo-191 : (st : Prival) (text : Bytes) → UpTo (bound st) text → UpTo 191 text
UpTo-191 st text w = record { digits = w.digits; bounded = omega (arith, bound-191 st, w.bounded) }

-- The largest version in a state, by the digits that may follow.
abbrev most : ℕ → ℕ
most zero = 999
most (suc zero) = 99
most (suc (suc n)) = 9

most-999 : (n : ℕ) → most n ≤ 999
most-999 zero = omega arith
most-999 (suc zero) = omega arith
most-999 (suc (suc n)) = omega arith

most-step : (n c : ℕ) → suc n ≤ 2 → is_digit c ≡ true → most (suc n) * 10 + (c - 48) ≤ most n
most-step zero c h k = ground arith
most-step (suc zero) c h k = ground arith
most-step (suc (suc n)) c h k = absurd (omega arith)

value-grows : (c : ℕ) (text : Bytes) → 1 ≤ value 0 text → 1 ≤ value 0 (text ++ (c ∷ []))
value-grows c text h = omega (arith, value-snoc 0 c text)

module _ {Time : Type 0} where
  next_prival-Fine :
      (next : Prival → Step Time) (b : Bool) (p : ℕ) (cs : Bytes) (out : Draft Time Elements)
      (o : Option Prival)
      → (b ≡ true → PriGood out)
      → ((st : Prival) → o ≡ some st → Fine PriGood (next st))
      → Fine PriGood (next_prival next b p cs out o)
  next_prival-Fine next true p cs out o h k = h refl
  next_prival-Fine next false p cs out none h k = tt
  next_prival-Fine next false p cs out (some st) h k = k st refl

  leave_prival-PriGood :
      (st : Prival) (c : ℕ) (text : Bytes) (out : Draft Time Elements)
      → UpTo (bound st) text
      → closes st c ≡ true
      → PriGood (leave_prival st text out)
  leave_prival-PriGood empty c text out w h = absurd (ground (arith, h))
  leave_prival-PriGood one c text out w h = λ _. priority_of text (UpTo-191 one text w)
  leave_prival-PriGood two c text out w h = λ _. priority_of text (UpTo-191 two text w)
  leave_prival-PriGood nineteen c text out w h = λ _. priority_of text (UpTo-191 nineteen text w)
  leave_prival-PriGood close c text out w h = λ _. priority_of text (UpTo-191 close text w)

  prival-Fine :
      (st : Prival) (text : Bytes) (p : ℕ) (cs : Bytes) (out : Draft Time Elements)
      → UpTo (bound st) text
      → Fine PriGood (prival st text p cs out)
  unfolding prival
  prival-Fine st text p [] out w = tt
  prival-Fine st text p (c ∷ cs) out w =
      next_prival-Fine (λ st'. prival st' (text ++ (c ∷ [])) (suc p) cs (leave_prival st text out))
        (closes st c) p cs (leave_prival st text out) (prival_step st c)
        (leave_prival-PriGood st c text out w)
        (λ st' e.
          prival-Fine st' (text ++ (c ∷ [])) (suc p) cs (leave_prival st text out)
            (prival_step-UpTo st st' c text w e))

  pub pri-Fine : (c : Cursor Time) → PriGood c.output → Fine PriGood (pri c)
  unfolding pri
  pri-Fine c h = Fine-bind PriGood PriGood _ _ (byte-Fine PriGood _ _ c h) (λ d k.
      prival-Fine empty [] d.at d.rest d.output (record { digits = tt; bounded = omega arith }))

  version_end-Fine :
      (n : ℕ) (text : Bytes) (p : ℕ) (out : Draft Time Elements)
      → Fine Good (version_end n text p out)
  version_end-Fine zero text p out = tt
  version_end-Fine (suc zero) text p out = tt
  version_end-Fine (suc (suc n)) text p out = tt

  version-Fine :
      (n : ℕ) (text : Bytes) (p : ℕ) (cs : Bytes) (out : Draft Time Elements)
      → n ≤ 2
      → UpTo (most n) text
      → 1 ≤ value 0 text
      → PriGood out
      → Fine Good (version n text p cs out)
  unfolding version
  version-Fine n text p [] out m w h k = version_end-Fine n text p out
  version-Fine zero text p (c ∷ cs) out m w h k =
      Fine-if Good (c == 32) _ _ (version_of text w h, k) tt
  version-Fine (suc n) text p (c ∷ cs) out m w h k =
      let known : UpTo 999 text = record {
        digits = w.digits;
        bounded = omega (arith, most-999 (suc n), w.bounded);
      } in
      let ih = λ (d : is_digit c ≡ true).
        version-Fine n (text ++ (c ∷ [])) (suc p) cs (set_version text out) (omega arith)
          (UpTo-snoc (most (suc n)) (most n) c text w d (most-step n c m d)) (value-grows c text h)
          k in
      Fine-if Good (c == 32) _ _ (version_of text known h, k) (Fine-on Good (is_digit c) _ _ ih tt)

  version_at-Fine :
      (p : ℕ) (cs : Bytes) (out : Draft Time Elements)
      → PriGood out
      → Fine Good (version_at p cs out)
  version_at-Fine p [] out h = tt
  version_at-Fine p (c ∷ cs) out h =
      Fine-on Good (within 49 57 c) _ _
        (λ d.
          version-Fine 2 (c ∷ []) (suc p) cs out (omega arith)
            (record { digits = ground (arith, d); bounded = ground (arith, d) }) (ground (arith, d))
            h)
        tt

  pub message_body-Fine : (c : Cursor Time) → PriGood c.output → Fine Good (message_body c)
  unfolding message_body
  message_body-Fine c h = version_at-Fine c.at c.rest c.output h
