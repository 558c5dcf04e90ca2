-- ===== src/Auto/Detect/Laws.antt =====
-- What auto/detect.go makes of the shapes that its comments name.
use go_syslog.Base.{
  if◌then◌else◌, ◌∙◌, ◌||◌, ℕ, suc, ◌+◌, ◌≤◌, ◌≡◌, ◌≢◌, refl, none, some, [], ◌∷◌, ◌++◌, Bytes,
  Bool, true, false, All, length, arith, ltb, ◌==◌,
}
use go_syslog.Auto.Format.{rfc3164, rfc5424}
use go_syslog.Auto.Detect.{
  is_digit, count_digits, after_close, detect_body, detect_without_pri, detect,
}

abbrev pub Digits : Bytes → Type 0
Digits = All (λ c. is_digit c ≡ true)

-- A byte string that does not begin with a digit.
abbrev pub NoDigit : Bytes → Type 0
NoDigit [] = Unit
NoDigit (b ∷ bs) = is_digit b ≡ false

after_close-append :
    (pri body : Bytes) → All (λ c. c ≢ 62) pri → after_close (pri ++ (62 ∷ body)) ≡ some body
unfolding after_close
after_close-append [] body h = refl
after_close-append (c ∷ pri) body (h, hs) = ground (arith, after_close-append pri body hs)

count_digits-append :
    (ds rest : Bytes) (n : ℕ)
    → Digits ds
    → NoDigit rest
    → count_digits n (ds ++ rest) ≡ (n + length ds, rest)
unfolding count_digits
count_digits-append [] [] n h k = ground arith
count_digits-append [] (b ∷ bs) n h k = ground arith
count_digits-append (d ∷ ds) rest n (h, hs) k =
    ground (arith, count_digits-append ds rest (suc n) hs k)

-- What stands between the `<` that starts an input and the first `>` is skipped, whatever it is.
pub detect-detect_body :
    (pri body : Bytes)
    → All (λ c. c ≢ 62) pri
    → detect (60 ∷ (pri ++ (62 ∷ body))) ≡ detect_body body
unfolding detect after_close
detect-detect_body pri body h = ground (arith, after_close-append pri body h)

abbrev pub begins_with : ℕ → Bytes → Bool
begins_with c [] = false
begins_with c (b ∷ bs) = b == c

detect_body_number :
    (ds rest : Bytes) (d : ℕ)
    → 49 ≤ d
    → d ≤ 57
    → Digits ds
    → NoDigit rest
    → detect_body (d ∷ (ds ++ rest))
      ≡ (if ltb 2 (length ds) || begins_with 58 rest then rfc3164 else rfc5424)
unfolding detect_body
detect_body_number ds [] d lo hi h k = ground (arith, count_digits-append ds [] 1 h k)
detect_body_number ds (b ∷ bs) d lo hi h k = ground (arith, count_digits-append ds (b ∷ bs) 1 h k)

-- Behind a PRI, whatever stands in its brackets, a number with no leading zero tells the formats
-- apart: with four or more digits, or with a colon behind it, it is the message counter of an
-- RFC 3164 message, and else the version of an RFC 5424 message.
pub detect_number :
    (pri ds rest : Bytes) (d : ℕ)
    → All (λ c. c ≢ 62) pri
    → 49 ≤ d
    → d ≤ 57
    → Digits ds
    → NoDigit rest
    → detect (60 ∷ (pri ++ (62 ∷ d ∷ (ds ++ rest))))
      ≡ (if ltb 2 (length ds) || begins_with 58 rest then rfc3164 else rfc5424)
detect_number pri ds rest d p lo hi h k =
    detect-detect_body pri (d ∷ (ds ++ rest)) p ∙ detect_body_number ds rest d lo hi h k

after_close-none : (bs : Bytes) → All (λ c. c ≢ 62) bs → after_close bs ≡ none
unfolding after_close
after_close-none [] h = refl
after_close-none (b ∷ bs) (h, hs) = ground (arith, after_close-none bs hs)

-- An input with no `>` in it is read as one that has no PRI.
pub detect_unclosed : (bs : Bytes) → All (λ c. c ≢ 62) bs → detect bs ≡ detect_without_pri bs
unfolding detect
detect_unclosed [] h = refl
detect_unclosed (b ∷ bs) h = ground (arith, after_close-none (b ∷ bs) h)
