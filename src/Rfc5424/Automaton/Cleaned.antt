-- ===== src/Rfc5424/Automaton/Cleaned.antt =====
-- The positions that the automaton of rfc5424/machine.go notes in a value can be removed.
use go_syslog.Base.{
  ◌<◌, ◌≤◌, zero, ltb→lt, append_assoc, append-nil, take-length-append, ℕ, suc, ◌+◌, ◌-◌, ◌≡◌, refl,
  sym, ap, ◌∙◌, inl, inr, some, List, [], ◌∷◌, ◌++◌, Bytes, true, false, Bool-cases, length,
  length-append, take, drop, ltb, arith,
}
use go_syslog.Common.Escape.Laws.{drop-suc}
use go_syslog.Common.Escape.{remove_loop}

take-append : (n : ℕ) (cp xs : Bytes) → n ≤ length cp → take n (cp ++ xs) ≡ take n cp
take-append zero cp xs h = refl
take-append (suc n) [] xs h = absurd (omega arith)
take-append (suc n) (b ∷ cp) xs h = ap (◌∷◌ b) (take-append n cp xs (omega arith))

drop-append : (n : ℕ) (cp xs : Bytes) → n ≤ length cp → drop n (cp ++ xs) ≡ drop n cp ++ xs
drop-append zero cp xs h = refl
drop-append (suc n) [] xs h = absurd (omega arith)
drop-append (suc n) (b ∷ cp) xs h = drop-append n cp xs (omega arith)

abbrev without : ℕ → Bytes → Bytes
without n cp = take n cp ++ drop (suc n) cp

without-append : (n : ℕ) (cp xs : Bytes) → n < length cp → without n (cp ++ xs) ≡ without n cp ++ xs
without-append n cp xs h =
    rw (take-append n cp xs (omega arith), drop-append (suc n) cp xs (omega arith))
      (sym (append_assoc (take n cp) (drop (suc n) cp) xs))

-- A removal that is in range, also in front of more bytes.
first_removal :
    (off i pos : ℕ) (ms : List ℕ) (cp k : Bytes)
    → remove_loop off i (pos ∷ ms) cp ≡ some k
    → (remove_loop off (suc i) ms (without (pos - i - off) cp) ≡ some k)
      × ((ms' : List ℕ) (xs : Bytes)
          → remove_loop off i (pos ∷ ms') (cp ++ xs)
            ≡ remove_loop off (suc i) ms' (without (pos - i - off) cp ++ xs))
unfolding remove_loop
first_removal off i pos ms cp k h = elim (Bool-cases (ltb pos (i + off))) [
  | inl y ↦ absurd (ground (arith, y, h))
  | inr n ↦ elim (Bool-cases (ltb (pos - i - off) (length cp))) [
    | inr m ↦ absurd (ground (arith, n, m, h))
    | inl l ↦ (
      ground (arith, n, l, h),
      λ ms' xs.
          let f : ltb (pos - i - off) (length (cp ++ xs)) ≡ true =
            ground (arith, l, length-append cp xs) in
          rw (n, f)
            (ap (λ t. remove_loop off (suc i) ms' t)
              (without-append (pos - i - off) cp xs (ltb→lt (pos - i - off) (length cp) l))),
    )
  ]
]

remove_loop-byte :
    (off i c : ℕ) (ms : List ℕ) (cp k : Bytes)
    → remove_loop off i ms cp ≡ some k
    → remove_loop off i ms (cp ++ (c ∷ [])) ≡ some (k ++ (c ∷ []))
remove_loop-byte off i c [] cp k h =
    unfold remove_loop in (let e : cp ≡ k = ground (arith, h) in ap (λ t. some (t ++ (c ∷ []))) e)
remove_loop-byte off i c (pos ∷ ms) cp k h =
    let (d, f) = first_removal off i pos ms cp k h in
    f ms (c ∷ []) ∙ remove_loop-byte off (suc i) c ms (without (pos - i - off) cp) k d

last_removal :
    (off i c p : ℕ) (cp : Bytes)
    → p ≡ off + i + length cp
    → remove_loop off i (p ∷ []) (cp ++ (c ∷ [])) ≡ some cp
unfolding remove_loop
last_removal off i c p cp e =
    let a : ltb p (i + off) ≡ false = ground arith in
    let d : p - i - off ≡ length cp = omega arith in
    let b : ltb (length cp) (length (cp ++ (c ∷ []))) ≡ true =
      ground (arith, length-append cp (c ∷ [])) in
    rw (a, d, b, take-length-append cp (c ∷ []), drop-suc cp c [], append-nil cp) refl

remove_loop-mark :
    (off i c p : ℕ) (ms : List ℕ) (cp k : Bytes)
    → remove_loop off i ms cp ≡ some k
    → p ≡ off + i + length ms + length k
    → remove_loop off i (ms ++ (p ∷ [])) (cp ++ (c ∷ [])) ≡ some k
remove_loop-mark off i c p [] cp k h e =
    let d : cp ≡ k = unfold remove_loop in ground (arith, h) in
    last_removal off i c p cp (ground (arith, d, e)) ∙ ap some d
remove_loop-mark off i c p (pos ∷ ms) cp k h e =
    let (d, f) = first_removal off i pos ms cp k h in
    f (ms ++ (p ∷ [])) (c ∷ [])
    ∙ remove_loop-mark off (suc i) c p ms (without (pos - i - off) cp) k d (omega arith)

-- The marks of a value that starts at `pb`, up to a position: they can be removed, one byte each.
pub record Cleaned (pb p : ℕ) (text : Bytes) (marks : List ℕ) : Type 0 where
  pub kept : Bytes
  pub removed : remove_loop pb 0 marks text ≡ some kept
  pub lengths : length kept + length marks ≡ length text
  pub reached : p ≡ pb + length text

pub Cleaned-start : (pb : ℕ) → Cleaned pb pb [] []
Cleaned-start pb = record {
  kept = [];
  removed = unfold remove_loop in refl;
  lengths = omega arith;
  reached = omega arith;
}

pub Cleaned-byte :
    (pb p c : ℕ) (text : Bytes) (marks : List ℕ)
    → Cleaned pb p text marks
    → Cleaned pb (suc p) (text ++ (c ∷ [])) marks
Cleaned-byte pb p c text marks w = record {
  kept = w.kept ++ (c ∷ []);
  removed = remove_loop-byte pb 0 c marks text w.kept w.removed;
  lengths = omega (arith, length-append w.kept (c ∷ []), length-append text (c ∷ []), w.lengths);
  reached = omega (arith, length-append text (c ∷ []), w.reached);
}

pub Cleaned-mark :
    (pb p c : ℕ) (text : Bytes) (marks : List ℕ)
    → Cleaned pb p text marks
    → Cleaned pb (suc p) (text ++ (c ∷ [])) (marks ++ (p ∷ []))
Cleaned-mark pb p c text marks w = record {
  kept = w.kept;
  removed =
      remove_loop-mark pb 0 c p marks text w.kept w.removed (omega (arith, w.lengths, w.reached));
  lengths = omega (arith, length-append marks (p ∷ []), length-append text (c ∷ []), w.lengths);
  reached = omega (arith, length-append text (c ∷ []), w.reached);
}
