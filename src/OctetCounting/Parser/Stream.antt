-- ===== src/OctetCounting/Parser/Stream.antt =====
-- The loop of octetcounting/parser.go on a stream of well-formed frames.
use go_syslog.Base.{
  ◌==◌, ends_in, drop_last, ap, ◌+◌, length-append, zero, refl, ◌∙◌, ◌<◌, All, Option-cases,
  Bool-cases, ℕ, suc, ◌≤◌, ◌≡◌, ◌⊎◌, inl, inr, Option, none, some, List, [], ◌∷◌, ◌++◌, Bytes, Bool,
  true, false, length, arith, if◌then◌else◌,
}
use go_syslog.Base.Int.{to_int-pos, to_int, ℤ, pos}
use go_syslog.Strconv.Decimal.{decimal, decimal-IsNumeral, parse_uint-decimal}
use go_syslog.Syslog.{Machine, Result}
use go_syslog.OctetCounting.Tokens.{eof, lf, ws, msglen, syslogmsg, Token}
use go_syslog.OctetCounting.Scanner.{new_scanner, reader_size, Scanner, max_int, max_uint}
use go_syslog.OctetCounting.Scanner.Frames.{
  at, scan_length, scan_space, scan_newline, scan_end, scan_message,
}
use go_syslog.OctetCounting.Parser.Results.{
  Frame, encode, IsFramable, framable, handed, chomped, outcome, announced, after, results,
}
use go_syslog.OctetCounting.Parser.{
  parse_stream, wrap, strip_newline, unscan, stop, Parser, ParseError, Round, next, parse, failure,
  expecting, deliver, separator, round, run,
}

wrap-handed : {M E : Type 0} (a : Option M × Option E) → wrap a ≡ handed a
wrap-handed (m, none) = refl
wrap-handed (m, some e) = refl

strip_newline-cons :
    (lf cr : Bool) (c : ℕ) (a b d : Bytes)
    → (if lf then (if cr then c ∷ a else c ∷ b) else c ∷ d)
      ≡ c ∷ (if lf then (if cr then a else b) else d)
strip_newline-cons true true c a b d = refl
strip_newline-cons true false c a b d = refl
strip_newline-cons false cr c a b d = refl

strip_newline-chomped : (m : Bytes) → strip_newline m ≡ chomped m
unfolding strip_newline ends_in drop_last
strip_newline-chomped [] = refl
strip_newline-chomped (c ∷ []) = ground arith
strip_newline-chomped (c ∷ d ∷ []) = ground arith
strip_newline-chomped (c ∷ d ∷ e ∷ []) =
    strip_newline-cons (e == 10) (d == 13) c [] (d ∷ []) (d ∷ e ∷ [])
    ∙ ap (λ x. c ∷ x) (strip_newline-chomped (d ∷ e ∷ []))
strip_newline-chomped (c ∷ d ∷ e ∷ f ∷ cs) =
    strip_newline-cons (ends_in 10 (f ∷ cs)) (ends_in 13 (e ∷ drop_last (f ∷ cs))) c
      (d ∷ drop_last (e ∷ drop_last (f ∷ cs))) (d ∷ e ∷ drop_last (f ∷ cs)) (d ∷ e ∷ f ∷ cs)
    ∙ ap (λ x. c ∷ x) (strip_newline-chomped (d ∷ e ∷ f ∷ cs))

module _ {M E : Type 0} (machine : Machine M E) (strip : Bool) (mml : ℤ) (size max : ℕ) where
  abbrev parser : Scanner → Token → Bool → Parser M E
  parser s last stepback = record {
    max_message_length = mml;
    s = s;
    internal = machine;
    last = last;
    stepback = stepback;
    strip_trailing_nl = strip;
  }

  abbrev length_token : Bytes → Token
  length_token m = record { typ = msglen; lit = decimal (length m) }

  -- Behind the length of a frame.
  abbrev behind : Bytes → Bytes → Parser M E
  behind m tail =
      parser (at (32 ∷ (m ++ tail)) none size (length m) false max) (length_token m) false

  next-length :
      (m tail : Bytes) (last : Option ℕ) (len : ℕ) (ready : Bool) (tok : Token)
      → IsFramable max m
      → max ≤ max_int
      → next
          (parser (at (decimal (length m) ++ (32 ∷ (m ++ tail))) last size len ready max) tok false)
        ≡ (length_token m, behind m tail)
  unfolding next
  next-length m tail last len ready tok (framable {m = m'} h) k = rw (
      scan_length last size len ready max (length m) (m ++ tail)
        (decimal-IsNumeral (length m) (omega arith))
        (parse_uint-decimal max_uint (length m) (omega arith)) h)

  next_space :
      (m tail : Bytes)
      → next (behind m tail) ≡ (
        record { typ = ws; lit = 32 ∷ [] },
        parser
            (at (m ++ tail) (some 32) size (length m) true max)
            (record { typ = ws; lit = 32 ∷ [] })
            false,
      )
  unfolding next
  next_space m tail = rw (scan_space none size (length m) false max (m ++ tail))

  next_message :
      (m tail : Bytes) (tok : Token)
      → IsFramable max m
      → max ≤ size
      → max ≤ max_int
      → next (parser (at (m ++ tail) (some 32) size (length m) true max) tok false) ≡ (
        record { typ = syslogmsg; lit = m },
        parser (at tail none size 0 false max) (record { typ = syslogmsg; lit = m }) false,
      )
  unfolding next
  next_message m tail tok (framable {m = m'} h) k j =
      rw (scan_message m' tail (some 32) size max (omega arith) (omega arith))

  -- The state behind a message, where `tail` is left.
  abbrev delivered : Bytes → Bytes → Parser M E
  delivered m tail =
      parser (at tail none size 0 false max) (record { typ = syslogmsg; lit = m }) false

  -- A round reads one frame, and hands its message over.
  round_frame :
      (p : Parser M E) (m tail : Bytes)
      → IsFramable max m
      → max ≤ size
      → max ≤ max_int
      → next p ≡ (length_token m, behind m tail)
      → round p
        ≡ deliver
            (parser (at tail none size 0 false max) (record { typ = syslogmsg; lit = m }) false)
            (outcome machine strip m)
  unfolding round parse
  round_frame p m tail h k j e =
      rw (e, next_space m tail, next_message m tail (record { typ = ws; lit = 32 ∷ [] }) h k j)
        (ap (λ x. deliver (delivered m tail) (wrap (machine.parse (if strip then x else m))))
            (strip_newline-chomped m)
          ∙ ap (deliver (delivered m tail))
              (wrap-handed (machine.parse (if strip then chomped m else m))))

  abbrev eof_token : Token
  eof_token = record { typ = eof; lit = [] }

  abbrev lf_token : Token
  lf_token = record { typ = lf; lit = 10 ∷ [] }

  next_end :
      (last : Option ℕ) (len : ℕ) (ready : Bool) (tok : Token)
      → next (parser (at [] last size len ready max) tok false)
        ≡ (eof_token, parser (at [] last size len false max) eof_token false)
  unfolding next
  next_end last len ready tok = rw (scan_end last size len ready max)

  next_newline :
      (rest : Bytes) (tok : Token)
      → next (parser (at (10 ∷ rest) none size 0 false max) tok false)
        ≡ (lf_token, parser (at rest (some 10) size 0 true max) lf_token false)
  unfolding next
  next_newline rest tok = rw (scan_newline none size 0 false max rest)

  GivesResults : ℕ → Parser M E → List (Result M (ParseError E)) → Type 0
  GivesResults fuel p out =
      (p' : Parser M E) × (run fuel p ≡ some (out, p')) × (p'.stepback ≡ false)

  run_last :
      (fuel : ℕ) (p : Parser M E) (r : Round M E)
      → round p ≡ r
      → r.again ≡ false
      → run (suc fuel) p ≡ some (r.emitted, r.after)
  unfolding run
  run_last fuel p r e h = ground arith

  run_more :
      (fuel : ℕ) (p p' : Parser M E) (r : Round M E) (out : List (Result M (ParseError E)))
      → round p ≡ r
      → r.again ≡ true
      → run fuel r.after ≡ some (out, p')
      → run (suc fuel) p ≡ some (r.emitted ++ out, p')
  unfolding run
  run_more fuel p p' r out e h k = ground arith

  Accepted : Result M (ParseError E) → Type 0
  Accepted r = (machine.has_best_effort ≡ true) ⊎ (r.error ≡ none)

  deliver-Accepted :
      (s : Scanner) (tok : Token) (r : Result M (ParseError E))
      (later : List (Result M (ParseError E)))
      → Accepted r
      → (deliver (parser s tok false) r
          ≡ separator (next (parser s tok false)).0.typ (next (parser s tok false)).1 (r ∷ []))
        × (after machine strip r later ≡ r ∷ later)
  unfolding Accepted
  deliver-Accepted s tok r later (inl h) = (rw h, rw h)
  deliver-Accepted s tok r later (inr h) = ground arith

  deliver_refused :
      (s : Scanner) (tok : Token) (r : Result M (ParseError E))
      (later : List (Result M (ParseError E))) (e : ParseError E)
      → machine.has_best_effort ≡ false
      → r.error ≡ some e
      → (deliver (parser s tok false) r ≡ stop (parser s tok false) (failure e))
        × (after machine strip r later ≡ failure e ∷ [])
  deliver_refused s tok r later e h k = (ground arith, ground arith)

  Accepted-cases :
      (r : Result M (ParseError E))
      → Accepted r ⊎ ((machine.has_best_effort ≡ false) × ((e : ParseError E) × (r.error ≡ some e)))
  unfolding Accepted
  Accepted-cases r = elim (Bool-cases machine.has_best_effort) [
    | inl h ↦ inl (inl h)
    | inr h ↦ elim (Option-cases r.error) [ inl k ↦ inl (inr k) | inr k ↦ inr (h, k) ]
  ]

  abbrev tail : Bool → List Frame → Bytes
  tail nl fs = if nl then 10 ∷ encode fs else encode fs

  next-unscan : (m rest : Bytes) → next (unscan (behind m rest)) ≡ (length_token m, behind m rest)
  unfolding next
  next-unscan m rest = refl

  -- A round at the end of the input reports that a length is missing.
  run_end :
      (fuel : ℕ) (last : Option ℕ) (ready : Bool) (tok : Token)
      → 0 < fuel
      → GivesResults fuel
          (parser (at [] last size 0 ready max) tok false)
          (failure (expecting eof_token msglen) ∷ [])
  unfolding GivesResults round
  run_end zero last ready tok h = absurd (omega arith)
  run_end (suc fuel) last ready tok h =
      let q = parser (at [] last size 0 false max) eof_token false in
      (
        q,
        run_last fuel (parser (at [] last size 0 ready max) tok false)
            (stop q (failure (expecting eof_token msglen))) (rw (next_end last 0 ready tok)) refl,
        refl,
      )

  -- What the recursion gives on the frames behind a message.
  Continues : ℕ → List Frame → Type 0
  Continues fuel [] = Unit
  Continues fuel ((m, nl) ∷ fs) =
      (q : Parser M E)
      → next q ≡ (length_token m, behind m (tail nl fs))
      → GivesResults fuel q (results machine strip ((m, nl) ∷ fs))

  -- Behind an accepted message the loop goes on as its separator and the next frame say.
  run_accepted :
      (nl : Bool) (fs : List Frame) (fuel : ℕ) (p : Parser M E) (m : Bytes)
      → All (λ f. IsFramable max f.0) fs
      → max ≤ max_int
      → 0 < fuel
      → round p
        ≡ separator
            (next (delivered m (tail nl fs))).0.typ
            (next (delivered m (tail nl fs))).1
            (outcome machine strip m ∷ [])
      → Continues fuel fs
      → GivesResults
          (suc fuel)
          p
          (outcome machine strip m ∷ announced machine strip nl fs (results machine strip fs))
  unfolding GivesResults encode Continues results
  run_accepted false [] fuel p m hs k room e ih =
      let n = next_end none 0 false (record { typ = syslogmsg; lit = m }) in
      (
        parser (at [] none size 0 false max) eof_token false,
        run_last fuel p
            (separator eof (parser (at [] none size 0 false max) eof_token false)
              (outcome machine strip m ∷ []))
            (e ∙ rw n) refl,
        refl,
      )
  run_accepted false ((m', nl') ∷ fs) fuel p m (h, hs) k room e ih =
      let n = next-length m' (tail nl' fs) none 0 false (record { typ = syslogmsg; lit = m }) h k in
      let q = unscan (behind m' (tail nl' fs)) in
      let (p', r, b) = ih q (next-unscan m' (tail nl' fs)) in
      (
        p',
        run_more fuel p p'
            (separator msglen (behind m' (tail nl' fs)) (outcome machine strip m ∷ []))
            (results machine strip ((m', nl') ∷ fs)) (e ∙ rw n) refl r,
        b,
      )
  run_accepted true [] fuel p m hs k room e ih =
      let n = next_newline [] (record { typ = syslogmsg; lit = m }) in
      let q = parser (at [] (some 10) size 0 true max) lf_token false in
      let (p', r, b) = run_end fuel (some 10) true lf_token room in
      (
        p',
        run_more fuel p p' (separator lf q (outcome machine strip m ∷ []))
            (failure (expecting eof_token msglen) ∷ []) (e ∙ rw n) refl r,
        b,
      )
  run_accepted true ((m', nl') ∷ fs) fuel p m (h, hs) k room e ih =
      let n = next_newline (encode ((m', nl') ∷ fs)) (record { typ = syslogmsg; lit = m }) in
      let q = parser (at (encode ((m', nl') ∷ fs)) (some 10) size 0 true max) lf_token false in
      let (p', r, b) = ih q (next-length m' (tail nl' fs) (some 10) 0 true lf_token h k) in
      (
        p',
        run_more fuel p p' (separator lf q (outcome machine strip m ∷ []))
            (results machine strip ((m', nl') ∷ fs)) (e ∙ rw n) refl r,
        b,
      )

  -- A round on a message, and what follows it.
  run_message :
      (fs : List Frame) (m : Bytes) (nl : Bool) (fuel : ℕ) (p : Parser M E)
      → IsFramable max m
      → All (λ f. IsFramable max f.0) fs
      → max ≤ size
      → max ≤ max_int
      → 0 < fuel
      → next p ≡ (length_token m, behind m (tail nl fs))
      → Continues fuel fs
      → GivesResults (suc fuel) p (results machine strip ((m, nl) ∷ fs))
  unfolding GivesResults results
  run_message fs m nl fuel p h hs k j b n ih =
      let e = round_frame p m (tail nl fs) h k j n in
      let s = at (tail nl fs) none size 0 false max in
      let tok : Token = record { typ = syslogmsg; lit = m } in
      let ends = announced machine strip nl fs (results machine strip fs) in
      elim (Accepted-cases (outcome machine strip m)) [
        | inl a ↦
            let (d, r) = deliver-Accepted s tok (outcome machine strip m) ends a in
            rw r (run_accepted nl fs fuel p m hs j b (e ∙ d) ih)
        | inr (s', (x, a)) ↦
            let (d, r) = deliver_refused s tok (outcome machine strip m) ends x s' a in
            rw r (
              delivered m (tail nl fs),
              run_last fuel p (stop (delivered m (tail nl fs)) (failure x)) (e ∙ d) refl,
              refl,
            )
      ]

  -- More rounds than frames are enough, and the results are as specified.
  run_stream :
      (fs : List Frame) (m : Bytes) (nl : Bool) (fuel : ℕ) (p : Parser M E)
      → IsFramable max m
      → All (λ f. IsFramable max f.0) fs
      → max ≤ size
      → max ≤ max_int
      → suc (length fs) < fuel
      → next p ≡ (length_token m, behind m (tail nl fs))
      → GivesResults fuel p (results machine strip ((m, nl) ∷ fs))
  unfolding Continues
  run_stream fs m nl zero p h hs k j b n = absurd (omega arith)
  run_stream [] m nl (suc fuel) p h hs k j b n =
      run_message [] m nl fuel p h hs k j (omega arith) n tt
  run_stream ((m', nl') ∷ fs) m nl (suc fuel) p h (g, gs) k j b n =
      run_message ((m', nl') ∷ fs) m nl fuel p h (g, gs) k j (omega arith) n
        (λ q n'. run_stream fs m' nl' fuel q g gs k j (omega arith) n')

  length-encode : (fs : List Frame) → length fs ≤ length (encode fs)
  unfolding encode
  length-encode [] = omega arith
  length-encode ((m, true) ∷ fs) = omega (
    arith,
    length-encode fs,
    length-append (decimal (length m)) (32 ∷ (m ++ (10 ∷ encode fs))),
    length-append m (10 ∷ encode fs),
  )
  length-encode ((m, false) ∷ fs) = omega (
    arith,
    length-encode fs,
    length-append (decimal (length m)) (32 ∷ (m ++ encode fs)),
    length-append m (encode fs),
  )

  length-encode_cons :
      (f : Frame) (fs : List Frame)
      → IsFramable max f.0
      → suc (length (f ∷ fs)) ≤ length (encode (f ∷ fs))
  unfolding encode
  length-encode_cons (m, true) fs (framable h) = omega (
    arith,
    length-encode fs,
    length-append (decimal (length m)) (32 ∷ (m ++ (10 ∷ encode fs))),
    length-append m (10 ∷ encode fs),
  )
  length-encode_cons (m, false) fs (framable h) = omega (
    arith,
    length-encode fs,
    length-append (decimal (length m)) (32 ∷ (m ++ encode fs)),
    length-append m (encode fs),
  )

reader_size-ge : (pooled : Option ℕ) (n : ℕ) → n ≤ reader_size pooled (pos n)
reader_size-ge none n = ground arith
reader_size-ge (some k) n = ground arith

-- The buffer holds a message of the limit, where the limit and 20 fit an `int`.
buffer-ge :
    (pooled : Option ℕ) (n : ℕ) → n + 20 ≤ max_int → n ≤ reader_size pooled (to_int (n + 20))
buffer-ge pooled n h =
    omega (arith, ap (reader_size pooled) (to_int-pos (n + 20) h), reader_size-ge pooled (n + 20))

module _ {M E : Type 0} (pooled : Option ℕ) (p : Parser M E) (limit : ℕ) where
  fresh_run :
      (f : Frame) (fs : List Frame) (stepback : Bool)
      → stepback ≡ false
      → suc limit + 20 ≤ max_int
      → All (λ g. IsFramable (suc limit) g.0) (f ∷ fs)
      → GivesResults p.internal p.strip_trailing_nl p.max_message_length
          (reader_size pooled (to_int (suc limit + 20)))
          (suc limit)
          (suc (length (encode (f ∷ fs))))
          (record p {
            s = new_scanner pooled (encode (f ∷ fs)) (pos (suc limit));
            stepback = stepback;
          })
          (results p.internal p.strip_trailing_nl (f ∷ fs))
  unfolding new_scanner encode
  fresh_run (m, nl) fs true e k (h, hs) = cc
  fresh_run (m, nl) fs false e k (h, hs) =
      let size = reader_size pooled (to_int (suc limit + 20)) in
      run_stream p.internal p.strip_trailing_nl p.max_message_length size (suc limit) fs m nl
        (suc (length (encode ((m, nl) ∷ fs)))) _ h hs (buffer-ge pooled (suc limit) k) (omega arith)
        (omega (
          arith,
          length-encode_cons p.internal p.strip_trailing_nl p.max_message_length size (suc limit)
              (m, nl) fs h,
        ))
        (next-length p.internal p.strip_trailing_nl p.max_message_length size (suc limit) m
          (if nl then 10 ∷ encode fs else encode fs) none 0 false p.last h (omega arith))

  -- On a stream of one frame or more, of messages that start with `<` and are within the limit of
  -- the parser, which is positive and 20 or more below `MaxInt`, a parser with no token stepped
  -- back hands the outcomes of the messages to the listener, one each and in order: of all messages
  -- in best effort mode, and in strict mode of those up to the first that is refused, as its error.
  -- Behind the last frame a line feed adds an error. No token is left stepped back.
  pub parse_stream-encode :
      (f : Frame) (fs : List Frame)
      → p.max_message_length ≡ pos (suc limit)
      → p.stepback ≡ false
      → suc limit + 20 ≤ max_int
      → All (λ g. IsFramable (suc limit) g.0) (f ∷ fs)
      → (p' : Parser M E) × (parse_stream pooled p (encode (f ∷ fs))
          ≡ some (results p.internal p.strip_trailing_nl (f ∷ fs), p'))
        × (p'.stepback ≡ false)
  unfolding parse_stream GivesResults
  parse_stream-encode f fs e fresh k h =
      let (p', r, b) = fresh_run f fs p.stepback fresh k h in
      (
        p',
        ap
              (λ n.
                run (suc (length (encode (f ∷ fs))))
                  (record p { s = new_scanner pooled (encode (f ∷ fs)) n }))
              e
            ∙ r,
        b,
      )
