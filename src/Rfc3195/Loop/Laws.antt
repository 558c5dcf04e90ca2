-- ===== src/Rfc3195/Loop/Laws.antt =====
-- The loop ends, and on written frames it does what the profile does with each.
use go_syslog.Base.{
  ℕ, zero, suc, ◌≤◌, ◌<◌, ◌≡◌, refl, ap, ◌∙◌, Option, some, List, [], ◌∷◌, ◌++◌, Bytes, Bool, true,
  false, All, arith, Except, ok, err, length,
}
use go_syslog.Base.Int.{ℤ}
use go_syslog.Rfc3195.Frame.{Frame, FrameError, scan}
use go_syslog.Rfc3195.Frame.Sound.{IsSound}
use go_syslog.Rfc3195.Frame.Progress.{scan-nil, scan-lt}
use go_syslog.Rfc3195.Frame.RoundTrip.{encode, scan-encode}
use go_syslog.Rfc3195.Loop.{limit_of, on_error, handled, after, loop, parse}

handled-some :
    {R : Type 0} (act : List R × Bool) (o : Option (List R))
    → (r : List R) × (o ≡ some r)
    → (r : List R) × (handled act o ≡ some r)
handled-some (out, true) o (r, e) = (out ++ r, rw e)
handled-some (out, false) o h = (out, refl)

-- The frames, one after another.
pub encode_all : List Frame → Bytes
encode_all [] = []
encode_all (f ∷ fs) = encode f ++ encode_all fs

module _ {R : Type 0} (handle : Frame → List R × Bool) (report : FrameError → R) where
  after_total :
      (later : Bytes → Option (List R)) (limit : ℕ) (source : Bytes)
      → ((rest : Bytes) → length rest < length source → (r : List R) × (later rest ≡ some r))
      → (s : Except FrameError Frame × Bytes) → scan limit source ≡ s
      → (r : List R) × (after handle report later s ≡ some r)
  after_total later limit source ih (err e, rest) p = (on_error report e, refl)
  after_total later limit source ih (ok f, rest) p =
      let lt = scan-lt limit source {f = f} (ap (λ x. x.0) p) in
      let less : length rest < length source = rw p at lt in
      handled-some (handle f) (later rest) (ih rest less)

  loop_total :
      (fuel limit : ℕ) (source : Bytes)
      → length source < fuel
      → (r : List R) × (loop handle report fuel limit source ≡ some r)
  unfolding loop
  loop_total zero limit source h = absurd (omega arith)
  loop_total (suc fuel) limit source h =
      after_total (λ rest. loop handle report fuel limit rest) limit source
        (λ rest k. loop_total fuel limit rest (omega arith)) (scan limit source) refl

  -- `Parse` returns on every input and with every limit, whatever a profile does with a frame.
  pub parse_total :
      (max : ℤ) (source : Bytes) → (r : List R) × (parse handle report max source ≡ some r)
  unfolding parse
  parse_total max source = loop_total (suc (length source)) (limit_of max) source (omega arith)

  abbrev joined : List R × Bool → List R → List R
  joined (out, true) later = out ++ later
  joined (out, false) later = out

  -- What is emitted for a list of frames, up to the first that ends the exchange.
  unfoldable pub emitted : List Frame → List R
  emitted [] = []
  emitted (f ∷ fs) = joined (handle f) (emitted fs)

  handled-joined :
      (act : List R × Bool) (later : List R) → handled act (some later) ≡ some (joined act later)
  handled-joined (out, true) later = refl
  handled-joined (out, false) later = refl

  loop-encode :
      (fs : List Frame) (fuel limit : ℕ)
      → All (IsSound limit) fs
      → length fs < fuel
      → loop handle report fuel limit (encode_all fs) ≡ some (emitted fs)
  unfolding loop encode_all emitted
  loop-encode fs zero limit h k = absurd (omega arith)
  loop-encode [] (suc fuel) limit h k =
      ap (after handle report (λ rest. loop handle report fuel limit rest)) (scan-nil limit)
  loop-encode (f ∷ fs) (suc fuel) limit (h, hs) k =
      ap (after handle report (λ rest. loop handle report fuel limit rest))
        (scan-encode limit f (encode_all fs) h)
      ∙ ap (handled (handle f)) (loop-encode fs fuel limit hs (omega arith))
      ∙ handled-joined (handle f) (emitted fs)

  length-encode_all :
      (fs : List Frame) (limit : ℕ) → All (IsSound limit) fs → length fs ≤ length (encode_all fs)
  unfolding encode_all
  length-encode_all [] limit h = omega arith
  length-encode_all (f ∷ fs) limit (h, hs) =
      let lt =
        scan-lt limit (encode f ++ encode_all fs) {f = f}
          (ap (λ x. x.0) (scan-encode limit f (encode_all fs) h)) in
      let e : length (encode_all fs) < length (encode f ++ encode_all fs) =
        rw (scan-encode limit f (encode_all fs) h) at lt in
      omega (arith, length-encode_all fs limit hs)

  -- On sound frames, within the limit in force, that are written one after another, what is emitted
  -- is what the frames give, up to the first that ends the exchange.
  pub parse-encode_all :
      (max : ℤ) (fs : List Frame)
      → All (IsSound (limit_of max)) fs
      → parse handle report max (encode_all fs) ≡ some (emitted fs)
  unfolding parse
  parse-encode_all max fs h =
      loop-encode fs (suc (length (encode_all fs))) (limit_of max) h
        (omega (arith, length-encode_all fs (limit_of max) h))
