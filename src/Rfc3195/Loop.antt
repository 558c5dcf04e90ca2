-- ===== src/Rfc3195/Loop.antt =====
-- The loop that the `Parse` of rfc3195/raw.go and that of rfc3195/cooked.go have in common, over
-- what a profile does with a frame: what it emits, and whether it reads on.
pub mod Laws
use go_syslog.Base.{
  length, ℕ, zero, suc, Option, none, some, List, [], ◌∷◌, ◌++◌, Bytes, Bool, true, false, Except,
  ok, err,
}
use go_syslog.Base.Int.{ℤ, pos, negsuc}
use go_syslog.Rfc3195.Frame.{Frame, FrameError, eof, scan, default_max_payload_size}

-- The limit that `Parse` gives to the scanner.
abbrev pub limit_of : ℤ → ℕ
limit_of (pos zero) = default_max_payload_size
limit_of (pos (suc n)) = suc n
limit_of (negsuc n) = default_max_payload_size

-- What is emitted where the scanner reports an error; nothing at the end of the input.
abbrev pub on_error : {R : Type 0} → (FrameError → R) → FrameError → List R
on_error report eof = []
on_error report e = report e ∷ []

abbrev pub prepend : {R : Type 0} → List R → Option (List R) → Option (List R)
prepend out none = none
prepend out (some later) = some (out ++ later)

-- What follows a frame: what the profile emits for it, then `later` if it reads on.
abbrev pub handled : {R : Type 0} → List R × Bool → Option (List R) → Option (List R)
handled (out, true) later = prepend out later
handled (out, false) later = some out

module _ {R : Type 0} (handle : Frame → List R × Bool) (report : FrameError → R) where
  -- The body of the loop: what is done with a scan, where `later` runs the loop on what is left.
  abbrev pub after : (Bytes → Option (List R)) → Except FrameError Frame × Bytes → Option (List R)
  after later (err e, rest) = some (on_error report e)
  after later (ok f, rest) = handled (handle f) (later rest)

  -- The loop with a bound on the frames; `none` means that the bound was too small.
  unfoldable pub loop : ℕ → ℕ → Bytes → Option (List R)
  loop zero limit source = none
  loop (suc fuel) limit source = after (λ rest. loop fuel limit rest) (scan limit source)

  -- Every frame takes a byte at least.
  unfoldable pub parse : ℤ → Bytes → Option (List R)
  parse max_message_length source = loop (suc (length source)) (limit_of max_message_length) source
