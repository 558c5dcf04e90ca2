-- ===== src/Auto/Machine/Tiers.antt =====
-- The order of the tries in the `Parse` of auto/machine.go.
use go_syslog.Base.{
  ◌∙◌, ap, ◌≡◌, refl, Option, none, some, List, [], ◌∷◌, ◌++◌, Bytes, Bool, true, false,
  if◌then◌else◌,
}
use go_syslog.Rfc3164.Machine as Machine3164
use go_syslog.Rfc5424.Machine as Machine5424
use go_syslog.Auto.Format.{Format, unknown, rfc3164, rfc5424}
use go_syslog.Auto.Detect.{detect}
use go_syslog.Auto.Machine.{
  inner, Auto, AutoError, parse_error, attempt, second, third, primary, secondary, be_primary,
  parse,
}

-- The machines of best effort exist whenever best effort is on.
pub record HasBestMachines {Location : Type 0} (m : Auto Location) : Type 0 where
  pub best3164 : m.best_effort ≡ true → (c : Machine3164.Config Location) × (m.m3164_be ≡ some c)
  pub best5424 : m.best_effort ≡ true → (c : Machine5424.Config) × (m.m5424_be ≡ some c)

module _ {M E : Type 0} where
  abbrev pub best : Option (Option M × Option E) → List (Option M × Option E)
  best none = []
  best (some a) = a ∷ []

  -- The first try that gives a message decides; if there is none, there is an error to report.
  pub first_message :
      Option E → Bytes → List (Option M × Option E) → Option M × Option (AutoError E)
  first_message err input [] =
      (none, some (parse_error (record { err = err; raw_message = input })))
  first_message err input ((some msg, none) ∷ rest) = (some msg, none)
  first_message err input ((some msg, some e) ∷ rest) = (some msg, some (inner e))
  first_message err input ((none, e) ∷ rest) = first_message err input rest

  -- The error of the first try.
  abbrev first_error : List (Option M × Option E) → Option E
  first_error [] = none
  first_error ((msg, e) ∷ rest) = e

  -- What tries come to.
  pub decided : Bytes → List (Option M × Option E) → Option M × Option (AutoError E)
  decided input tries = first_message (first_error tries) input tries

  attempts :
      (a b : Option M × Option E) (c : Option (Option M × Option E))
      (no_fallback best_effort : Bool) (input : Bytes)
      → (best_effort ≡ true → (x : Option M × Option E) × (c ≡ some x))
      → attempt a (second no_fallback b (third best_effort c input))
        ≡ some (
            first_message a.1 input
              (a ∷ ((if no_fallback then [] else b ∷ []) ++ (if best_effort then best c else []))))
  unfolding first_message
  attempts (some m, none) b c nf be input h = refl
  attempts (some m, some x) b c nf be input h = refl
  attempts (none, e) (some m, none) c false be input h = refl
  attempts (none, e) (some m, some x) c false be input h = refl
  attempts (none, e) (none, e') c false false input h = refl
  attempts (none, e) (none, e') (some (some m, none)) false true input h = refl
  attempts (none, e) (none, e') (some (some m, some x)) false true input h = refl
  attempts (none, e) (none, e') (some (none, e'')) false true input h = refl
  attempts (none, e) (none, e') none false true input h = absurd (cc (h refl).1)
  attempts (none, e) b c true false input h = refl
  attempts (none, e) b (some (some m, none)) true true input h = refl
  attempts (none, e) b (some (some m, some x)) true true input h = refl
  attempts (none, e) b (some (none, e'')) true true input h = refl
  attempts (none, e) b none true true input h = absurd (cc (h refl).1)

module _ {Location M E : Type 0}
    (parse3164 : Machine3164.Config Location → Bytes → Option M × Option E)
    (parse5424 : Machine5424.Config → Bytes → Option M × Option E) where
  -- The answer of each machine, and of each lenient machine that there is, as a list.
  abbrev by3164 : Auto Location → Bytes → List (Option M × Option E)
  by3164 m input = parse3164 m.m3164 input ∷ []

  abbrev by5424 : Auto Location → Bytes → List (Option M × Option E)
  by5424 m input = parse5424 m.m5424 input ∷ []

  abbrev leniently3164 : Auto Location → Bytes → List (Option M × Option E)
  leniently3164 m input = elim m.m3164_be [ none ↦ [] | some c ↦ parse3164 c input ∷ [] ]

  abbrev leniently5424 : Auto Location → Bytes → List (Option M × Option E)
  leniently5424 m input = elim m.m5424_be [ none ↦ [] | some c ↦ parse5424 c input ∷ [] ]

  -- The tries, in order, for a format: that one, and RFC 3164 for a format that is not known; the
  -- other one, unless fallback is off; and with best effort on the first one leniently.
  pub tries_for : Format → Auto Location → Bytes → List (Option M × Option E)
  tries_for rfc5424 m input =
      by5424 m input
      ++ ((if m.no_fallback then [] else by3164 m input)
          ++ (if m.best_effort then leniently5424 m input else []))
  tries_for rfc3164 m input =
      by3164 m input
      ++ ((if m.no_fallback then [] else by5424 m input)
          ++ (if m.best_effort then leniently3164 m input else []))
  tries_for unknown m input =
      by3164 m input
      ++ ((if m.no_fallback then [] else by5424 m input)
          ++ (if m.best_effort then leniently3164 m input else []))

  be_primary-some :
      (m : Auto Location) (f : Format) (input : Bytes)
      → HasBestMachines m
      → m.best_effort ≡ true
      → (x : Option M × Option E) × (be_primary parse3164 parse5424 m f input ≡ some x)
  be_primary-some m rfc5424 input h b = let (c, e) = h.best5424 b in (parse5424 c input, rw e)
  be_primary-some m rfc3164 input h b = let (c, e) = h.best3164 b in (parse3164 c input, rw e)
  be_primary-some m unknown input h b = let (c, e) = h.best3164 b in (parse3164 c input, rw e)

  best-leniently3164 :
      (m : Auto Location) (input : Bytes)
      → best (be_primary parse3164 parse5424 m rfc3164 input) ≡ leniently3164 m input
  best-leniently3164 m input = by_case m.m3164_be
    where
      by_case :
          (o : Option (Machine3164.Config Location))
          → best (be_primary parse3164 parse5424 (record m { m3164_be = o }) rfc3164 input)
            ≡ leniently3164 (record m { m3164_be = o }) input
      by_case none = refl
      by_case (some c) = refl

  best-leniently5424 :
      (m : Auto Location) (input : Bytes)
      → best (be_primary parse3164 parse5424 m rfc5424 input) ≡ leniently5424 m input
  best-leniently5424 m input = by_case m.m5424_be
    where
      by_case :
          (o : Option Machine5424.Config)
          → best (be_primary parse3164 parse5424 (record m { m5424_be = o }) rfc5424 input)
            ≡ leniently5424 (record m { m5424_be = o }) input
      by_case none = refl
      by_case (some c) = refl

  -- The tries as `Parse` makes them.
  made : Format → Auto Location → Bytes → List (Option M × Option E)
  made f m input =
      primary parse3164 parse5424 m f input
      ∷ ((if m.no_fallback then [] else secondary parse3164 parse5424 m f input ∷ [])
          ++ (if m.best_effort then best (be_primary parse3164 parse5424 m f input) else []))

  made-tries_for :
      (f : Format) (m : Auto Location) (input : Bytes) → made f m input ≡ tries_for f m input
  unfolding made tries_for
  made-tries_for rfc5424 m input =
      ap
        (λ l.
          by5424 m input
          ++ ((if m.no_fallback then [] else by3164 m input) ++ (if m.best_effort then l else [])))
        (best-leniently5424 m input)
  made-tries_for rfc3164 m input =
      ap
        (λ l.
          by3164 m input
          ++ ((if m.no_fallback then [] else by5424 m input) ++ (if m.best_effort then l else [])))
        (best-leniently3164 m input)
  made-tries_for unknown m input =
      ap
        (λ l.
          by3164 m input
          ++ ((if m.no_fallback then [] else by5424 m input) ++ (if m.best_effort then l else [])))
        (best-leniently3164 m input)

  -- If the lenient machines exist whenever best effort is on, `Parse` returns, with the answer of
  -- the first try that gives a message: of the tries for the format that `detect` tells. If none
  -- gives one, there is an error, which carries the input and the error of the first try.
  pub parse_tries :
      (m : Auto Location) (input : Bytes)
      → HasBestMachines m
      → parse parse3164 parse5424 m input ≡ some (decided input (tries_for (detect input) m input))
  unfolding parse made decided
  parse_tries m input h =
      attempts (primary parse3164 parse5424 m (detect input) input)
        (secondary parse3164 parse5424 m (detect input) input)
        (be_primary parse3164 parse5424 m (detect input) input) m.no_fallback m.best_effort input
        (be_primary-some m (detect input) input h)
      ∙ ap (λ ts. some (decided input ts)) (made-tries_for (detect input) m input)
