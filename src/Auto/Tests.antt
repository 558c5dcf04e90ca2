-- ===== src/Auto/Tests.antt =====
-- Runs of the detection, and machines with options that panic on one of the two types.
use go_syslog.Base.{
  ℕ, ◌≡◌, ◌||◌, ◌++◌, refl, Option, none, some, List, [], ◌∷◌, Bytes, true, false, if◌then◌else◌,
  codes, length, ltb, arith, All,
}
use go_syslog.Rfc3164.Machine as Machine3164
use go_syslog.Rfc5424.Machine as Machine5424
use go_syslog.Machines.{on_rfc5424, on_rfc3164, MachineOption, new_rfc3164, new_rfc5424, apply_all}
use go_syslog.Machines.Library as Library
use go_syslog.Auto.Format.{rfc3164, rfc5424}
use go_syslog.Auto.Detect.{detect, detect_body}
use go_syslog.Auto.Detect.Laws.{begins_with, detect-detect_body, detect_number}
use go_syslog.Auto.Machine.{
  rfc5424_options, Auto, AutoOption, rfc3164_options, no_fallback_option, empty,
  safe_machine_options, new_machine, with_best_effort, build, promote, filter_best_effort, parse,
}
use go_syslog.Auto.Machine.Safe.{SafeOption, Built, new_machine-Built, with_best_effort-Built}
use go_syslog.Auto.Machine.Strict.{Probed, build-StrictOff}
use go_syslog.Auto.Machine.Wrapped.{
  Returning, none_left, keep, skip, safe_machine_options-Returning,
}
use go_syslog.Auto.Machine.Made.{IsMade, asked3164, asked5424, asked_no_fallback}
use go_syslog.Auto.Machine.Total.{new_machine-parse}
use go_syslog.Auto.Machine.Tiers.{HasBestMachines, decided, tries_for, parse_tries}

detect-detect_body_example :
    detect (60 ∷ (codes "a9" ++ (62 ∷ codes "1 2003"))) ≡ detect_body (codes "1 2003")
detect-detect_body_example =
    detect-detect_body (codes "a9") (codes "1 2003") (ground arith, (ground arith, tt))

detect_number_example :
    detect (60 ∷ (codes "34" ++ (62 ∷ 49 ∷ (codes "23" ++ codes ": x"))))
    ≡ (if ltb 2 (length (codes "23")) || begins_with 58 (codes ": x") then rfc3164 else rfc5424)
detect_number_example =
    detect_number (codes "34") (codes "23") (codes ": x") 49 (ground arith, (ground arith, tt))
      (omega arith) (omega arith) (refl, (refl, tt)) refl

-- The option `WithRFC3339`, which panics on an rfc5424 machine.
abbrev only_old : List (MachineOption Unit)
only_old = Library.with_rfc3339 ∷ Library.with_best_effort ∷ []

abbrev both : List (MachineOption Unit)
both = Library.with_best_effort ∷ []

only_old-Returning : Returning on_rfc3164 only_old only_old
only_old-Returning = keep (λ m. (_, refl)) (keep (λ m. (_, refl)) none_left)

both-Returning : Returning on_rfc5424 only_old both
both-Returning = skip (λ m. refl) (keep (λ m. (_, refl)) none_left)

safe_machine_options-Returning_example :
    ((c : Machine3164.Config Unit) × (new_rfc3164 only_old ≡ some c)
      × (new_rfc3164 (safe_machine_options only_old) ≡ some c))
    × ((c : Machine5424.Config) × (new_rfc5424 both ≡ some c)
        × (new_rfc5424 (safe_machine_options only_old) ≡ some c))
safe_machine_options-Returning_example =
    safe_machine_options-Returning only_old only_old both only_old-Returning both-Returning

abbrev options : List (AutoOption Unit)
options =
    rfc3164_options (Library.with_rfc3339 ∷ Library.with_best_effort ∷ [])
    ∷ rfc5424_options (Library.with_compliant_msg ∷ [])
    ∷ no_fallback_option
    ∷ []

options-SafeOption : All SafeOption options
options-SafeOption =
    (((λ m. (_, refl)), ((λ m. (_, refl)), tt)), (((λ m. (_, refl)), tt), (tt, tt)))

new_machine-Built_example : (a : Auto Unit) × (new_machine options ≡ some a) × Built a
new_machine-Built_example = new_machine-Built options options-SafeOption

abbrev built_empty : Auto Unit
built_empty = record empty { rfc5424_opts = Library.with_compliant_msg ∷ [] }

with_best_effort-Built_example :
    (a : Auto Unit) × (with_best_effort built_empty ≡ some a) × Built a × (a.best_effort ≡ true)
with_best_effort-Built_example =
    with_best_effort-Built built_empty
      (record { best3164 = λ e. absurd (cc e); best5424 = λ e. absurd (cc e) }) tt
      ((λ m. (_, refl)), tt)

abbrev mixed : Auto Unit
mixed = record empty {
  rfc3164_opts = Library.with_best_effort ∷ Library.with_rfc3339 ∷ [];
  rfc5424_opts = Library.with_compliant_msg ∷ [];
}

best_effort-Probed : Probed (Library.with_best_effort {Location = Unit})
best_effort-Probed = record { keeps3164 = λ e. absurd (cc e); keeps5424 = λ e. absurd (cc e) }

rfc3339-Probed : Probed (Library.with_rfc3339 {Location = Unit})
rfc3339-Probed = record { keeps3164 = λ _ m. refl; keeps5424 = λ _ m. refl }

compliant_msg-Probed : Probed (Library.with_compliant_msg {Location = Unit})
compliant_msg-Probed = record { keeps3164 = λ _ m. refl; keeps5424 = λ _ m. refl }

abbrev promoted : Auto Unit
promoted = record mixed {
  best_effort = true;
  m3164 = Machine3164.with_rfc3339 Machine3164.initial;
  m5424 = Machine5424.with_compliant_msg Machine5424.initial;
  m3164_be = some (Machine3164.with_rfc3339 (Machine3164.with_best_effort Machine3164.initial));
  m5424_be =
      some (Machine5424.with_best_effort (Machine5424.with_compliant_msg Machine5424.initial));
}

build-mixed : build mixed ≡ some promoted
unfolding build promote new_rfc3164 new_rfc5424 apply_all filter_best_effort
build-mixed = refl

build-StrictOff_example :
    (promoted.m3164.best_effort ≡ false) × (promoted.m5424.best_effort ≡ false)
build-StrictOff_example =
    build-StrictOff mixed promoted (best_effort-Probed, (rfc3339-Probed, tt))
      (compliant_msg-Probed, tt) build-mixed

-- Two machines that take nothing, but that the lenient rfc3164 machine takes everything.
abbrev lenient3164 : Machine3164.Config Unit → Bytes → Option Bytes × Option ℕ
lenient3164 c input = if c.best_effort then (some input, some 1) else (none, some 2)

abbrev never5424 : Machine5424.Config → Bytes → Option Bytes × Option ℕ
never5424 c input = (none, some 3)

promoted-HasBestMachines : HasBestMachines promoted
promoted-HasBestMachines = record {
  best3164 =
      λ _. (Machine3164.with_rfc3339 (Machine3164.with_best_effort Machine3164.initial), refl);
  best5424 = λ _.
      (Machine5424.with_best_effort (Machine5424.with_compliant_msg Machine5424.initial), refl);
}

parse_tries_example :
    parse lenient3164 never5424 promoted (codes "<34>Oct 1")
    ≡ some (
        decided (codes "<34>Oct 1") (
          tries_for lenient3164 never5424
            (detect (codes "<34>Oct 1"))
            promoted
            (codes "<34>Oct 1")))
parse_tries_example =
    parse_tries lenient3164 never5424 promoted (codes "<34>Oct 1") promoted-HasBestMachines

new_machine-parse_example :
    (a : Auto Unit) × (new_machine options ≡ some a)
    × IsMade (asked3164 options) (asked5424 options) (asked_no_fallback options) a
    × (parse lenient3164 never5424 a (codes "<34>Oct 1")
        ≡ some (
            decided
              (codes "<34>Oct 1")
              (tries_for lenient3164 never5424 (detect (codes "<34>Oct 1")) a (codes "<34>Oct 1"))))
new_machine-parse_example =
    new_machine-parse lenient3164 never5424 options (codes "<34>Oct 1") options-SafeOption
