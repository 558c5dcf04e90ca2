-- ===== src/Auto/Machine/Total.antt =====
-- `NewMachine` and `Parse` of auto/machine.go together.
use go_syslog.Base.{◌≡◌, Option, some, List, Bytes, All}
use go_syslog.Rfc3164.Machine as Machine3164
use go_syslog.Rfc5424.Machine as Machine5424
use go_syslog.Machines.{MachineOption}
use go_syslog.Auto.Detect.{detect}
use go_syslog.Auto.Machine.{Bool, Auto, AutoOption, new_machine, parse}
use go_syslog.Auto.Machine.Safe.{SafeOption}
use go_syslog.Auto.Machine.Made.{
  IsMade, asked3164, asked5424, asked_no_fallback, new_machine-IsMade,
}
use go_syslog.Auto.Machine.Tiers.{HasBestMachines, decided, tries_for, parse_tries}

module _ {Location M E : Type 0}
    (parse3164 : Machine3164.Config Location → Bytes → Option M × Option E)
    (parse5424 : Machine5424.Config → Bytes → Option M × Option E) where
  IsMade-HasBestMachines :
      {xs ys : List (MachineOption Location)} {b : Bool} (a : Auto Location)
      → IsMade xs ys b a
      → HasBestMachines a
  IsMade-HasBestMachines a w = record {
    best3164 = λ b. (_, (w.lenient b).0);
    best5424 = λ b. (_, (w.lenient b).1);
  }

  -- With options that do not panic on the machine they are for, `NewMachine` returns, with a machine
  -- made of what its options ask for: fallback is off just where an option says so; best effort is
  -- on just where the options turn it on in one of the machines, and then the strict machines are
  -- made of the options that the filter keeps, and the lenient ones of all the options, with best
  -- effort on. `Parse` of that machine panics on no input, and answers as the first try that
  -- gives a message does: of the tries for the format that `detect` tells, or else with the error
  -- of the first of them.
  pub new_machine-parse :
      (opts : List (AutoOption Location)) (input : Bytes)
      → All SafeOption opts
      → (a : Auto Location) × (new_machine opts ≡ some a)
        × IsMade (asked3164 opts) (asked5424 opts) (asked_no_fallback opts) a
        × (parse parse3164 parse5424 a input
            ≡ some (decided input (tries_for parse3164 parse5424 (detect input) a input)))
  new_machine-parse opts input h =
      let (a, e, w) = new_machine-IsMade opts h in
      (a, e, w, parse_tries parse3164 parse5424 a input (IsMade-HasBestMachines a w))
