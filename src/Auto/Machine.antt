-- ===== src/Auto/Machine.antt =====
-- auto/machine.go and auto/options.go. A result `none` is a panic that nothing recovers.
pub mod Safe
pub mod Strict
pub mod Tiers
pub mod Total
pub mod Wrapped
pub mod Made
use go_syslog.Base.{
  Option, none, some, List, [], ◌∷◌, ◌++◌, Bytes, Bool, true, false, not, ◌||◌, if◌then◌else◌, map,
}
use go_syslog.Rfc3164.Machine as Machine3164
use go_syslog.Rfc5424.Machine as Machine5424
use go_syslog.Machines.{Effect, returned, panicked, left, MachineOption, new_rfc3164, new_rfc5424}
use go_syslog.Auto.Format.{Format, unknown, rfc3164, rfc5424, ParseError}
use go_syslog.Auto.Detect.{detect}

infixl 5 ◌>>=◌
abbrev ◌>>=◌ {ℓ κ} : {A : Type ℓ} {B : Type κ} → Option A → (A → Option B) → Option B
none >>= f = none
some a >>= f = f a

-- `recover` in a deferred call: the panic ends there, and the machine stays as it was left.
abbrev recovered : {A : Type 0} → Effect A → Effect A
recovered e = returned (left e)

-- Whether a probe, a fresh rfc5424 machine, comes out of the option with best effort on.
abbrev enables : Effect Machine5424.Config → Bool
enables (returned probe) = Machine5424.has_best_effort probe
enables (panicked probe) = false

-- `machine`; a machine that was not created is `none`.
pub record Auto (Location : Type 0) : Type 0 where
  pub rfc3164_opts : List (MachineOption Location)
  pub rfc5424_opts : List (MachineOption Location)
  pub no_fallback : Bool
  pub best_effort : Bool
  pub m3164 : Machine3164.Config Location
  pub m5424 : Machine5424.Config
  pub m3164_be : Option (Machine3164.Config Location)
  pub m5424_be : Option Machine5424.Config

-- `Option`: the machine's fields are not exported, so these three are all there are.
pub data AutoOption (Location : Type 0) : Type 0 where
  rfc3164_options : List (MachineOption Location) → AutoOption Location
  rfc5424_options : List (MachineOption Location) → AutoOption Location
  no_fallback_option : AutoOption Location

module _ {Location : Type 0} where
  -- One option that `SafeMachineOptions` wraps.
  abbrev pub safe : MachineOption Location → MachineOption Location
  safe opt = record {
    on_rfc3164 = λ m. recovered (opt.on_rfc3164 m);
    on_rfc5424 = λ m. recovered (opt.on_rfc5424 m);
  }

  -- `SafeMachineOptions`.
  abbrev pub safe_machine_options : List (MachineOption Location) → List (MachineOption Location)
  safe_machine_options opts = map safe opts

  abbrev pub enables_best_effort : MachineOption Location → Bool
  enables_best_effort opt = enables (opt.on_rfc5424 Machine5424.initial)

  -- `filterBestEffort`.
  unfoldable pub filter_best_effort : List (MachineOption Location) → List (MachineOption Location)
  filter_best_effort [] = []
  filter_best_effort (opt ∷ opts) =
      if enables_best_effort opt then filter_best_effort opts else opt ∷ filter_best_effort opts

  -- `&machine{}`.
  abbrev pub empty : Auto Location
  empty = record {
    rfc3164_opts = [];
    rfc5424_opts = [];
    no_fallback = false;
    best_effort = false;
    m3164 = Machine3164.initial;
    m5424 = Machine5424.initial;
    m3164_be = none;
    m5424_be = none;
  }

  -- The functions that the options of the package return.
  abbrev with_rfc3164_options : List (MachineOption Location) → Auto Location → Auto Location
  with_rfc3164_options opts m = record m { rfc3164_opts = m.rfc3164_opts ++ opts }

  abbrev with_rfc5424_options : List (MachineOption Location) → Auto Location → Auto Location
  with_rfc5424_options opts m = record m { rfc5424_opts = m.rfc5424_opts ++ opts }

  abbrev without_fallback : Auto Location → Auto Location
  without_fallback m = record m { no_fallback = true }

  abbrev pub apply_option : AutoOption Location → Auto Location → Auto Location
  apply_option (rfc3164_options opts) m = with_rfc3164_options opts m
  apply_option (rfc5424_options opts) m = with_rfc5424_options opts m
  apply_option no_fallback_option m = without_fallback m

  unfoldable pub apply_options : List (AutoOption Location) → Auto Location → Auto Location
  apply_options [] m = m
  apply_options (opt ∷ opts) m = apply_options opts (apply_option opt m)

  -- The strict machines are built again, without the options that turn best effort on.
  unfoldable pub promote :
      Auto Location → Machine3164.Config Location → Machine5424.Config → Option (Auto Location)
  promote m m3164 m5424 = do
    strict3164 ← new_rfc3164 (filter_best_effort m.rfc3164_opts)
    strict5424 ← new_rfc5424 (filter_best_effort m.rfc5424_opts)
    some (record m {
      best_effort = true;
      m3164 = strict3164;
      m5424 = strict5424;
      m3164_be = some (
          if not (Machine3164.has_best_effort m3164)
          then Machine3164.with_best_effort m3164
          else m3164);
      m5424_be = some (
          if not (Machine5424.has_best_effort m5424)
          then Machine5424.with_best_effort m5424
          else m5424);
    })

  -- What `NewMachine` builds once its options are applied.
  unfoldable pub build : Auto Location → Option (Auto Location)
  build m = do
    m3164 ← new_rfc3164 m.rfc3164_opts
    m5424 ← new_rfc5424 m.rfc5424_opts
    if Machine3164.has_best_effort m3164 || Machine5424.has_best_effort m5424
        then promote m m3164 m5424
        else some (record m { m3164 = m3164; m5424 = m5424 })

  -- `NewMachine`.
  unfoldable pub new_machine : List (AutoOption Location) → Option (Auto Location)
  new_machine opts = build (apply_options opts empty)

  -- `WithBestEffort`.
  unfoldable pub with_best_effort : Auto Location → Option (Auto Location)
  with_best_effort m = if m.best_effort then some m else do
    m3164 ← new_rfc3164 m.rfc3164_opts
    m5424 ← new_rfc5424 m.rfc5424_opts
    some (record m {
      best_effort = true;
      m3164_be = some (Machine3164.with_best_effort m3164);
      m5424_be = some (Machine5424.with_best_effort m5424);
    })

  -- `HasBestEffort`.
  abbrev pub has_best_effort : Auto Location → Bool
  has_best_effort m = m.best_effort

-- An error of an inner machine, or the error of a complete failure.
pub data AutoError (E : Type 0) : Type 0 where
  inner : E → AutoError E
  parse_error : ParseError E → AutoError E

abbrev lift_error : {E : Type 0} → Option E → Option (AutoError E)
lift_error none = none
lift_error (some e) = some (inner e)

module _ {M E : Type 0} where
  -- A try gives its answer if it gave a message, and goes on if it did not.
  abbrev attempt :
      Option M × Option E
      → (Option E → Option (Option M × Option (AutoError E)))
      → Option (Option M × Option (AutoError E))
  attempt (some msg, err) next = some (some msg, lift_error err)
  attempt (none, err) next = next err

  -- The complete failure, with the error of the first try.
  abbrev fail : Option E → Bytes → Option (Option M × Option (AutoError E))
  fail err input = some (none, some (parse_error (record { err = err; raw_message = input })))

  -- A machine that was not created is dereferenced here, so it panics.
  abbrev on_machine :
      {C : Type 0}
      → (C → Bytes → Option M × Option E)
      → Option C
      → Bytes
      → Option (Option M × Option E)
  on_machine parse none input = none
  on_machine parse (some m) input = some (parse m input)

  -- The try in best effort mode.
  abbrev third :
      Bool
      → Option (Option M × Option E)
      → Bytes
      → Option E
      → Option (Option M × Option (AutoError E))
  third best answer input err =
      if best then (answer >>= λ a. attempt a (λ _. fail err input)) else fail err input

  -- The try of the fallback, and what follows it.
  abbrev second :
      Bool
      → Option M × Option E
      → (Option E → Option (Option M × Option (AutoError E)))
      → Option E
      → Option (Option M × Option (AutoError E))
  second no_fallback answer next err =
      if not no_fallback then attempt answer (λ _. next err) else next err

module _ {Location M E : Type 0}
    (parse3164 : Machine3164.Config Location → Bytes → Option M × Option E)
    (parse5424 : Machine5424.Config → Bytes → Option M × Option E) where
  -- The primary and the secondary strict machine.
  abbrev pub primary : Auto Location → Format → Bytes → Option M × Option E
  primary m rfc5424 input = parse5424 m.m5424 input
  primary m rfc3164 input = parse3164 m.m3164 input
  primary m unknown input = parse3164 m.m3164 input

  abbrev pub secondary : Auto Location → Format → Bytes → Option M × Option E
  secondary m rfc5424 input = parse3164 m.m3164 input
  secondary m rfc3164 input = parse5424 m.m5424 input
  secondary m unknown input = parse5424 m.m5424 input

  abbrev pub be_primary : Auto Location → Format → Bytes → Option (Option M × Option E)
  be_primary m rfc5424 input = on_machine parse5424 m.m5424_be input
  be_primary m rfc3164 input = on_machine parse3164 m.m3164_be input
  be_primary m unknown input = on_machine parse3164 m.m3164_be input

  -- `Parse`.
  unfoldable pub parse : Auto Location → Bytes → Option (Option M × Option (AutoError E))
  parse m input =
      let format = detect input in
      attempt (primary m format input) (
        second m.no_fallback (secondary m format input)
          (third m.best_effort (be_primary m format input) input))
