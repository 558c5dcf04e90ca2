-- ===== src/Machines.antt =====
-- syslog.MachineOption. An option is a function that changes the machine it is given, whatever its
-- concrete type; the machines of this repository are those of rfc3164 and rfc5424. What an option
-- returns is dropped by both constructors.
pub mod Library
pub mod Laws
use go_syslog.Base.{List, [], ◌∷◌, ◌++◌, Bool, true, false, Option, none, some, if◌then◌else◌, map}
use go_syslog.Rfc3164.Machine as Machine3164
use go_syslog.Rfc5424.Machine as Machine5424

-- A call that returned, or one that panicked, with the machine as it was left.
pub data Effect {ℓ} (A : Type ℓ) : Type ℓ where
  returned : A → Effect A
  panicked : A → Effect A

-- The machine behind a call, whether it panicked or not.
abbrev pub left {ℓ} : {A : Type ℓ} → Effect A → A
left (returned m) = m
left (panicked m) = m

-- `MachineOption`, at the two types of machines.
pub record MachineOption (Location : Type 0) : Type 0 where
  pub on_rfc3164 : Machine3164.Config Location → Effect (Machine3164.Config Location)
  pub on_rfc5424 : Machine5424.Config → Effect Machine5424.Config

-- The loop of `NewMachine`; `none` is a panic that is not recovered.
abbrev pub proceed {ℓ} : {A : Type ℓ} → (A → Option A) → Effect A → Option A
proceed k (returned m) = k m
proceed k (panicked m) = none

unfoldable pub apply_all {ℓ κ} :
    {O : Type ℓ} {A : Type κ} → (O → A → Effect A) → List O → A → Option A
apply_all on [] m = some m
apply_all on (opt ∷ opts) m = proceed (apply_all on opts) (on opt m)

module _ {Location : Type 0} where
  abbrev pub on_rfc3164 :
      MachineOption Location → Machine3164.Config Location → Effect (Machine3164.Config Location)
  on_rfc3164 opt = opt.on_rfc3164

  abbrev pub on_rfc5424 : MachineOption Location → Machine5424.Config → Effect Machine5424.Config
  on_rfc5424 opt = opt.on_rfc5424

  -- `rfc3164.NewMachine`.
  unfoldable pub new_rfc3164 : List (MachineOption Location) → Option (Machine3164.Config Location)
  new_rfc3164 opts = apply_all on_rfc3164 opts Machine3164.initial

  -- `rfc5424.NewMachine`.
  unfoldable pub new_rfc5424 : List (MachineOption Location) → Option Machine5424.Config
  new_rfc5424 opts = apply_all on_rfc5424 opts Machine5424.initial
