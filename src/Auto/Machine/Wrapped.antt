-- ===== src/Auto/Machine/Wrapped.antt =====
-- The machines that the options of `SafeMachineOptions` in auto/machine.go make.
use go_syslog.Base.{◌≡◌, refl, ap, ◌∙◌, some, List, [], ◌∷◌}
use go_syslog.Rfc3164.Machine as Machine3164
use go_syslog.Rfc5424.Machine as Machine5424
use go_syslog.Machines.{
  Effect, returned, panicked, left, proceed, apply_all, MachineOption, on_rfc3164, on_rfc5424,
  new_rfc3164, new_rfc5424,
}
use go_syslog.Auto.Machine.{safe, safe_machine_options}

-- The options that return are kept, in order; those that panic at once, and leave the machine as
-- it was, are not.
pub data Returning {O C : Type 0} (on : O → C → Effect C) : List O → List O → Type 0 where
  none_left : Returning on [] []
  keep :
      {opt : O} {opts rest : List O}
      → ((m : C) → (m' : C) × (on opt m ≡ returned m'))
      → Returning on opts rest
      → Returning on (opt ∷ opts) (opt ∷ rest)
  skip :
      {opt : O} {opts rest : List O}
      → ((m : C) → on opt m ≡ panicked m)
      → Returning on opts rest
      → Returning on (opt ∷ opts) rest

module _ {Location C : Type 0} (on : MachineOption Location → C → Effect C)
    (wrapped : (opt : MachineOption Location) (m : C)
      → on (safe opt) m ≡ returned (left (on opt m))) where
  -- Wrapped, the options do what those that return do by themselves.
  apply_all-Returning :
      {opts rest : List (MachineOption Location)} (m : C)
      → Returning on opts rest
      → (c : C) × (apply_all on rest m ≡ some c)
        × (apply_all on (safe_machine_options opts) m ≡ some c)
  unfolding apply_all
  apply_all-Returning m none_left = (m, refl, refl)
  apply_all-Returning m (keep {opt} {opts} {rest} h r) =
      let (m', e) = h m in
      let (c, p, q) = apply_all-Returning m' r in
      (
        c,
        ap (proceed (apply_all on rest)) e ∙ p,
        ap (proceed (apply_all on (safe_machine_options opts)))
              (wrapped opt m ∙ ap (λ x. returned (left x)) e)
            ∙ q,
      )
  apply_all-Returning m (skip {opt} {opts} {rest} h r) =
      let (c, p, q) = apply_all-Returning m r in
      (
        c,
        p,
        ap (proceed (apply_all on (safe_machine_options opts)))
              (wrapped opt m ∙ ap (λ x. returned (left x)) (h m))
            ∙ q,
      )

module _ {Location : Type 0} where
  -- If each option either returns on every machine of a type, or panics on every one and leaves it
  -- as it was, then the options that `SafeMachineOptions` wraps make the machine that those that
  -- return make by themselves, without a panic. This holds of either type of machine.
  pub safe_machine_options-Returning :
      (opts rest3164 rest5424 : List (MachineOption Location))
      → Returning on_rfc3164 opts rest3164
      → Returning on_rfc5424 opts rest5424
      → ((c : Machine3164.Config Location) × (new_rfc3164 rest3164 ≡ some c)
          × (new_rfc3164 (safe_machine_options opts) ≡ some c))
        × ((c : Machine5424.Config) × (new_rfc5424 rest5424 ≡ some c)
            × (new_rfc5424 (safe_machine_options opts) ≡ some c))
  unfolding new_rfc3164 new_rfc5424
  safe_machine_options-Returning opts rest3164 rest5424 h k = (
    apply_all-Returning on_rfc3164 (λ opt m. refl) Machine3164.initial h,
    apply_all-Returning on_rfc5424 (λ opt m. refl) Machine5424.initial k,
  )
