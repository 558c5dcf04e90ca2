-- ===== src/Auto/Machine/Strict.antt =====
-- The strict machines of auto/machine.go: best effort is filtered out of their options.
use go_syslog.Base.{
  Option-cases, ◌≡◌, ◌∙◌, inl, inr, Option, some, List, [], ◌∷◌, false, All, arith, Bool-cases,
}
use go_syslog.Rfc3164.Machine as Machine3164
use go_syslog.Rfc5424.Machine as Machine5424
use go_syslog.Machines.{
  proceed, Effect, returned, panicked, left, MachineOption, apply_all, on_rfc3164, on_rfc5424,
  new_rfc3164, new_rfc5424,
}
use go_syslog.Auto.Machine.{Auto, enables_best_effort, filter_best_effort, promote, build}

proceed-some {ℓ} :
    {A : Type ℓ} (k : A → Option A) (e : Effect A) (c : A)
    → proceed k e ≡ some c
    → k (left e) ≡ some c
proceed-some k (returned m) c h = h
proceed-some k (panicked m) c h = cc

module _ {Location : Type 0} where
  -- An option that leaves the best effort flag of every machine as it is, or that turns it on in a
  -- fresh rfc5424 machine: the probe tells which.
  pub record Probed (opt : MachineOption Location) : Type 0 where
    pub keeps3164 :
        enables_best_effort opt ≡ false
        → (m : Machine3164.Config Location) → (left (opt.on_rfc3164 m)).best_effort ≡ m.best_effort
    pub keeps5424 :
        enables_best_effort opt ≡ false
        → (m : Machine5424.Config) → (left (opt.on_rfc5424 m)).best_effort ≡ m.best_effort

  Keeps : MachineOption Location → Type 0
  Keeps opt =
      ((m : Machine3164.Config Location) → (left (opt.on_rfc3164 m)).best_effort ≡ m.best_effort)
      × ((m : Machine5424.Config) → (left (opt.on_rfc5424 m)).best_effort ≡ m.best_effort)

  filter_best_effort-Keeps :
      (opts : List (MachineOption Location)) → All Probed opts → All Keeps (filter_best_effort opts)
  unfolding filter_best_effort Keeps
  filter_best_effort-Keeps [] h = tt
  filter_best_effort-Keeps (opt ∷ opts) (h, hs) = elim (Bool-cases (enables_best_effort opt)) [
    | inl e ↦ rw e (filter_best_effort-Keeps opts hs)
    | inr e ↦ rw e ((h.keeps3164 e, h.keeps5424 e), filter_best_effort-Keeps opts hs)
  ]

  apply_rfc3164-Keeps :
      (opts : List (MachineOption Location)) (m c : Machine3164.Config Location)
      → All Keeps opts
      → apply_all on_rfc3164 opts m ≡ some c
      → c.best_effort ≡ m.best_effort
  unfolding apply_all Keeps
  apply_rfc3164-Keeps [] m c h e = ground arith
  apply_rfc3164-Keeps (opt ∷ opts) m c (h, hs) e =
      apply_rfc3164-Keeps opts (left (opt.on_rfc3164 m)) c hs
        (proceed-some (apply_all on_rfc3164 opts) (opt.on_rfc3164 m) c e)
      ∙ h.0 m

  apply_rfc5424-Keeps :
      (opts : List (MachineOption Location)) (m c : Machine5424.Config)
      → All Keeps opts
      → apply_all on_rfc5424 opts m ≡ some c
      → c.best_effort ≡ m.best_effort
  unfolding apply_all Keeps
  apply_rfc5424-Keeps [] m c h e = ground arith
  apply_rfc5424-Keeps (opt ∷ opts) m c (h, hs) e =
      apply_rfc5424-Keeps opts (left (opt.on_rfc5424 m)) c hs
        (proceed-some (apply_all on_rfc5424 opts) (opt.on_rfc5424 m) c e)
      ∙ h.1 m

  strict3164 :
      (opts : List (MachineOption Location)) (c : Machine3164.Config Location)
      → All Keeps opts
      → new_rfc3164 opts ≡ some c
      → c.best_effort ≡ false
  unfolding new_rfc3164
  strict3164 opts c h e = apply_rfc3164-Keeps opts Machine3164.initial c h e

  strict5424 :
      (opts : List (MachineOption Location)) (c : Machine5424.Config)
      → All Keeps opts
      → new_rfc5424 opts ≡ some c
      → c.best_effort ≡ false
  unfolding new_rfc5424
  strict5424 opts c h e = apply_rfc5424-Keeps opts Machine5424.initial c h e

  StrictOff : Auto Location → Type 0
  StrictOff a = (a.m3164.best_effort ≡ false) × (a.m5424.best_effort ≡ false)

  promote-StrictOff :
      (m a : Auto Location) (c3164 : Machine3164.Config Location) (c5424 : Machine5424.Config)
      → All Probed m.rfc3164_opts
      → All Probed m.rfc5424_opts
      → promote m c3164 c5424 ≡ some a
      → StrictOff a
  unfolding promote StrictOff
  promote-StrictOff m a c3164 c5424 h k e =
      let strict = filter_best_effort m.rfc3164_opts in
      let strict' = filter_best_effort m.rfc5424_opts in
      elim (Option-cases (new_rfc3164 strict)) [
        | inl n ↦ ground arith
        | inr (s3164, p) ↦ elim (Option-cases (new_rfc5424 strict')) [
          | inl n ↦ ground arith
          | inr (s5424, q) ↦
              let b = strict3164 strict s3164 (filter_best_effort-Keeps m.rfc3164_opts h) p in
              let b' = strict5424 strict' s5424 (filter_best_effort-Keeps m.rfc5424_opts k) q in
              ground arith
        ]
      ]

  -- If every option that leaves best effort off on the probe leaves it alone on any machine, the
  -- strict machines that `NewMachine` builds have best effort off.
  pub build-StrictOff :
      (m a : Auto Location)
      → All Probed m.rfc3164_opts
      → All Probed m.rfc5424_opts
      → build m ≡ some a
      → (a.m3164.best_effort ≡ false) × (a.m5424.best_effort ≡ false)
  unfolding build StrictOff
  build-StrictOff m a h k e = elim (Option-cases (new_rfc3164 m.rfc3164_opts)) [
    | inl n ↦ ground arith
    | inr (c3164, p) ↦ elim (Option-cases (new_rfc5424 m.rfc5424_opts)) [
      | inl n ↦ ground arith
      | inr (c5424, q) ↦ ground (arith, promote-StrictOff m a c3164 c5424 h k)
    ]
  ]
