-- ===== src/Auto/Transport/Laws.antt =====
-- The machine that `NewParserAuto` builds, whatever the transport.
use go_syslog.Base.{
  ◌++◌, ◌≡◌, refl, ◌∙◌, ◌⊎◌, inl, inr, Option, some, List, [], ◌∷◌, Bool, true, false, All, arith,
  Option-cases,
}
use go_syslog.Machines.{MachineOption, new_rfc3164, new_rfc5424}
use go_syslog.Rfc3164.Machine as Machine3164
use go_syslog.Rfc5424.Machine as Machine5424
use go_syslog.Auto.Machine.{
  Auto, empty, safe_machine_options, new_machine, build, promote, apply_options,
}
use go_syslog.Auto.Machine.Safe.{
  Safe, Safe3164, Safe5424, SafeOption, Built, All-append, safe_machine_options-Safe,
  new_machine-Built, with_best_effort-Built,
}
use go_syslog.Auto.Transport.{auto_opts, lenient, transport_machine}

module _ {Location : Type 0} where
  promote-options :
      (m a : Auto Location) (c3164 : Machine3164.Config Location) (c5424 : Machine5424.Config)
      → promote m c3164 c5424 ≡ some a
      → (a.rfc3164_opts ≡ m.rfc3164_opts) × (a.rfc5424_opts ≡ m.rfc5424_opts)
  unfolding promote
  promote-options m a c3164 c5424 e = ground arith

  build-options :
      (m a : Auto Location)
      → build m ≡ some a
      → (a.rfc3164_opts ≡ m.rfc3164_opts) × (a.rfc5424_opts ≡ m.rfc5424_opts)
  unfolding build
  build-options m a e = elim (Option-cases (new_rfc3164 m.rfc3164_opts)) [
    | inl n ↦ ground arith
    | inr (c3164, p) ↦ elim (Option-cases (new_rfc5424 m.rfc5424_opts)) [
      | inl n ↦ ground arith
      | inr (c5424, q) ↦ ground (arith, promote-options m a c3164 c5424)
    ]
  ]

  Safe-halves :
      (opts : List (MachineOption Location)) → All Safe opts → All Safe3164 opts × All Safe5424 opts
  Safe-halves [] h = (tt, tt)
  Safe-halves (o ∷ opts) ((h, k), hs) = let (f, g) = Safe-halves opts hs in ((h, f), (k, g))

  -- The options that are given to both formats, wrapped, and those of one format behind them.
  pub safe_opts-Safe3164 :
      (opts own : List (MachineOption Location))
      → All Safe3164 own
      → All Safe3164 (safe_machine_options opts ++ own)
  safe_opts-Safe3164 opts own h =
      All-append Safe3164 (safe_machine_options opts) own
        (Safe-halves (safe_machine_options opts) (safe_machine_options-Safe opts)).0 h

  pub safe_opts-Safe5424 :
      (opts own : List (MachineOption Location))
      → All Safe5424 own
      → All Safe5424 (safe_machine_options opts ++ own)
  safe_opts-Safe5424 opts own h =
      All-append Safe5424 (safe_machine_options opts) own
        (Safe-halves (safe_machine_options opts) (safe_machine_options-Safe opts)).1 h

  auto_opts-SafeOption :
      (nf : Bool) (xs ys : List (MachineOption Location))
      → All Safe3164 xs
      → All Safe5424 ys
      → All SafeOption (auto_opts nf xs ys)
  auto_opts-SafeOption true xs ys h k = (h, (k, (tt, tt)))
  auto_opts-SafeOption false xs ys h k = (h, (k, tt))

  applied_auto_opts :
      (nf : Bool) (xs ys : List (MachineOption Location))
      → ((apply_options (auto_opts nf xs ys) empty).rfc3164_opts ≡ xs)
        × ((apply_options (auto_opts nf xs ys) empty).rfc5424_opts ≡ ys)
  unfolding apply_options
  applied_auto_opts true xs ys = (refl, refl)
  applied_auto_opts false xs ys = (refl, refl)

  new_machine-options :
      (nf : Bool) (xs ys : List (MachineOption Location)) (a : Auto Location)
      → new_machine (auto_opts nf xs ys) ≡ some a
      → (a.rfc3164_opts ≡ xs) × (a.rfc5424_opts ≡ ys)
  unfolding new_machine
  new_machine-options nf xs ys a e =
      let (q, r) = build-options (apply_options (auto_opts nf xs ys) empty) a e in
      let (q', r') = applied_auto_opts nf xs ys in (q ∙ q', r ∙ r')

  -- With options that do not panic on the machine they are for, the machine is built. If best
  -- effort is on, both lenient machines are there, and it is on if it was asked for.
  pub transport_machine-Built :
      (nf best : Bool) (xs ys : List (MachineOption Location))
      → All Safe3164 xs
      → All Safe5424 ys
      → (a : Auto Location) × (transport_machine nf best xs ys ≡ some a)
        × Built a
        × ((best ≡ false) ⊎ (a.best_effort ≡ true))
  unfolding transport_machine
  transport_machine-Built nf best xs ys h k =
      let (a, e, w) = new_machine-Built (auto_opts nf xs ys) (auto_opts-SafeOption nf xs ys h k) in
      let (q, r) = new_machine-options nf xs ys a e in
      on_best best (new_machine (auto_opts nf xs ys)) a e w (rw q h) (rw r k)
    where
      on_best :
          (best : Bool) (o : Option (Auto Location)) (a : Auto Location)
          → o ≡ some a
          → Built a
          → All Safe3164 a.rfc3164_opts
          → All Safe5424 a.rfc5424_opts
          → (b : Auto Location) × (lenient best o ≡ some b)
            × Built b
            × ((best ≡ false) ⊎ (b.best_effort ≡ true))
      on_best true o a e w h k =
          let (b, e', w', t) = with_best_effort-Built a w h k in (b, rw e e', w', inr t)
      on_best false o a e w h k = (a, rw e, w, inl refl)
