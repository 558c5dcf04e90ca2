-- ===== src/Auto/Machine/Safe.antt =====
-- The machines that auto/machine.go builds: that they exist, and which of them has best effort on.
use go_syslog.Base.{
  ◌++◌, if◌then◌else◌, ◌≡◌, refl, inl, inr, some, List, [], ◌∷◌, true, false, All, arith,
  Bool-cases, not, ◌||◌,
}
use go_syslog.Rfc3164.Machine as Machine3164
use go_syslog.Rfc5424.Machine as Machine5424
use go_syslog.Machines.{
  returned, left, MachineOption, apply_all, on_rfc3164, on_rfc5424, new_rfc3164, new_rfc5424,
}
use go_syslog.Auto.Machine.{
  with_best_effort, empty, AutoOption, rfc3164_options, rfc5424_options, no_fallback_option,
  apply_option, apply_options, new_machine, Auto, safe, safe_machine_options, enables_best_effort,
  filter_best_effort, promote, build,
}

module _ {Location : Type 0} where
  -- An option that panics on no rfc3164 machine, on no rfc5424 machine, and on no machine at all.
  abbrev pub Safe3164 : MachineOption Location → Type 0
  Safe3164 opt =
      (m : Machine3164.Config Location)
      → (m' : Machine3164.Config Location) × (opt.on_rfc3164 m ≡ returned m')

  abbrev pub Safe5424 : MachineOption Location → Type 0
  Safe5424 opt =
      (m : Machine5424.Config) → (m' : Machine5424.Config) × (opt.on_rfc5424 m ≡ returned m')

  abbrev pub Safe : MachineOption Location → Type 0
  Safe opt = Safe3164 opt × Safe5424 opt

  safe-Safe : (opt : MachineOption Location) → Safe (safe opt)
  safe-Safe opt = (λ m. (left (opt.on_rfc3164 m), refl), λ m. (left (opt.on_rfc5424 m), refl))

  -- An option that `SafeMachineOptions` wraps returns a machine on either type of machine, whatever
  -- it does on that type by itself.
  pub safe_machine_options-Safe :
      (opts : List (MachineOption Location)) → All Safe (safe_machine_options opts)
  safe_machine_options-Safe [] = tt
  safe_machine_options-Safe (opt ∷ opts) = (safe-Safe opt, safe_machine_options-Safe opts)

  pub filter_best_effort-All :
      (P : MachineOption Location → Type 0) (opts : List (MachineOption Location))
      → All P opts
      → All P (filter_best_effort opts)
  unfolding filter_best_effort
  filter_best_effort-All P [] h = tt
  filter_best_effort-All P (opt ∷ opts) (h, hs) = elim (Bool-cases (enables_best_effort opt)) [
    | inl e ↦ rw e (filter_best_effort-All P opts hs)
    | inr e ↦ rw e (h, filter_best_effort-All P opts hs)
  ]

  apply_rfc3164-some :
      (opts : List (MachineOption Location)) (m : Machine3164.Config Location)
      → All Safe3164 opts
      → (c : Machine3164.Config Location) × (apply_all on_rfc3164 opts m ≡ some c)
  unfolding apply_all
  apply_rfc3164-some [] m h = (m, refl)
  apply_rfc3164-some (opt ∷ opts) m (h, hs) =
      let (m', e) = h m in let (c, r) = apply_rfc3164-some opts m' hs in (c, rw e r)

  apply_rfc5424-some :
      (opts : List (MachineOption Location)) (m : Machine5424.Config)
      → All Safe5424 opts
      → (c : Machine5424.Config) × (apply_all on_rfc5424 opts m ≡ some c)
  unfolding apply_all
  apply_rfc5424-some [] m h = (m, refl)
  apply_rfc5424-some (opt ∷ opts) m (h, hs) =
      let (m', e) = h m in let (c, r) = apply_rfc5424-some opts m' hs in (c, rw e r)

  pub new_rfc3164-some :
      (opts : List (MachineOption Location))
      → All Safe3164 opts
      → (c : Machine3164.Config Location) × (new_rfc3164 opts ≡ some c)
  unfolding new_rfc3164
  new_rfc3164-some opts h = apply_rfc3164-some opts Machine3164.initial h

  pub new_rfc5424-some :
      (opts : List (MachineOption Location))
      → All Safe5424 opts
      → (c : Machine5424.Config) × (new_rfc5424 opts ≡ some c)
  unfolding new_rfc5424
  new_rfc5424-some opts h = apply_rfc5424-some opts Machine5424.initial h

  -- If best effort is on, both lenient machines are there, and have it on.
  pub record Built (a : Auto Location) : Type 0 where
    pub best3164 :
        a.best_effort ≡ true
        → (c : Machine3164.Config Location) × (a.m3164_be ≡ some c) × (c.best_effort ≡ true)
    pub best5424 :
        a.best_effort ≡ true
        → (c : Machine5424.Config) × (a.m5424_be ≡ some c) × (c.best_effort ≡ true)

  pub promote-Built :
      (m : Auto Location) (m3164 : Machine3164.Config Location) (m5424 : Machine5424.Config)
      → All Safe3164 m.rfc3164_opts
      → All Safe5424 m.rfc5424_opts
      → (a : Auto Location) × (promote m m3164 m5424 ≡ some a) × Built a
  unfolding promote
  promote-Built m m3164 m5424 h k =
      let (s3164, e) =
        new_rfc3164-some (filter_best_effort m.rfc3164_opts)
          (filter_best_effort-All Safe3164 m.rfc3164_opts h) in
      let (s5424, f) =
        new_rfc5424-some (filter_best_effort m.rfc5424_opts)
          (filter_best_effort-All Safe5424 m.rfc5424_opts k) in
      (
        record m {
          best_effort = true;
          m3164 = s3164;
          m5424 = s5424;
          m3164_be = some (
              if not (Machine3164.has_best_effort m3164)
              then Machine3164.with_best_effort m3164
              else m3164);
          m5424_be = some (
              if not (Machine5424.has_best_effort m5424)
              then Machine5424.with_best_effort m5424
              else m5424);
        },
        rw (e, f),
        record {
          best3164 = λ _. (
            if not (Machine3164.has_best_effort m3164)
                then Machine3164.with_best_effort m3164
                else m3164,
            refl,
            ground arith,
          );
          best5424 = λ _. (
            if not (Machine5424.has_best_effort m5424)
                then Machine5424.with_best_effort m5424
                else m5424,
            refl,
            ground arith,
          );
        },
      )

  pub build-Built :
      (m : Auto Location)
      → m.best_effort ≡ false
      → All Safe3164 m.rfc3164_opts
      → All Safe5424 m.rfc5424_opts
      → (a : Auto Location) × (build m ≡ some a) × Built a
  unfolding build
  build-Built m b h k =
      let (c3164, e) = new_rfc3164-some m.rfc3164_opts h in
      let (c5424, f) = new_rfc5424-some m.rfc5424_opts k in
      elim (Bool-cases (Machine3164.has_best_effort c3164 || Machine5424.has_best_effort c5424)) [
        | inl y ↦ rw (e, f, y) (promote-Built m c3164 c5424 h k)
        | inr n ↦
            rw (e, f, n)
              (
                record m { m3164 = c3164; m5424 = c5424 },
                refl,
                record { best3164 = cc; best5424 = cc },
              )
      ]

  -- A machine option that an option of the package brings panics on no machine of its own format.
  abbrev pub SafeOption : AutoOption Location → Type 0
  SafeOption (rfc3164_options opts) = All Safe3164 opts
  SafeOption (rfc5424_options opts) = All Safe5424 opts
  SafeOption no_fallback_option = Unit

  pub All-append :
      (P : MachineOption Location → Type 0) (xs ys : List (MachineOption Location))
      → All P xs
      → All P ys
      → All P (xs ++ ys)
  All-append P [] ys h k = k
  All-append P (x ∷ xs) ys (h, hs) k = (h, All-append P xs ys hs k)

  apply_options-Safe :
      (opts : List (AutoOption Location)) (m : Auto Location)
      → All SafeOption opts
      → (m.best_effort ≡ false) × All Safe3164 m.rfc3164_opts × All Safe5424 m.rfc5424_opts
      → ((apply_options opts m).best_effort ≡ false)
        × All Safe3164 (apply_options opts m).rfc3164_opts
        × All Safe5424 (apply_options opts m).rfc5424_opts
  unfolding apply_options
  apply_options-Safe [] m h k = k
  apply_options-Safe (rfc3164_options os ∷ opts) m (h, hs) (b, k, l) =
      apply_options-Safe opts (apply_option (rfc3164_options os) m) hs
        (b, All-append Safe3164 m.rfc3164_opts os k h, l)
  apply_options-Safe (rfc5424_options os ∷ opts) m (h, hs) (b, k, l) =
      apply_options-Safe opts (apply_option (rfc5424_options os) m) hs
        (b, k, All-append Safe5424 m.rfc5424_opts os l h)
  apply_options-Safe (no_fallback_option ∷ opts) m (h, hs) k =
      apply_options-Safe opts (apply_option no_fallback_option m) hs k

  -- With options that do not panic on the machine they are for, `NewMachine` returns a machine, and
  -- if that has best effort on, then it has both lenient machines, with best effort on.
  pub new_machine-Built :
      (opts : List (AutoOption Location))
      → All SafeOption opts
      → (a : Auto Location) × (new_machine opts ≡ some a) × Built a
  unfolding new_machine
  new_machine-Built opts h =
      let (b, k, l) = apply_options-Safe opts empty h (refl, tt, tt) in
      build-Built (apply_options opts empty) b k l

  -- On a machine whose options do not panic on the machine they are for, and that has both lenient machines if best effort
  -- is on, `WithBestEffort` returns, turns best effort on, and leaves both lenient machines there.
  pub with_best_effort-Built :
      (m : Auto Location)
      → Built m
      → All Safe3164 m.rfc3164_opts
      → All Safe5424 m.rfc5424_opts
      → (a : Auto Location) × (with_best_effort m ≡ some a) × Built a × (a.best_effort ≡ true)
  unfolding with_best_effort
  with_best_effort-Built m w h k =
      let (c3164, e) = new_rfc3164-some m.rfc3164_opts h in
      let (c5424, f) = new_rfc5424-some m.rfc5424_opts k in
      elim (Bool-cases m.best_effort) [
        | inl y ↦ (m, ground arith, w, y)
        | inr n ↦ (
          record m {
            best_effort = true;
            m3164_be = some (Machine3164.with_best_effort c3164);
            m5424_be = some (Machine5424.with_best_effort c5424);
          },
          ground arith,
          record {
            best3164 = λ _. (Machine3164.with_best_effort c3164, refl, refl);
            best5424 = λ _. (Machine5424.with_best_effort c5424, refl, refl);
          },
          refl,
        )
      ]
