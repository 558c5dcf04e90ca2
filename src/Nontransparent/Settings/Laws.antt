-- ===== src/Nontransparent/Settings/Laws.antt =====
-- What the constructors of the nontransparent package set up.
use go_syslog.Base.{ℕ, ◌≡◌, refl, ◌⊎◌, Option, none, some, List, [], ◌∷◌, ◌++◌, true, false, All}
use go_syslog.Options as Options
use go_syslog.Options.{ParserOption, configure}
use go_syslog.Auto.Machine.{Auto}
use go_syslog.Auto.Machine.Safe.{Safe3164, Safe5424, Built}
use go_syslog.Auto.Transport.Laws.{transport_machine-Built, safe_opts-Safe3164, safe_opts-Safe5424}
use go_syslog.Nontransparent.Trailer.{TrailerType, value}
use mathlib.Core.Path.{subst, sym}
use go_syslog.Base.{ap}
use go_syslog.Auto.Machine.{safe_machine_options}
use go_syslog.Nontransparent.Settings.{
  set_trailer, Settings, defaults, configurable, configured, with_trailer, new_parser_auto,
}

-- A type of trailer that has a byte.
abbrev pub IsKnown : TrailerType → Type 0
IsKnown t = (b : ℕ) × (value t ≡ some b)

module _ {Location : Type 0} where
  -- An option that the packages of the library offer: one of syslog or auto, or a trailer.
  abbrev pub IsOffered : ParserOption Location (Settings Location) → Type 0
  IsOffered (ParserOption.own set) = (t : TrailerType) × (ParserOption.own set ≡ with_trailer t)
  IsOffered other = Unit

  set_trailer-IsKnown :
      (t : TrailerType) (o : Option ℕ) (m : Settings Location)
      → value t ≡ o
      → IsKnown m.trailertyp
      → IsKnown (set_trailer t o m).trailertyp
  set_trailer-IsKnown t none m e k = k
  set_trailer-IsKnown t (some b) m e k = (b, e)

  apply-IsKnown :
      (opt : ParserOption Location (Settings Location)) (m : Settings Location)
      → IsOffered opt
      → IsKnown m.trailertyp
      → IsKnown (Options.apply configurable opt m).trailertyp
  unfolding Options.apply
  apply-IsKnown ParserOption.best_effort m h k = k
  apply-IsKnown ParserOption.without_parser_fallback m h k = k
  apply-IsKnown (ParserOption.max_message_length n) m h k = k
  apply-IsKnown (ParserOption.machine_options opts) m h k = k
  apply-IsKnown (ParserOption.rfc3164_machine_options opts) m h k = k
  apply-IsKnown (ParserOption.rfc5424_machine_options opts) m h k = k
  apply-IsKnown (ParserOption.own set) m (t, e) k =
      let q : set m ≡ set_trailer t (value t) m = ap (λ o. Options.apply configurable o m) e in
      subst (λ (x : Settings Location). IsKnown x.trailertyp) (sym q)
        (set_trailer-IsKnown t (value t) m refl k)

  configure-IsKnown :
      (opts : List (ParserOption Location (Settings Location))) (m : Settings Location)
      → All IsOffered opts
      → IsKnown m.trailertyp
      → IsKnown (configure configurable opts m).trailertyp
  unfolding configure
  configure-IsKnown [] m h k = k
  configure-IsKnown (opt ∷ opts) m (h, hs) k =
      configure-IsKnown opts (Options.apply configurable opt m) hs (apply-IsKnown opt m h k)

  -- With the options that the library offers, the constructors know the byte of the trailer: the
  -- error that they drop does not occur, and the byte is that of the type of the trailer.
  pub configured-trailer :
      (opts : List (ParserOption Location (Settings Location)))
      → All IsOffered opts
      → value (configured opts).trailertyp ≡ some (configured opts).trailer
  unfolding configured
  configured-trailer opts h = let (b, e) = configure-IsKnown opts defaults h (10, refl) in rw e refl

  -- With options of their own formats that do not panic there, and whatever the generic machine
  -- options do, `NewParserAuto` returns with a machine that has both lenient machines if best effort
  -- is on, and best effort is on if it was asked for.
  pub new_parser_auto-Built_nontransparent :
      (m : Settings Location)
      → All Safe3164 m.rfc3164_opts
      → All Safe5424 m.rfc5424_opts
      → (a : Auto Location) × (new_parser_auto m ≡ some a)
        × Built a
        × ((m.best_effort ≡ false) ⊎ (a.best_effort ≡ true))
  unfolding new_parser_auto
  new_parser_auto-Built_nontransparent m h k =
      transport_machine-Built m.no_fallback m.best_effort
        (safe_machine_options m.internal_opts ++ m.rfc3164_opts)
        (safe_machine_options m.internal_opts ++ m.rfc5424_opts)
        (safe_opts-Safe3164 m.internal_opts m.rfc3164_opts h)
        (safe_opts-Safe5424 m.internal_opts m.rfc5424_opts k)
