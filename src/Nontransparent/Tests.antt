-- ===== src/Nontransparent/Tests.antt =====
-- Trailers, read and written, and parsers with options.
use go_syslog.Base.{◌≡◌, ◌⊎◌, refl, some, List, [], ◌∷◌, codes, true, false, All}
use go_syslog.Base.Int.{negsuc}
use go_syslog.Machines.Library as Library
use go_syslog.Rfc5424.Machine as Machine5424
use go_syslog.Options.{ParserOption}
use go_syslog.Auto.Machine.{Auto}
use go_syslog.Auto.Machine.Safe.{Built}
use go_syslog.Nontransparent.Trailer.{
  nul, value, to_upper, marshal_text, unmarshal_text, unmarshal_text-marshal_text,
}
use go_syslog.Nontransparent.Settings.{
  Settings, defaults, configured, with_trailer, new_parser_auto,
}
use go_syslog.Nontransparent.Settings.Laws.{
  IsOffered, configured-trailer, new_parser_auto-Built_nontransparent,
}

nul_marshalled : marshal_text nul ≡ some (codes "NUL")
unfolding marshal_text
nul_marshalled = refl

nul_upper : to_upper (codes "Nul") ≡ codes "NUL"
unfolding to_upper
nul_upper = refl

unmarshal_text-marshal_text_example : unmarshal_text (codes "Nul") ≡ (nul, true)
unmarshal_text-marshal_text_example =
    unmarshal_text-marshal_text nul (codes "Nul") nul_marshalled nul_upper

-- An unknown trailer behind a known one.
abbrev options : List (ParserOption Unit (Settings Unit))
options = with_trailer nul ∷ with_trailer (negsuc 0) ∷ ParserOption.best_effort ∷ []

options-IsOffered : All IsOffered options
options-IsOffered = ((nul, refl), ((negsuc 0, refl), (tt, tt)))

configured-trailer_example :
    value (configured options).trailertyp ≡ some (configured options).trailer
configured-trailer_example = configured-trailer options options-IsOffered

abbrev settings : Settings Unit
settings = record defaults {
  best_effort = true;
  internal_opts = Library.with_rfc3339 ∷ [];
  rfc5424_opts = Library.with_compliant_msg ∷ [];
}

new_parser_auto-Built_nontransparent_example :
    (a : Auto Unit) × (new_parser_auto settings ≡ some a)
    × Built a
    × ((settings.best_effort ≡ false) ⊎ (a.best_effort ≡ true))
new_parser_auto-Built_nontransparent_example =
    new_parser_auto-Built_nontransparent settings tt
      ((λ m. (Machine5424.with_compliant_msg m, refl)), tt)
