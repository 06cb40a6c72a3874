-- ===== src/Gateway/Start/Tests.antt =====
-- The start of a gateway from its environment.
use faas_drl.Base.{◌⊎◌, inr, none, some, [], ◌∷◌, ◌==◌, if◌then◌else◌}
use faas_drl.Base.Bytes.{Bytes, codes, eq_bytes}
use faas_drl.Effect.{Error}
use faas_drl.Types.Config.{Parsers}

-- Texts that begin with a slash are no URLs.
abbrev parsers : Parsers Bytes
parsers = record {
  parse_url = λ s. elim s [
    | [] ↦ (none, some [])
    | b ∷ t ↦ if b == b'/' then (some (codes "parse"), none) else (none, some (b ∷ t))
  ];
  print_url = λ url. codes "u";
  parse_duration = λ s. none;
}

abbrev getenv : Bytes → Bytes
getenv key =
    if eq_bytes key (codes "functions_provider_url")
    then codes "http://faas"
    else (if eq_bytes key (codes "basic_auth") then codes "true" else [])

abbrev secrets : Bytes → Error ⊎ (Bytes × Bytes)
secrets path = inr (codes "admin", path)
