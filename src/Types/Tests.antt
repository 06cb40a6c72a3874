-- ===== src/Types/Tests.antt =====
-- The theorems about the retry loop and the configuration at concrete inputs.
use faas_drl.Base.{
  ℕ, suc, ◌*◌, ◌≤◌, ◌≡◌, ◌↔◌, refl, true, ◌&&◌, Option, none, some, [], ◌∷◌, ◌==◌, if◌then◌else◌,
}
use faas_drl.Base.Int.{pos}
use faas_drl.Base.Bytes.{Bytes, codes, eq_bytes}
use faas_drl.Effect.{Error, M, done}
use faas_drl.Text.Decimal.{atoi}
use faas_drl.Types.Retry.{retry}
use faas_drl.Types.Retry.Outcome.{RetryEnds, retry-RetryEnds}
use faas_drl.Types.Config.{Parsers, parse_int_or_duration_value, read}
use faas_drl.Types.Config.Laws.{is_read, url_ok, int_ok, read_ok, parse_int_or_duration_value_iff}

-- Round 1 is the first without an error; the state counts the rounds and the sleeps.
abbrev second_try : ℕ → M (ℕ × ℕ) (Option Error)
second_try i (tries, sleeps) =
    (done (if i == 1 then none else some (codes "busy")), (suc tries, sleeps))

abbrev nap : M (ℕ × ℕ) (Unit {0})
nap (tries, sleeps) = (done tt, (tries, suc sleeps))

retry-RetryEnds_example :
    RetryEnds second_try nap 5 0 none (0, 0) (retry second_try nap (pos 5) (0, 0))
retry-RetryEnds_example = retry-RetryEnds second_try nap (pos 5) (0, 0)

-- Texts that begin with a slash are no URLs.
abbrev parsers : Parsers Bytes
parsers = record {
  parse_url = λ s. elim s [
    | [] ↦ (none, some [])
    | b ∷ t ↦ if b == b'/' then (some (codes "parse"), none) else (none, some (b ∷ t))
  ];
  print_url = λ url. codes "u";
  parse_duration = λ s. none;
}

abbrev getenv : Bytes → Bytes
getenv key = if eq_bytes key (codes "functions_provider_url") then codes "http://faas" else []

sixty : atoi (codes "60") ≡ some (pos 60)
unfolding atoi
sixty = refl

parse_int_or_duration_value_iff_example :
    (parse_int_or_duration_value parsers (codes "60") (pos 0) ≡ pos (60 * 1000000000))
    ↔ (60 ≤ 9223372036)
parse_int_or_duration_value_iff_example =
    parse_int_or_duration_value_iff parsers (codes "60") (pos 0) 60 sixty

read_ok_example : is_read (read parsers getenv) ≡ (
    url_ok parsers (getenv (codes "functions_provider_url"))
    && (url_ok parsers (getenv (codes "logs_provider_url"))
        && (int_ok (getenv (codes "faas_nats_port"))
            && (int_ok (getenv (codes "faas_prometheus_port"))
                && (int_ok (getenv (codes "max_idle_conns"))
                    && (int_ok (getenv (codes "max_idle_conns_per_host")) && true))))))
read_ok_example = read_ok parsers getenv
