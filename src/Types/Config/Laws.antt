-- ===== src/Types/Config/Laws.antt =====
-- When the configuration is read, and what holds of it.
use faas_drl.Base.{
  ℕ, ◌*◌, ◌≤◌, ◌≡◌, ◌↔◌, refl, Bool, true, false, not, ◌&&◌, ◌||◌, Option, none, some, [], ◌∷◌,
  is_some, is_none, inl, inr, arith, Option-cases,
}
use faas_drl.Base.Int.{ℤ, pos, ◌*ℤ◌}
use faas_drl.Base.Bytes.{Bytes, codes}
use faas_drl.Effect.{Error}
use faas_drl.Text.Decimal.{atoi}
use faas_drl.Types.Config.{
  Parsers, GatewayConfig, Result, ◌>=>◌, parse_int_or_duration_value, read_int, read_optional_int,
  read_url, read, use_external_provider, logs_fallback,
}

-- A number of seconds is read exactly if it is at most 9223372036, which is the largest whose
-- nanoseconds fit into 64 bits.
pub parse_int_or_duration_value_iff :
    {Url : Type 0} (p : Parsers Url) (val : Bytes) (fallback : ℤ) (n : ℕ)
    → atoi val ≡ some (pos n)
    → (parse_int_or_duration_value p val fallback ≡ pos (n * 1000000000)) ↔ (n ≤ 9223372036)
unfolding parse_int_or_duration_value ◌*ℤ◌
parse_int_or_duration_value_iff p val fallback n h = rw h (ground arith)

unfoldable pub is_read : {A : Type 0} → Result A → Bool
is_read (inl err) = false
is_read (inr a) = true

is_read-bind :
    {A B : Type 0} (a : Result A) (f : A → Result B) (c b : Bool)
    → is_read a ≡ c
    → ((x : A) → is_read (f x) ≡ b)
    → is_read (a >=> f) ≡ (c && b)
unfolding ◌>=>◌ is_read
is_read-bind (inl err) f c b e h = rw⁻¹ e refl
is_read-bind (inr x) f c b e h = rw⁻¹ e (h x)

-- The variable is unset, or a number.
unfoldable pub int_ok : Bytes → Bool
int_ok [] = true
int_ok (b ∷ s) = is_some (atoi (b ∷ s))

is_read-read_int :
    (err : Error) (fallback : ℤ) (val : Bytes) → is_read (read_int err fallback val) ≡ int_ok val
unfolding read_int is_read int_ok
is_read-read_int err fallback [] = refl
is_read-read_int err fallback (b ∷ s) = elim (Option-cases (atoi (b ∷ s))) [
  | inl e ↦ rw (e, read_int) refl
  | inr (n, e) ↦ rw (e, read_int) refl
]

is_read-read_optional_int :
    (err : Error) (val : Bytes) → is_read (read_optional_int err val) ≡ int_ok val
unfolding read_optional_int is_read int_ok
is_read-read_optional_int err [] = refl
is_read-read_optional_int err (b ∷ s) = elim (Option-cases (atoi (b ∷ s))) [
  | inl e ↦ rw (e, read_optional_int) refl
  | inr (n, e) ↦ rw (e, read_optional_int) refl
]

module _ {Url : Type 0} (p : Parsers Url) where
  -- The variable is unset, or a URL.
  unfoldable pub url_ok : Bytes → Bool
  url_ok [] = true
  url_ok (b ∷ s) = is_none (p.parse_url (b ∷ s)).0

  is_read-read_url :
      (key : Bytes) (fallback : Option Url) (val : Bytes)
      → is_read (read_url p key fallback val) ≡ url_ok val
  unfolding read_url is_read url_ok
  is_read-read_url key fallback [] = refl
  is_read-read_url key fallback (b ∷ s) = elim (Option-cases (p.parse_url (b ∷ s)).0) [
    | inl e ↦ rw (e, read_url) refl
    | inr (n, e) ↦ rw (e, read_url) refl
  ]

  -- The configuration is read exactly if each of the two URLs and the four numbers is unset or can
  -- be parsed; no other variable matters, and the parser of durations does not either.
  pub read_ok :
      (getenv : Bytes → Bytes)
      → is_read (read p getenv) ≡ (
          url_ok (getenv (codes "functions_provider_url"))
          && (url_ok (getenv (codes "logs_provider_url"))
              && (int_ok (getenv (codes "faas_nats_port"))
                  && (int_ok (getenv (codes "faas_prometheus_port"))
                      && (int_ok (getenv (codes "max_idle_conns"))
                          && (int_ok (getenv (codes "max_idle_conns_per_host")) && true))))))
  unfolding read is_read
  read_ok getenv =
      is_read-bind _ _ _ _ (is_read-read_url (codes "functions_provider_url") _ _) (λ functions.
        is_read-bind _ _ _ _ (is_read-read_url (codes "logs_provider_url") _ _) (λ logs.
          is_read-bind _ _ _ _ (is_read-read_optional_int _ _) (λ nats_port.
            is_read-bind _ _ _ _ (is_read-read_int _ _ _) (λ port.
              is_read-bind _ _ _ _ (is_read-read_int _ _ _)
                (λ idle. is_read-bind _ _ _ _ (is_read-read_int _ _ _) (λ per_host. refl))))))

  -- What holds of the configuration, if one is read.
  unfoldable pub OnRead : {A : Type 0} → (A → Type 0) → Result A → Type 0
  OnRead P (inl err) = Unit
  OnRead P (inr a) = P a

  OnRead-bind :
      {A B : Type 0} (P : B → Type 0) (a : Result A) (f : A → Result B)
      → ((x : A) → a ≡ inr x → OnRead P (f x))
      → OnRead P (a >=> f)
  unfolding ◌>=>◌ OnRead
  OnRead-bind P (inl err) f h = tt
  OnRead-bind P (inr x) f h = h x refl

  -- A URL that was read is there.
  read_url-is_some :
      (key : Bytes) (fallback url : Option Url) (val : Bytes)
      → ((s : Bytes) → (p.parse_url s).0 ≡ none → is_some (p.parse_url s).1 ≡ true)
      → read_url p key fallback val ≡ inr url
      → (is_none fallback || is_some url) ≡ true
  unfolding read_url
  read_url-is_some key fallback url [] parses e = ground (arith, e)
  read_url-is_some key fallback url (b ∷ s) parses e = elim (Option-cases (p.parse_url (b ∷ s)).0) [
    | inl k ↦ ground (arith, parses (b ∷ s) k, e)
    | inr (n, k) ↦ absurd (ground (arith, e, k))
  ]

-- Where `url.Parse` gives a URL or an error, and reads again what a URL prints, a configuration
-- with an external provider has a URL for the logs, too.
pub read-logs_provider_url :
    {Url : Type 0} (p : Parsers Url) (getenv : Bytes → Bytes)
    → ((s : Bytes) → (p.parse_url s).0 ≡ none → is_some (p.parse_url s).1 ≡ true)
    → ((url : Url) → (p.parse_url (p.print_url url)).0 ≡ none)
    → OnRead p
        (λ cfg. (not (use_external_provider cfg) || is_some cfg.logs_provider_url) ≡ true)
        (read p getenv)
unfolding read OnRead
read-logs_provider_url {Url} p getenv parses prints =
    let P = λ (cfg : GatewayConfig Url).
      (not (use_external_provider cfg) || is_some cfg.logs_provider_url) ≡ true in
    OnRead-bind p P _ _ (λ functions e1. OnRead-bind p P _ _ (λ logs e2.
      let k = read_url-is_some p (codes "logs_provider_url") _ _ _ parses e2 in
      OnRead-bind p P _ _ (λ nats e3. OnRead-bind p P _ _ (λ port e4.
        OnRead-bind p P _ _
          (λ idle e5. OnRead-bind p P _ _ (λ per_host e6. go functions logs k))))))
  where
    go :
        (functions logs : Option Url)
        → (is_none (logs_fallback p functions) || is_some logs) ≡ true
        → (not (is_some functions) || is_some logs) ≡ true
    go none logs k = refl
    go (some url) logs k = ground (arith, k, parses (p.print_url url) (prints url))

-- The names for the queue have defaults.
pub read-nats_names :
    {Url : Type 0} (p : Parsers Url) (getenv : Bytes → Bytes)
    → OnRead p
        (λ cfg. (is_some cfg.nats_cluster_name ≡ true) × (is_some cfg.nats_channel ≡ true))
        (read p getenv)
unfolding read OnRead
read-nats_names {Url} p getenv =
    let P = λ (cfg : GatewayConfig Url).
      (is_some cfg.nats_cluster_name ≡ true) × (is_some cfg.nats_channel ≡ true) in
    OnRead-bind p P _ _ (λ functions e1. OnRead-bind p P _ _ (λ logs e2.
      OnRead-bind p P _ _ (λ nats e3. OnRead-bind p P _ _ (λ port e4.
        OnRead-bind p P _ _ (λ idle e5. OnRead-bind p P _ _ (λ per_host e6. (refl, refl)))))))

-- What holds on reading holds of what was read.
pub of_read :
    {Url A : Type 0} (p : Parsers Url) (P : A → Type 0) (got : Result A) (a : A)
    → OnRead p P got
    → got ≡ inr a
    → P a
unfolding OnRead
of_read p P (inl err) a h e = absurd (cc e)
of_read p P (inr b) a h e = let q : b ≡ a = cc e in rw⁻¹ q h
