-- ===== src/Gateway/Routes/First.antt =====
-- A router for the tests.
use faas_drl.Base.{
  ℕ, zero, suc, ◌≡◌, refl, true, Option, none, some, List, [], ◌∷◌, get_elem?, if◌then◌else◌, arith,
  false, Bool-cases, inl, inr,
}
use faas_drl.Base.Bytes.{eq_bytes_refl}
use faas_drl.Text.{contains}
use faas_drl.Http.{Request}
use faas_drl.Gateway.Routes.{RoutePattern}
use faas_drl.Gateway.Routes.Guarded.{Fits, fits, fits_iff}

-- A router that takes the first route that fits.
abbrev pub choose : List RoutePattern → Request → Option ℕ
choose [] r = none
choose (p ∷ ps) r =
    let rest = choose ps r in
    if fits p r.url.path then some 0 else (elim rest [ none ↦ none | some i ↦ some (suc i) ])

choose-fits :
    (ps : List RoutePattern) (r : Request) (i : ℕ) (p : RoutePattern)
    → choose ps r ≡ some i
    → get_elem? ps i ≡ some p
    → fits p r.url.path ≡ true
choose-fits [] r i p e g = absurd (cc g)
choose-fits (q ∷ ps) r zero p e g = ground (arith, e, g)
choose-fits (q ∷ ps) r (suc i) p e g = ground (arith, e, choose-fits ps r i p)

pub choose-Fits :
    (ps : List RoutePattern) (r : Request) (i : ℕ) (p : RoutePattern)
    → choose ps r ≡ some i
    → get_elem? ps i ≡ some p
    → Fits p r.url.path
choose-Fits ps r i p e g = (fits_iff p r.url.path).0 (choose-fits ps r i p e g)

pub choose-TakesPlain :
    (ps : List RoutePattern) (r : Request) (i : ℕ)
    → get_elem? ps i ≡ some (record { template = r.url.path; by_prefix = false; methods = [] })
    → contains b'{' r.url.path ≡ false
    → (j : ℕ) × (p : RoutePattern) × (choose ps r ≡ some j) × (get_elem? ps j ≡ some p)
choose-TakesPlain [] r i e k = absurd (cc e)
choose-TakesPlain (q ∷ ps) r zero e k =
    let same : q ≡ record { template = r.url.path; by_prefix = false; methods = [] } = cc e in
    let fit : fits q r.url.path ≡ true = rw (same, k) (eq_bytes_refl r.url.path) in
    (0, q, rw fit refl, refl)
choose-TakesPlain (q ∷ ps) r (suc i) e k = elim (Bool-cases (fits q r.url.path)) [
  | inl f ↦ (0, q, rw f refl, refl)
  | inr f ↦ let (j, p, c, g) = choose-TakesPlain ps r i e k in (suc j, p, rw (f, c) refl, g)
]
