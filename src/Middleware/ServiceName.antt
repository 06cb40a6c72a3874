-- ===== src/Middleware/ServiceName.antt =====
-- gateway/pkg/middleware/service_name.go: a full name is split at its last dot.
use faas_drl.Base.{
  suc, ◌≡◌, refl, none, some, ◌∷◌, ◌++◌, arith, take, drop, take-append, drop-append_cons, ◌⊎◌, inl,
  inr, Option-cases,
}
use faas_drl.Base.Bytes.{Bytes}
use faas_drl.Text.{Lacks, last_index}
use faas_drl.Text.Laws.{
  last_index-Lacks, last_index-Lacks_of_none, last_index-append, last_index_cut,
}

-- The name and the namespace.
unfoldable pub get_namespace : Bytes → Bytes → Bytes × Bytes
get_namespace default_namespace full_name = elim (last_index b'.' full_name) [
  | some index ↦ (take index full_name, drop (suc index) full_name)
  | none ↦ (full_name, default_namespace)
]

-- A name qualified by a namespace with no dot is split into the two.
pub get_namespace-qualified :
    (d name ns : Bytes) → Lacks b'.' ns → get_namespace d (name ++ b'.' ∷ ns) ≡ (name, ns)
unfolding get_namespace
get_namespace-qualified d name ns h =
    rw (last_index-append b'.' name ns h, get_namespace)
      (ground (arith, take-append name (b'.' ∷ ns), drop-append_cons name b'.' ns))

-- A name with no dot takes the default namespace.
pub get_namespace-plain : (d name : Bytes) → Lacks b'.' name → get_namespace d name ≡ (name, d)
unfolding get_namespace
get_namespace-plain d name h = rw (last_index-Lacks b'.' name h, get_namespace)

-- The two ways in which a name is read.
abbrev pub IsSplit : Bytes → Bytes → Bytes × Bytes → Type 0
IsSplit d full (name, ns) =
    ((full ≡ name ++ b'.' ∷ ns) × Lacks b'.' ns) ⊎ ((full ≡ name) × (ns ≡ d) × Lacks b'.' full)

-- A full name is read as a name and a namespace with no dot, joined by a dot, or, if it has no dot,
-- as a name in the default namespace.
pub get_namespace-IsSplit : (d full : Bytes) → IsSplit d full (get_namespace d full)
unfolding get_namespace
get_namespace-IsSplit d full = elim (Option-cases (last_index b'.' full)) [
  | inl e ↦ rw (e, get_namespace) (inr (refl, refl, last_index-Lacks_of_none b'.' full e))
  | inr (i, e) ↦ rw (e, get_namespace) (inl (last_index_cut b'.' full e))
]

-- The namespace never holds a dot if the default namespace holds none.
pub get_namespace-Lacks : (d full : Bytes) → Lacks b'.' d → Lacks b'.' (get_namespace d full).1
get_namespace-Lacks d full h = elim (get_namespace-IsSplit d full) [
  | inl (_, k) ↦ k
  | inr (_, e, _) ↦ rw e h
]
