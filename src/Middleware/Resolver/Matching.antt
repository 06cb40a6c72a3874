-- ===== src/Middleware/Resolver/Matching.antt =====
-- What the pattern of resolver.go matches, and the parts of a path that it gives back.
use faas_drl.Base.{
  ◌≡◌, ◌≢◌, refl, sym, ap, ◌∙◌, ◌↔◌, ◌⊎◌, inl, inr, true, Option, some, [], ◌∷◌, ◌++◌, arith, All,
  Option-cases,
}
use faas_drl.Base.Bytes.{Bytes, codes}
use faas_drl.Text.{strip_prefix, span}
use faas_drl.Text.Laws.{eq-append_of_strip_prefix, Begins, span-IsSpan, span-append}
use faas_drl.Middleware.Resolver.{name_byte, path_byte, skip, match_tail, function_matcher}

-- The four ways in which a match can begin.
pub data IsHead : Bytes → Type 0 where
  plain : IsHead (codes "function/")
  slash : IsHead (codes "/function/")
  async : IsHead (codes "async-function/")
  slash_async : IsHead (codes "/async-function/")

-- The strings that the pattern matches, with the groups: a head, the longest name, the longest
-- rest of the path, and what is left unread.
pub record IsMatch (s name path : Bytes) : Type 0 where
  pub head : Bytes
  pub unread : Bytes
  pub known : IsHead head
  pub spelled : s ≡ head ++ (name ++ (path ++ unread))
  pub named : name ≢ []
  pub name_bytes : All (λ b. name_byte b ≡ true) name
  pub name_longest : Begins name_byte (path ++ unread)
  pub path_bytes : All (λ b. path_byte b ≡ true) path
  pub path_longest : Begins path_byte unread

abbrev tail_of : Bytes → Option (Bytes × Bytes)
tail_of rest = match_tail (span name_byte rest)

function_matcher-head :
    (head : Bytes) (rest : Bytes) → IsHead head → function_matcher (head ++ rest) ≡ tail_of rest
unfolding function_matcher
function_matcher-head head rest plain = refl
function_matcher-head head rest slash = refl
function_matcher-head head rest async = refl
function_matcher-head head rest slash_async = refl

match_tail-eq :
    (name path unread : Bytes)
    → name ≢ []
    → All (λ b. path_byte b ≡ true) path
    → Begins path_byte unread
    → match_tail (name, path ++ unread) ≡ some (name, path)
unfolding match_tail
match_tail-eq [] path unread h p b = absurd (h refl)
match_tail-eq (n ∷ name) path unread h p b = rw (span-append path_byte path unread p b) refl

pub function_matcher_complete :
    (s name path : Bytes) → IsMatch s name path → function_matcher s ≡ some (name, path)
function_matcher_complete s name path m =
    rw
      (
        m.spelled,
        function_matcher-head m.head (name ++ (path ++ m.unread)) m.known,
        span-append name_byte name (path ++ m.unread) m.name_bytes m.name_longest,
      )
      (match_tail-eq name path m.unread m.named m.path_bytes m.path_longest)

skip-cases : (lit s : Bytes) → (s ≡ lit ++ skip lit s) ⊎ (skip lit s ≡ s)
unfolding skip
skip-cases lit s = elim (Option-cases (strip_prefix lit s)) [
  | inl e ↦ inr (rw (e, skip))
  | inr (rest, e) ↦ inl (rw (e, skip) (eq-append_of_strip_prefix lit s e))
]

strip_prefix-IsHead :
    (s rest : Bytes)
    → strip_prefix (codes "function/") (skip (codes "async-") (skip (codes "/") s)) ≡ some rest
    → (head : Bytes) × IsHead head × (s ≡ head ++ rest)
strip_prefix-IsHead s rest h =
    let s1 = skip (codes "/") s in
    let e = eq-append_of_strip_prefix (codes "function/") (skip (codes "async-") s1) h in
    elim (skip-cases (codes "/") s) [
      | inl slashed ↦ elim (skip-cases (codes "async-") s1) [
        | inl tagged ↦ (
          _,
          slash_async,
          slashed ∙ ap (λ t. codes "/" ++ t) (tagged ∙ ap (λ t. codes "async-" ++ t) e),
        )
        | inr same ↦ (_, slash, slashed ∙ ap (λ t. codes "/" ++ t) (sym same ∙ e))
      ]
      | inr bare ↦ elim (skip-cases (codes "async-") s1) [
        | inl tagged ↦ (_, async, sym bare ∙ (tagged ∙ ap (λ t. codes "async-" ++ t) e))
        | inr same ↦ (_, plain, sym bare ∙ (sym same ∙ e))
      ]
    ]

-- What the second half of the pattern has read, where it matched.
tail_IsMatch :
    (s head front back : Bytes) {name path : Bytes}
    → IsHead head
    → s ≡ head ++ (front ++ back)
    → All (λ b. name_byte b ≡ true) front
    → Begins name_byte back
    → match_tail (front, back) ≡ some (name, path)
    → IsMatch s name path
unfolding match_tail
tail_IsMatch s head [] back k e p b h = cc
tail_IsMatch s head (n ∷ front) back {name} {path} k e p b h =
    let sp = span-IsSpan path_byte back in
    let same_name : n ∷ front ≡ name = ground arith in
    let same_path : (span path_byte back).0 ≡ path = ground arith in
    let cut : back ≡ path ++ (span path_byte back).1 = rw (← same_path) sp.spelled in
    record {
      head = head;
      unread = (span path_byte back).1;
      known = k;
      spelled = rw (← same_name, ← cut) e;
      named = rw (← same_name) (λ q. cc);
      name_bytes = rw (← same_name) p;
      name_longest = rw (← cut) b;
      path_bytes = rw (← same_path) sp.passes;
      path_longest = sp.stops;
    }

pub function_matcher_sound :
    (s name path : Bytes) → function_matcher s ≡ some (name, path) → IsMatch s name path
unfolding function_matcher
function_matcher_sound s name path h =
    elim (Option-cases
      (strip_prefix (codes "function/") (skip (codes "async-") (skip (codes "/") s)))) [
        | inl e ↦ absurd (cc (rw (e, function_matcher) at h))
        | inr (rest, e) ↦
            let (head, known, spelled) = strip_prefix-IsHead s rest e in
            let sp = span-IsSpan name_byte rest in
            tail_IsMatch s head _ _ known (rw (← sp.spelled) spelled) sp.passes sp.stops
              (rw (e, function_matcher) at h)
      ]

-- The matcher gives a name and a path exactly for a string that the pattern matches with these
-- groups: a head, which is "function/" with or without "/" and "async-" in front, the longest name
-- with no '/' and no '?', not empty, and the longest path with no '?'.
pub function_matcher_iff :
    (s name path : Bytes) → (function_matcher s ≡ some (name, path)) ↔ IsMatch s name path
function_matcher_iff s name path =
    (function_matcher_sound s name path, function_matcher_complete s name path)
