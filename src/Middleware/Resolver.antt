-- ===== src/Middleware/Resolver.antt =====
-- gateway/pkg/middleware/resolver.go: the service name and the rest of the path of a URL, the
-- resolvers of upstream URLs and the transformers of paths.
pub mod Matching
pub mod Names
use faas_drl.Base.{
  ℕ, zero, suc, ◌+◌, ◌≡◌, refl, Bool, true, false, not, ◌&&◌, ◌||◌, Option, none, some, List, [],
  ◌∷◌, ◌++◌, ◌==◌, ltb, if◌then◌else◌, length,
}
use faas_drl.Base.Bytes.{Bytes, codes}
use faas_drl.Effect.{Exit, done, panicked}
use faas_drl.Text.{
  replace_first, strip_prefix, has_prefix, last_index, trim, trim_suffix, remove_all, span,
}

-- `[^/?]` and `[^?]`.
abbrev pub name_byte : ℕ → Bool
name_byte b = not (b == b'/' || b == b'?')

abbrev pub path_byte : ℕ → Bool
path_byte b = not (b == b'?')

-- A greedy optional literal, `(?:lit)?`. In the pattern below what follows an optional literal
-- never begins with its first byte, so the matcher never has to give it back.
unfoldable pub skip : Bytes → Bytes → Bytes
unfolding strip_prefix
skip lit s = elim (strip_prefix lit s) [ some rest ↦ rest | none ↦ s ]

-- `functionMatcher.FindStringSubmatch` with the pattern "^/?(?:async-)?function/([^/?]+)([^?]*)":
-- groups 1 and 2 of a match.
match_tail : Bytes × Bytes → Option (Bytes × Bytes)
unfolding span
match_tail ([], rest) = none
match_tail (n ∷ name, rest) = some (n ∷ name, (span path_byte rest).0)

unfoldable pub function_matcher : Bytes → Option (Bytes × Bytes)
unfolding skip match_tail span strip_prefix
function_matcher s =
    elim (strip_prefix (codes "function/") (skip (codes "async-") (skip (codes "/") s))) [
      | none ↦ none
      | some rest ↦ match_tail (span name_byte rest)
    ]

unfoldable pub get_service_name : Bytes → Bytes
unfolding has_prefix trim function_matcher
get_service_name url =
    let service_name : Bytes = elim (function_matcher url) [ some (name, _) ↦ name | none ↦ [] ] in
    trim b'/' (if has_prefix url (codes "/function/") then service_name else [])

-- `TransparentURLPathTransformer.Transform`, on the path of the request.
unfoldable pub transform_transparent : Bytes → Bytes
transform_transparent path = path

-- `FunctionPrefixTrimmingURLPathTransformer.Transform`.
unfoldable pub transform_trimming : Bytes → Bytes
unfolding function_matcher
transform_trimming [] = []
transform_trimming (c ∷ path) = elim (function_matcher (c ∷ path)) [
  | some (_, rest) ↦ rest
  | none ↦ c ∷ path
]

-- `SingleHostBaseURLResolver.Resolve`.
unfoldable pub resolve_single_host : Bytes → Bytes
unfolding trim_suffix
resolve_single_host base_url = trim_suffix b'/' base_url

pub record FunctionAsHostBaseUrlResolver : Type 0 where
  pub function_suffix : Bytes
  pub function_namespace : Bytes

-- Whether the last dot of the name has a byte behind it.
abbrev pub has_namespace : Bytes → Bool
has_namespace name = elim (last_index b'.' name) [
  | some index ↦ ltb (index + 1) (length name)
  | none ↦ false
]

-- `FunctionAsHostBaseURLResolver.Resolve`, on the path of the request.
unfoldable pub resolve_function_as_host : FunctionAsHostBaseUrlResolver → Bytes → Bytes
unfolding get_service_name last_index remove_all
resolve_function_as_host f path =
    let name = get_service_name path in
    let suffix : Bytes = elim f.function_suffix [
      | [] ↦ []
      | c ∷ cs ↦
          if has_namespace name then remove_all f.function_namespace (c ∷ cs) else b'.' ∷ c ∷ cs
    ] in
    codes "http://" ++ (name ++ (suffix ++ codes ":8080"))

-- `BuildURL`: the text of a URL with another path, if one is given; `with_path` is `url.Parse`, the
-- change of the path, and `URL.String`. The error of `url.Parse` is dropped, and the nil URL is
-- used: a panic.
module _ (with_path : Bytes → Option Bytes → Option Bytes) where
  abbrev pub url_string : Bytes → Option Bytes → Exit Bytes
  url_string text path = elim (with_path text path) [ some url ↦ done url | none ↦ panicked ]

  -- `SingleHostBaseURLResolver.BuildURL`; `join` is `path.Join`.
  unfoldable pub build_url_single_host :
      (Bytes → Bytes → Bytes) → Bytes → Bytes → Bytes → Bytes → Exit Bytes
  build_url_single_host join base_url function namespace health_path =
      let base = codes "/function/" ++ (function ++ b'.' ∷ (namespace ++ codes "/")) in
      let path : Bytes = elim health_path [ [] ↦ base | c ∷ cs ↦ join base (c ∷ cs) ] in
      url_string base_url (some path)

  -- `FunctionAsHostBaseURLResolver.BuildURL`
  unfoldable pub build_url_function_as_host :
      FunctionAsHostBaseUrlResolver → Bytes → Bytes → Bytes → Exit Bytes
  unfolding replace_first
  build_url_function_as_host f function namespace health_path =
      let suffix : Bytes = elim f.function_suffix [
        | [] ↦ []
        | c ∷ cs ↦ replace_first f.function_namespace namespace (c ∷ cs)
      ] in
      let path : Option Bytes = elim health_path [ [] ↦ none | c ∷ cs ↦ some (c ∷ cs) ] in
      url_string (codes "http://" ++ (function ++ b'.' ∷ (suffix ++ codes ":8080"))) path
