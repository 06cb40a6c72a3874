-- ===== src/Middleware/Resolver/Names.antt =====
-- The service name of a URL, and the path that is left for the function.
use faas_drl.Base.{
  ◌≡◌, ◌≢◌, refl, inl, inr, true, [], ◌∷◌, ◌++◌, arith, All, Option-cases, Bool-cases, append-nil,
}
use faas_drl.Base.Bytes.{Bytes, codes}
use faas_drl.Text.{Lacks, has_prefix}
use faas_drl.Text.Laws.{trim-Lacks, Begins}
use faas_drl.Middleware.Resolver.{
  name_byte, path_byte, function_matcher, get_service_name, transform_trimming,
}
use faas_drl.Middleware.Resolver.Matching.{
  IsHead, slash, slash_async, IsMatch, function_matcher_sound, function_matcher_complete,
}

name_bytes-Lacks : (s : Bytes) → All (λ b. name_byte b ≡ true) s → Lacks b'/' s
name_bytes-Lacks [] h = tt
name_bytes-Lacks (x ∷ s) h = (ground arith, name_bytes-Lacks s h.1)

-- The name of a matched URL with the prefix "/function/" is the first group.
get_service_name_of_match :
    (url name path : Bytes)
    → has_prefix url (codes "/function/") ≡ true
    → IsMatch url name path
    → get_service_name url ≡ name
unfolding get_service_name
get_service_name_of_match url name path p m =
    rw (function_matcher_complete url name path m, p, get_service_name)
      (trim-Lacks b'/' name (name_bytes-Lacks name m.name_bytes))

-- No URL yields a service name with a '/' or a '?' in it.
pub get_service_name-name_bytes :
    (url : Bytes) → All (λ b. name_byte b ≡ true) (get_service_name url)
unfolding get_service_name
get_service_name-name_bytes url = elim (Bool-cases (has_prefix url (codes "/function/"))) [
  | inl p ↦ elim (Option-cases (function_matcher url)) [
    | inl e ↦ rw (p, e, get_service_name) tt
    | inr ((name, path), e) ↦
        let m = function_matcher_sound url name path e in
        rw (get_service_name_of_match url name path p m) m.name_bytes
  ]
  | inr p ↦ rw (p, get_service_name) tt
]

-- A head, a NAME that is not empty and has no '/' and no '?', and nothing or a path that begins
-- with '/' and has no '?'.
path_IsMatch :
    (head name rest : Bytes)
    → IsHead head
    → name ≢ []
    → All (λ b. name_byte b ≡ true) name
    → Begins name_byte rest
    → All (λ b. path_byte b ≡ true) rest
    → IsMatch (head ++ (name ++ rest)) name rest
path_IsMatch head name rest known ne n b p = record {
  head = head;
  unread = [];
  known = known;
  spelled = rw (append-nil rest);
  named = ne;
  name_bytes = n;
  name_longest = rw (append-nil rest) b;
  path_bytes = p;
  path_longest = tt;
}

-- For "/function/NAME" with a NAME that is not empty and has no '/' and no '?', followed by
-- nothing or by a path that begins with '/' and has no '?', the service name is NAME and the path
-- for the function is what follows.
pub function_path :
    (name rest : Bytes)
    → name ≢ []
    → All (λ b. name_byte b ≡ true) name
    → Begins name_byte rest
    → All (λ b. path_byte b ≡ true) rest
    → (get_service_name (codes "/function/" ++ (name ++ rest)) ≡ name)
      × (transform_trimming (codes "/function/" ++ (name ++ rest)) ≡ rest)
unfolding transform_trimming has_prefix
function_path name rest ne n b p =
    let m = path_IsMatch (codes "/function/") name rest slash ne n b p in
    (
      get_service_name_of_match _ name rest refl m,
      rw (function_matcher_complete _ name rest m, transform_trimming),
    )

-- The same path behind the head of an asynchronous call.
pub transform_trimming-async :
    (name rest : Bytes)
    → name ≢ []
    → All (λ b. name_byte b ≡ true) name
    → Begins name_byte rest
    → All (λ b. path_byte b ≡ true) rest
    → transform_trimming (codes "/async-function/" ++ (name ++ rest)) ≡ rest
unfolding transform_trimming
transform_trimming-async name rest ne n b p = rw (
  function_matcher_complete _ name rest
      (path_IsMatch (codes "/async-function/") name rest slash_async ne n b p),
  transform_trimming,
)
