-- ===== src/Http/Headers.antt =====
-- Header maps of net/http, with the canonical form of keys (net/textproto).
use faas_drl.Base.{
  ℕ, ◌+◌, ◌-◌, ◌≡◌, refl, Bool, true, false, not, ◌&&◌, ◌||◌, Option, none, some, List, [], ◌∷◌,
  ◌++◌, leb, ◌==◌, if◌then◌else◌,
}
use faas_drl.Base.Bytes.{Bytes, codes, eq_bytes}
use faas_drl.Base.Dict.{Dict, lookup, insert, erase, lookup-insert, lookup-erase}

abbrev pub Header : Type 0
Header = Dict (List Bytes)

in_bytes : ℕ → Bytes → Bool
in_bytes b [] = false
in_bytes b (c ∷ s) = b == c || in_bytes b s

is_lower : ℕ → Bool
is_lower b = leb b'a' b && leb b b'z'

is_upper : ℕ → Bool
is_upper b = leb b'A' b && leb b b'Z'

is_digit : ℕ → Bool
is_digit b = leb b'0' b && leb b b'9'

-- The bytes of a token (RFC 7230).
is_token_byte : ℕ → Bool
unfolding in_bytes is_lower is_upper is_digit
is_token_byte b = is_lower b || (is_upper b || (is_digit b || in_bytes b (codes "!#$%&'*+-.^_`|~")))

is_token : Bytes → Bool
unfolding is_token_byte
is_token [] = true
is_token (b ∷ s) = is_token_byte b && is_token s

-- The first letter and each letter behind a '-' in upper case, the others in lower case.
canonical_from : Bool → Bytes → Bytes
unfolding is_lower is_upper
canonical_from upper [] = []
canonical_from upper (b ∷ s) =
    let c =
      if upper && is_lower b then b - 32 else (if not upper && is_upper b then b + 32 else b) in
    c ∷ canonical_from (c == b'-') s

-- `CanonicalHeaderKey`: a key with other bytes than those of a token is left alone.
unfoldable pub canonical_key : Bytes → Bytes
unfolding is_token canonical_from
canonical_key k = if is_token k then canonical_from true k else k

-- `Header.Get`: the first value, or the empty string.
abbrev pub first_value : Option (List Bytes) → Bytes
first_value none = []
first_value (some []) = []
first_value (some (v ∷ vs)) = v

unfoldable pub get_header : Bytes → Header → Bytes
get_header k h = first_value (lookup (canonical_key k) h)

unfoldable pub set_header : Bytes → Bytes → Header → Header
set_header k v h = insert (canonical_key k) (v ∷ []) h

abbrev pub values : Option (List Bytes) → List Bytes
values none = []
values (some vs) = vs

unfoldable pub add_header : Bytes → Bytes → Header → Header
add_header k v h = let key = canonical_key k in insert key (values (lookup key h) ++ v ∷ []) h

unfoldable pub del_header : Bytes → Header → Header
del_header k h = erase (canonical_key k) h

pub lookup-set_header :
    (k j v : Bytes) (h : Header)
    → lookup j (set_header k v h)
      ≡ (if eq_bytes (canonical_key k) j then some (v ∷ []) else lookup j h)
unfolding set_header
lookup-set_header k j v h = lookup-insert (canonical_key k) j (v ∷ []) h

-- Another key is left alone.
pub get_header-add_header_other :
    (k j v : Bytes) (h : Header)
    → eq_bytes (canonical_key k) (canonical_key j) ≡ false
    → get_header j (add_header k v h) ≡ get_header j h
unfolding get_header add_header
get_header-add_header_other k j v h other =
    rw
      (
        lookup-insert (canonical_key k) (canonical_key j)
            (values (lookup (canonical_key k) h) ++ v ∷ []) h,
        other,
      )
      refl

pub lookup-del_header :
    (k j : Bytes) (h : Header)
    → lookup j (del_header k h) ≡ (if eq_bytes (canonical_key k) j then none else lookup j h)
unfolding del_header
lookup-del_header k j h = lookup-erase (canonical_key k) j h

canonical_tests :
    (canonical_key (codes "x-call-ID") ≡ codes "X-Call-Id")
    × (canonical_key (codes "bad key") ≡ codes "bad key")
unfolding canonical_key
canonical_tests = (refl, refl)
