-- ===== src/Scaling/Cache/History.antt =====
-- Any run of calls of the cache, against what was set for each function last.
use faas_drl.Base.{
  ◌≡◌, refl, ◌∙◌, Bool, true, false, ◌&&◌, Option, none, some, List, [], ◌∷◌, All, if◌then◌else◌,
  arith,
}
use faas_drl.Base.Int.{ℤ, ◌+ℤ◌, leb_ℤ}
use faas_drl.Base.Bytes.{Bytes, eq_bytes, eq_bytes_iff}
use faas_drl.Text.{Lacks}
use faas_drl.Scaling.Response.{ServiceQueryResponse, empty_response}
use faas_drl.Scaling.Cache.{FunctionCache, cache_key, set, get, new_function_cache}
use faas_drl.Scaling.Cache.Laws.{cache_key-injective, get-set, get-new_function_cache}

-- Calls of the cache at a time, for a function in a namespace.
pub data Call : Type 0 where
  set_at : (now : ℤ) → (name namespace : Bytes) → (response : ServiceQueryResponse) → Call
  get_at : (now : ℤ) → (name namespace : Bytes) → Call

abbrev pub Answer : Type 0
Answer = ServiceQueryResponse × Bool

-- What the calls of `Get` return, one after another.
unfoldable pub run : List Call → FunctionCache → List Answer
run [] fc = []
run (set_at now f n r ∷ calls) fc = run calls (set now f n r fc)
run (get_at now f n ∷ calls) fc = get now f n fc ∷ run calls fc

-- What was set for a function last, and when; the newest call first.
abbrev pub last_set : Bytes → Bytes → List Call → Option (ℤ × ServiceQueryResponse)
last_set f n [] = none
last_set f n (set_at now g m r ∷ past) =
    if eq_bytes g f && eq_bytes m n then some (now, r) else last_set f n past
last_set f n (get_at now g m ∷ past) = last_set f n past

-- A response is a hit up to its expiry, and comes back when it is stale too.
abbrev pub answer : ℤ → ℤ → Option (ℤ × ServiceQueryResponse) → Answer
answer expiry now none = (empty_response, false)
answer expiry now (some (t, r)) = (r, leb_ℤ now (t +ℤ expiry))

-- What each `Get` should return behind the calls before it.
abbrev pub answers : ℤ → List Call → List Call → List Answer
answers expiry past [] = []
answers expiry past (set_at now f n r ∷ calls) = answers expiry (set_at now f n r ∷ past) calls
answers expiry past (get_at now f n ∷ calls) =
    answer expiry now (last_set f n past) ∷ answers expiry (get_at now f n ∷ past) calls

abbrev pub namespace_of : Call → Bytes
namespace_of (set_at now f n r) = n
namespace_of (get_at now f n) = n

-- A cache that answers for every function, whose namespace holds no dot, as the calls before say.
abbrev Tracks : ℤ → List Call → FunctionCache → Type 0
Tracks expiry past fc =
    (fc.expiry ≡ expiry)
    × ((now : ℤ) (f n : Bytes)
        → Lacks b'.' n
        → get now f n fc ≡ answer expiry now (last_set f n past))

same_key :
    (f m g n : Bytes)
    → Lacks b'.' m
    → Lacks b'.' n
    → eq_bytes (cache_key f m) (cache_key g n) ≡ (eq_bytes f g && eq_bytes m n)
same_key f m g n hm hn = ground (
  arith,
  eq_bytes_iff f g,
  eq_bytes_iff m n,
  eq_bytes_iff (cache_key f m) (cache_key g n),
  cache_key-injective f g m n hm hn,
)

expiry-set :
    (t : ℤ) (f m : Bytes) (r : ServiceQueryResponse) (fc : FunctionCache)
    → (set t f m r fc).expiry ≡ fc.expiry
unfolding set
expiry-set t f m r fc = refl

answer-if :
    (expiry now t : ℤ) (r : ServiceQueryResponse) (o : Option (ℤ × ServiceQueryResponse)) (b : Bool)
    → (if b then (r, leb_ℤ now (t +ℤ expiry)) else answer expiry now o)
      ≡ answer expiry now (if b then some (t, r) else o)
answer-if expiry now t r o true = refl
answer-if expiry now t r o false = refl

Tracks-set :
    (expiry t : ℤ) (f m : Bytes) (r : ServiceQueryResponse) (past : List Call) (fc : FunctionCache)
    → Lacks b'.' m
    → Tracks expiry past fc
    → Tracks expiry (set_at t f m r ∷ past) (set t f m r fc)
Tracks-set expiry t f m r past fc hm (e, k) = (
  expiry-set t f m r fc ∙ e,
  λ now g n hn.
      rw (get-set t now f m g n r fc, same_key f m g n hm hn, k now g n hn, e)
        (answer-if expiry now t r (last_set g n past) (eq_bytes f g && eq_bytes m n)),
)

run-answers :
    (expiry : ℤ) (calls past : List Call) (fc : FunctionCache)
    → All (λ c. Lacks b'.' (namespace_of c)) calls
    → Tracks expiry past fc
    → run calls fc ≡ answers expiry past calls
unfolding run
run-answers expiry [] past fc h k = refl
run-answers expiry (set_at t f m r ∷ calls) past fc (hm, h) k =
    run-answers expiry calls (set_at t f m r ∷ past) (set t f m r fc) h
      (Tracks-set expiry t f m r past fc hm k)
run-answers expiry (get_at t f m ∷ calls) past fc (hm, h) k =
    rw (k.1 t f m hm, run-answers expiry calls (get_at t f m ∷ past) fc h k) refl

-- Over any sequence of calls of a new cache, at any times and in namespaces without dots, each
-- `Get` returns what was set last, before it, for the same function in the same namespace, with a
-- hit exactly if that is no older than the expiry; if nothing was set, the empty response and no
-- hit. Functions never share an entry, and no entry is lost.
pub run_refines :
    (expiry : ℤ) (calls : List Call)
    → All (λ c. Lacks b'.' (namespace_of c)) calls
    → run calls (new_function_cache expiry) ≡ answers expiry [] calls
unfolding new_function_cache
run_refines expiry calls h =
    run-answers expiry calls [] (new_function_cache expiry) h
      (refl, λ now f n hn. get-new_function_cache now expiry f n)
