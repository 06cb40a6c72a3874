-- ===== src/Http/Laws.antt =====
-- The status of a response: what the first call that writes it says.
use faas_drl.Base.{ℕ, ◌≡◌, refl, none, some, [], ◌∷◌, ◌++◌, inl, inr, Option-cases}
use faas_drl.Base.Bytes.{Bytes}
use faas_drl.Http.{Writer, final_status, write_header, write, http_error}

pub status-write_header :
    (code : ℕ) (w : Writer) → w.status ≡ none → (write_header code w).status ≡ some code
unfolding write_header
status-write_header code w h = rw h refl

pub status-write : (bytes : Bytes) (w : Writer) → (write bytes w).status ≡ some (final_status w)
unfolding write write_header
status-write bytes w = elim (Option-cases w.status) [ inl e ↦ rw e refl | inr (c, e) ↦ rw e refl ]

-- A response with a code and a text.
pub status-write-write_header :
    (code : ℕ) (bytes : Bytes) (w : Writer)
    → w.status ≡ none
    → (write bytes (write_header code w)).status ≡ some code
status-write-write_header code bytes w h =
    rw (status-write bytes (write_header code w), status-write_header code w h) refl

pub status-http_error :
    (message : Bytes) (code : ℕ) (w : Writer)
    → w.status ≡ none
    → (http_error message code w).status ≡ some code
unfolding http_error
status-http_error message code w h = status-write-write_header code (message ++ 10 ∷ []) _ h
