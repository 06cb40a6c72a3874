-- ===== src/Http.antt =====
-- What the gateway uses of Go's package net/http: header maps, requests, and the writer of a
-- response.
pub mod Headers
pub mod Laws
pub mod Decoded
use faas_drl.Base.{
  ℕ, Bool, Option, none, some, List, [], ◌∷◌, ◌++◌, is_none, if◌then◌else◌, length, ◌⊎◌, inl, inr,
}
use faas_drl.Base.Bytes.{Bytes, codes}
use faas_drl.Base.Dict.{Dict}
use faas_drl.Effect.{Error, M, done, pure}
use faas_drl.Http.Headers.{Header, set_header}

-- A URL as far as handlers read it: `URL.Path`, `URL.RawQuery` and `URL.String()`.
pub record Url : Type 0 where
  pub path : Bytes
  pub raw_query : Bytes
  pub text : Bytes

-- A body with the bytes that come and, if reading breaks off, the error. `read_all` is `io.ReadAll`
-- on a body, if there is one, where an error discards the bytes.
pub record Body : Type 0 where
  pub content : Bytes
  pub failure : Option Error

abbrev pub read_all : Option Body → Error ⊎ Bytes
read_all none = inr []
read_all (some body) = elim body.failure [ some err ↦ inl err | none ↦ inr body.content ]

pub record Request : Type 0 where
  pub method : Bytes
  pub url : Url
  pub header : Header
  pub host : Bytes
  pub remote_addr : Bytes
  pub body : Option Body

-- What was written so far; `status` is nil until the header is written.
pub record Writer : Type 0 where
  pub status : Option ℕ
  pub header : Header
  pub body : Bytes

abbrev pub new_writer : Writer
new_writer = record { status = none; header = []; body = [] }

-- The first call of `WriteHeader` counts.
unfoldable pub write_header : ℕ → Writer → Writer
write_header code w = elim w.status [ none ↦ record w { status = some code } | some c ↦ w ]

-- A `Write` before any `WriteHeader` writes the header with 200.
unfoldable pub write : Bytes → Writer → Writer
unfolding write_header
write bytes w = let w' = write_header 200 w in record w' { body = w'.body ++ bytes }

-- `http.Error`
unfoldable pub http_error : Bytes → ℕ → Writer → Writer
unfolding write_header write
http_error message code w =
    let h =
      set_header (codes "X-Content-Type-Options") (codes "nosniff")
        (set_header (codes "Content-Type") (codes "text/plain; charset=utf-8") w.header) in
    write (message ++ 10 ∷ []) (write_header code (record w { header = h }))

-- The status that the client sees when the handler has returned.
abbrev pub final_status : Writer → ℕ
final_status w = elim w.status [ none ↦ 200 | some code ↦ code ]
