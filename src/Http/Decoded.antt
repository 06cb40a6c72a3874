-- ===== src/Http/Decoded.antt =====
-- The body of a request that a handler reads as JSON: what it holds, or why it cannot be read.
use faas_drl.Base.{◌≡◌, Option, none, some, ◌⊎◌, inl, inr, Option-cases}
use faas_drl.Base.Bytes.{Bytes}
use faas_drl.Effect.{Error}
use faas_drl.Http.{Body}

module _ {A : Type 0} (decode : Bytes → Option A) where
  pub data Holds : Option Body → A → Type 0 where
    whole :
        (content : Bytes) (a : A)
        → decode content ≡ some a
        → Holds (some (record { content = content; failure = none })) a

  -- It is missing, breaks off, or is not what is expected.
  pub data Unreadable : Option Body → Type 0 where
    missing : Unreadable none
    broken_off :
        (content : Bytes) (err : Error)
        → Unreadable (some (record { content = content; failure = some err }))
    undecodable :
        (content : Bytes)
        → decode content ≡ none
        → Unreadable (some (record { content = content; failure = none }))

  pub body_cases : (body : Option Body) → Unreadable body ⊎ ((a : A) × Holds body a)
  body_cases none = inl missing
  body_cases (some body) = go body.content body.failure
    where
      go :
          (content : Bytes) (failure : Option Error)
          → let b : Option Body = some (record { content = content; failure = failure }) in
            Unreadable b ⊎ ((a : A) × Holds b a)
      go content (some err) = inl (broken_off content err)
      go content none = elim (Option-cases (decode content)) [
        | inl e ↦ inl (undecodable content e)
        | inr (a, e) ↦ inr (a, whole content a e)
      ]
