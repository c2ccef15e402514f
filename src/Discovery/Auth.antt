-- ===== src/Discovery/Auth.antt =====
-- Which `Authorization` a request of internal/discovery/client.go carries.
use victoriametrics_data_mig.Prelude.{
  ◌≡◌, refl, ap, ◌∙◌, inl, inr, [], ◌∷◌, ◌++◌, Option, none, some, Text, codes, is_empty, text_eq,
  Map, lookup, lookup-delete_other, if◌then◌else◌, Bool-cases,
}
use victoriametrics_data_mig.Discovery.{
  Http, Client, request_headers, set_headers, set_header, set_basic_auth, set_bearer,
}

module _ (http : Http) where
  -- The last of the configured headers that is named `key`, or else `other`.
  abbrev pub configured : Text → Map Text → Option Text → Option Text
  configured key [] other = other
  configured key ((k, v) ∷ more) other =
      configured key more (if text_eq (http.canonical k) key then some v else other)

  set_headers_lem :
      (key : Text) (configs headers : Map Text)
      → lookup key (set_headers http configs headers) ≡ configured key configs (lookup key headers)
  set_headers_lem key [] headers = refl
  set_headers_lem key ((k, v) ∷ more) headers = elim (Bool-cases (text_eq (http.canonical k) key)) [
    | inl same ↦ rw (set_headers_lem key more (set_header http k v headers), same) refl
    | inr other ↦
        rw
          (
            set_headers_lem key more (set_header http k v headers),
            other,
            lookup-delete_other key (http.canonical k) headers other,
          )
          refl
  ]

  -- What the credentials give where no header is configured: basic authentication where there is a
  -- user name, or else the bearer token where there is one.
  abbrev pub credentials : Client → Option Text
  credentials c =
      if is_empty c.basic_auth.username
      then if is_empty c.bearer_token then none else some (codes "Bearer " ++ c.bearer_token)
      else some (http.basic c.basic_auth.username c.basic_auth.password)

  lookup-credentials :
      (c : Client)
      → http.canonical (codes "Authorization") ≡ codes "Authorization"
      → lookup
          (codes "Authorization")
          (set_basic_auth http c.basic_auth (set_bearer http c.bearer_token []))
        ≡ credentials c
  lookup-credentials c canonical = elim (Bool-cases (is_empty c.basic_auth.username)) [
    | inl no_user ↦ elim (Bool-cases (is_empty c.bearer_token)) [
      | inl no_token ↦ rw (no_user, no_token) refl
      | inr token ↦ rw (no_user, token, canonical) refl
    ]
    | inr user ↦ rw (user, canonical) refl
  ]

  -- A request is authorized by the last configured header of that name; without one by basic
  -- authentication where a user name is configured; without one by the bearer token, if there is one.
  pub request_headers-configured :
      (c : Client)
      → http.canonical (codes "Authorization") ≡ codes "Authorization"
      → lookup (codes "Authorization") (request_headers http c)
        ≡ configured (codes "Authorization") c.headers (credentials c)
  unfolding request_headers
  request_headers-configured c canonical =
      set_headers_lem (codes "Authorization") c.headers _
      ∙ ap (configured (codes "Authorization") c.headers) (lookup-credentials c canonical)
