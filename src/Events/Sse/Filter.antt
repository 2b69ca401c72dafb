-- ===== src/Events/Sse/Filter.antt =====
-- `parseClusterFilter` and `setSSEHeaders` of internal/events/sse.go.
pub mod Listed
use go_kube_ops_view.Prelude.{
  String, ◌≡◌, refl, Option, none, some, List, [], ◌∷◌, ◌==◌, ◌||◌, ◌⊎◌, inl, inr, if◌then◌else◌,
  ltb, length, any, Bool-cases,
}
use go_kube_ops_view.Dict
use go_kube_ops_view.Dict.{Dict, get-put}
use go_kube_ops_view.Config.Texts.{trim_space, split_comma}
use go_kube_ops_view.Events.Sse.{SseConfig}

unfoldable pub trimmed : List String → List String
trimmed [] = []
trimmed (s ∷ l) = let rest = trimmed l in if trim_space s == "" then rest else trim_space s ∷ rest

-- Over the query's `clusters` and `cluster_ids`, which are empty if they are not there.
unfoldable pub parse_cluster_filter : String → String → Option (List String)
parse_cluster_filter clusters cluster_ids =
    let param = if clusters == "" then cluster_ids else clusters in
    if param == "" then none else some (trimmed (split_comma param))

-- The header that lets other origins read the stream.
abbrev pub allow_origin : String
allow_origin = "Access-Control-Allow-Origin"

-- The loop over the allowed origins.
abbrev pub set_origin : List String → String → Dict String → Dict String
set_origin allowed origin h =
    if any (λ a. origin == a || a == "*") allowed then Dict.put h allow_origin origin else h

abbrev pub set_cors : SseConfig → String → Dict String → Dict String
set_cors c origin h =
    let opened =
      if ltb 0 (length c.allowed_origins)
      then set_origin c.allowed_origins origin h
      else Dict.put h allow_origin "*" in
    Dict.put (Dict.put opened "Access-Control-Allow-Methods" "GET, OPTIONS")
      "Access-Control-Allow-Headers"
      "Accept, Content-Type, Content-Length, Accept-Encoding, Authorization"

unfoldable pub set_sse_headers : SseConfig → String → Dict String → Dict String
set_sse_headers c origin h =
    let stream =
      Dict.put (Dict.put (Dict.put h "Content-Type" "text/event-stream") "Cache-Control" "no-cache")
        "Connection" "keep-alive" in
    let opened =
      Dict.put (Dict.put stream allow_origin "*") "Access-Control-Allow-Headers" "Cache-Control" in
    if c.enable_cors then set_cors c origin opened else opened

-- Whatever origins are allowed, also with CORS off, the stream's headers let the origin of the
-- request read it: the header is set to `*` at first, and after that at most to the origin itself.
pub every_origin_allowed :
    (c : SseConfig) (origin : String) (h : Dict String)
    → (Dict.get (set_sse_headers c origin h) allow_origin ≡ some "*")
      ⊎ (Dict.get (set_sse_headers c origin h) allow_origin ≡ some origin)
unfolding set_sse_headers
every_origin_allowed c origin h = elim (Bool-cases c.enable_cors) [
  | inr off ↦ inl (rw (off, get-put, get-put) refl)
  | inl on ↦ elim (Bool-cases (ltb 0 (length c.allowed_origins))) [
    | inr l ↦ inl (rw (on, l, get-put, get-put, get-put) refl)
    | inl l ↦ elim (Bool-cases (any (λ a. origin == a || a == "*") c.allowed_origins)) [
      | inl a ↦ inr (rw (on, l, a, get-put, get-put, get-put) refl)
      | inr a ↦ inl (rw (on, l, a, get-put, get-put, get-put, get-put) refl)
    ]
  ]
]
