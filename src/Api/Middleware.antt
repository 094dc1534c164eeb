-- ===== src/Api/Middleware.antt =====
-- internal/api/middleware.go: the check of the API key. A header that is not set is the empty
-- text; subtle.ConstantTimeCompare of two texts is 1 where they are equal.
use Prim.Native.String
use text.Mathlib.Text.{starts_with}
use text.Mathlib.TextEquality.{starts_with_iff}
use text.Mathlib.TextPositions.{starts_with-append, slice-append_right, len-append}
use hookman.Common.{
  String, ◌≡◌, refl, ap, sym, ◌∙◌, ◌⊎◌, inl, inr, false, ◌==◌, if◌then◌else◌, Bool-cases, eq_iff,
  arith, eq_refl, ◌≢◌, ◌+◌,
}
use hookman.Api.Response.{HttpHandler, refuse}

-- strings.TrimPrefix.
unfoldable pub trim_prefix : String → String → String
trim_prefix s prefix =
    if starts_with s prefix then String.slice s (String.len prefix) (String.len s) else s

unfoldable pub auth_middleware :
    {W : Type 0} → (api_key auth_header : String) → HttpHandler W → HttpHandler W
unfolding trim_prefix
auth_middleware api_key auth_header next =
    let token = trim_prefix auth_header "Bearer " in
    if auth_header == ""
    then refuse 401 "missing Authorization header"
    else if token == auth_header
    then refuse 401 "invalid Authorization format, use: Bearer <token>"
    else if token == api_key
    then next
    else refuse 401 "invalid API key"

trim_prefix-append : (prefix s : String) → trim_prefix (String.◌++◌ prefix s) prefix ≡ s
unfolding trim_prefix
trim_prefix-append prefix s =
    rw (starts_with-append prefix s, len-append prefix s) (slice-append_right prefix s)

trim_prefix_other : (s prefix : String) → starts_with s prefix ≡ false → trim_prefix s prefix ≡ s
unfolding trim_prefix
trim_prefix_other s prefix h = rw h refl

-- A text is not that text with the scheme in front.
scheme_differs : (s : String) → (s == String.◌++◌ "Bearer " s) ≡ false
scheme_differs s = elim (Bool-cases (s == String.◌++◌ "Bearer " s)) [
  | inl e ↦
      let lens : String.len s ≡ 7 + String.len s =
        ap String.len ((eq_iff s (String.◌++◌ "Bearer " s)).0 e) ∙ len-append "Bearer " s in
      absurd (omega arith)
  | inr e ↦ e
]

scheme_is_not_empty : (s : String) → (String.◌++◌ "Bearer " s == "") ≡ false
scheme_is_not_empty s = elim (Bool-cases (String.◌++◌ "Bearer " s == "")) [
  | inl e ↦
      let lens : 7 + String.len s ≡ 0 =
        sym (len-append "Bearer " s) ∙ ap String.len ((eq_iff (String.◌++◌ "Bearer " s) "").0 e) in
      absurd (omega arith)
  | inr e ↦ e
]

-- What the middleware makes of a header with the scheme.
with_scheme :
    {W : Type 0} (api_key token : String) (next : HttpHandler W)
    → auth_middleware api_key (String.◌++◌ "Bearer " token) next
      ≡ (if token == api_key then next else refuse 401 "invalid API key")
unfolding auth_middleware
with_scheme api_key token next =
    rw (trim_prefix-append "Bearer " token, scheme_differs token, scheme_is_not_empty token) refl

-- And of one without it.
without_scheme :
    {W : Type 0} (api_key header : String) (next : HttpHandler W)
    → starts_with header "Bearer " ≡ false
    → (m : String) × (auth_middleware api_key header next ≡ refuse 401 m)
unfolding auth_middleware
without_scheme api_key header next h = elim (Bool-cases (header == "")) [
  | inl e ↦ ("missing Authorization header", rw e refl)
  | inr e ↦ (
    "invalid Authorization format, use: Bearer <token>",
    rw (e, trim_prefix_other header "Bearer " h, eq_refl header) refl,
  )
]

refused :
    {W : Type 0} (api_key header : String) (next : HttpHandler W)
    → header ≢ String.◌++◌ "Bearer " api_key
    → (m : String) × (auth_middleware api_key header next ≡ refuse 401 m)
refused api_key header next other = elim (Bool-cases (starts_with header "Bearer ")) [
  | inl p ↦
      let (token, same) = (starts_with_iff header "Bearer ").0 p in
      elim (Bool-cases (token == api_key)) [
        | inl q ↦
            absurd
              (other (sym same ∙ ap (λ t. String.◌++◌ "Bearer " t) ((eq_iff token api_key).0 q)))
        | inr q ↦ ("invalid API key", rw (sym same, with_scheme api_key token next, q) refl)
      ]
  | inr p ↦ without_scheme api_key header next p
]

-- With the header "Bearer " and the API key, and with no other, a request reaches the handler: then
-- the middleware is the handler, and else it answers 401 and leaves the state as it is.
pub auth_middleware_lem :
    {W : Type 0} (api_key header : String) (next : HttpHandler W)
    → ((header ≡ String.◌++◌ "Bearer " api_key) × (auth_middleware api_key header next ≡ next))
      ⊎ ((header ≢ String.◌++◌ "Bearer " api_key)
          × ((m : String) × (auth_middleware api_key header next ≡ refuse 401 m)))
auth_middleware_lem api_key header next =
    elim (Bool-cases (header == String.◌++◌ "Bearer " api_key)) [
      | inl e ↦
          let same = (eq_iff header (String.◌++◌ "Bearer " api_key)).0 e in
          inl (same, rw (same, with_scheme api_key api_key next, eq_refl api_key) refl)
      | inr e ↦
          let other : header ≢ String.◌++◌ "Bearer " api_key =
            λ h. cc (rw (h, eq_refl (String.◌++◌ "Bearer " api_key)) at e) in
          let (m, r) = refused api_key header next other in inr (other, (m, r))
    ]
