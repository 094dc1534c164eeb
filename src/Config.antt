-- ===== src/Config.antt =====
-- internal/config/config.go. A variable that is not set is the empty text, as in os.Getenv; a
-- duration is in nanoseconds, and time.ParseDuration is a parameter.
use hookman.Common.{
  ◌*◌, String, ◌≡◌, ◌≢◌, refl, sym, ◌∙◌, ◌⊎◌, inl, inr, Bool, true, false, Option, ◌==◌,
  if◌then◌else◌, eq_iff, eq_refl, Bool-cases, or_else,
}
use hookman.Common.Int.{ℤ, pos}
use hookman.Common.Strconv.{atoi, parse_bool}
use hookman.Delivery.Retry.{second}

pub record Config : Type 0 where
  pub database_url : String
  pub api_key : String
  pub signing_secret : String
  pub port : ℤ
  pub worker_concurrency : ℤ
  pub max_retries : ℤ
  pub request_timeout : ℤ
  pub poll_interval : ℤ
  pub metrics_enabled : Bool
  pub log_level : String
  pub dashboard_enabled : Bool
  pub shutdown_timeout : ℤ
  pub rate_limit_rps : ℤ
  pub rate_limit_burst : ℤ

pub data Loaded : Type 0 where
  loaded : Config → Loaded
  failed : String → Loaded

-- A value that is set and that parses, or the fallback.
abbrev pub parsed : {A : Type 0} → (String → Option A) → String → A → A
parsed parse v fallback = if v == "" then fallback else or_else (parse v) fallback

module _ (parse_duration : String → Option ℤ) (getenv : String → String) where
  unfoldable pub get_env_string : (key fallback : String) → String
  get_env_string key fallback = if getenv key == "" then fallback else getenv key

  unfoldable pub get_env_int : (key : String) → ℤ → ℤ
  get_env_int key fallback = parsed atoi (getenv key) fallback

  unfoldable pub get_env_bool : (key : String) → Bool → Bool
  get_env_bool key fallback = parsed parse_bool (getenv key) fallback

  unfoldable pub get_env_duration : (key : String) → ℤ → ℤ
  get_env_duration key fallback = parsed parse_duration (getenv key) fallback

  unfoldable pub read_env : Config
  unfolding get_env_string get_env_int get_env_bool get_env_duration
  read_env = record {
    database_url = getenv "DATABASE_URL";
    api_key = getenv "API_KEY";
    signing_secret = getenv "SIGNING_SECRET";
    port = get_env_int "PORT" (pos 4000);
    worker_concurrency = get_env_int "WORKER_CONCURRENCY" (pos 20);
    max_retries = get_env_int "MAX_RETRIES" (pos 5);
    request_timeout = get_env_duration "REQUEST_TIMEOUT" (pos (10 * second));
    poll_interval = get_env_duration "POLL_INTERVAL" (pos (1 * second));
    metrics_enabled = get_env_bool "METRICS_ENABLED" false;
    log_level = get_env_string "LOG_LEVEL" "info";
    dashboard_enabled = get_env_bool "DASHBOARD_ENABLED" true;
    shutdown_timeout = get_env_duration "SHUTDOWN_TIMEOUT" (pos (30 * second));
    rate_limit_rps = get_env_int "RATE_LIMIT_RPS" (pos 100);
    rate_limit_burst = get_env_int "RATE_LIMIT_BURST" (pos 200);
  }

abbrev pub check_required : Config → Loaded
check_required cfg =
    if cfg.database_url == ""
    then failed "config: DATABASE_URL is required"
    else if cfg.api_key == ""
    then failed "config: API_KEY is required"
    else if cfg.signing_secret == ""
    then failed "config: SIGNING_SECRET is required"
    else loaded cfg

unfoldable pub load : (String → Option ℤ) → (String → String) → Loaded
unfolding read_env
load parse_duration getenv = check_required (read_env parse_duration getenv)

is_set : (v : String) → (v == "") ≡ false → v ≢ ""
is_set v h e = cc (rw (e, eq_refl "") at h)

-- The program starts exactly when DATABASE_URL, API_KEY and SIGNING_SECRET are set, whatever the
-- other variables hold: a number, a flag or a duration that does not parse is its default. What is
-- loaded is what the variables say.
pub load_lem :
    (parse_duration : String → Option ℤ) (getenv : String → String)
    → ((getenv "DATABASE_URL" ≢ "")
        × (getenv "API_KEY" ≢ "")
        × (getenv "SIGNING_SECRET" ≢ "")
        × (load parse_duration getenv ≡ loaded (read_env parse_duration getenv)))
      ⊎ (((getenv "DATABASE_URL" ≡ "") ⊎ (getenv "API_KEY" ≡ "") ⊎ (getenv "SIGNING_SECRET" ≡ ""))
          × ((m : String) × (load parse_duration getenv ≡ failed m)))
unfolding load read_env
load_lem parse_duration getenv = elim (Bool-cases (getenv "DATABASE_URL" == "")) [
  | inl d ↦ inr (
    inl ((eq_iff (getenv "DATABASE_URL") "").0 d),
    ("config: DATABASE_URL is required", rw d refl),
  )
  | inr d ↦ elim (Bool-cases (getenv "API_KEY" == "")) [
    | inl k ↦ inr (
      inr (inl ((eq_iff (getenv "API_KEY") "").0 k)),
      ("config: API_KEY is required", rw (d, k) refl),
    )
    | inr k ↦ elim (Bool-cases (getenv "SIGNING_SECRET" == "")) [
      | inl s ↦ inr (
        inr (inr ((eq_iff (getenv "SIGNING_SECRET") "").0 s)),
        ("config: SIGNING_SECRET is required", rw (d, k, s) refl),
      )
      | inr s ↦ inl (
        is_set (getenv "DATABASE_URL") d,
        is_set (getenv "API_KEY") k,
        is_set (getenv "SIGNING_SECRET") s,
        rw (d, k, s) refl,
      )
    ]
  ]
]

-- What is loaded is what the variables say.
pub load-read_env :
    (parse_duration : String → Option ℤ) (getenv : String → String) (cfg : Config)
    → load parse_duration getenv ≡ loaded cfg
    → read_env parse_duration getenv ≡ cfg
load-read_env parse_duration getenv cfg e = elim (load_lem parse_duration getenv) [
  | inl (d, k, s, q) ↦ loaded_inj (sym q ∙ e)
  | inr (missing, (m, q)) ↦ absurd (loaded-ne-failed (sym e ∙ q))
]
  where
    loaded_inj : {a b : Config} → loaded a ≡ loaded b → a ≡ b
    loaded_inj h = cc

    loaded-ne-failed : {a : Config} {m : String} → loaded a ≢ failed m
    loaded-ne-failed h = cc
