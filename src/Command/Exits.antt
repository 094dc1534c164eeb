-- ===== src/Command/Exits.antt =====
-- How the commands of cmd/hookman/main.go end.
use Prim.Native.String
use hookman.Common.{
  ℕ, ◌≡◌, ◌≢◌, ◌⊎◌, inl, inr, refl, sym, ap, ◌∙◌, String, true, List, [], ◌∷◌, Option, none, some,
  ◌==◌, if◌then◌else◌, Bool-cases, if-cases, eq_iff, arith,
}
use hookman.Common.Int.{ℤ, pos}
use hookman.Common.Strconv.{atoi}
use hookman.Common.Decimal.{itoa, IsInt64, atoi-itoa}
use hookman.Config.{Config, Loaded, loaded, failed, load, read_env, get_env_int, load-read_env}
use hookman.Worker.Pool.{Pool, new_pool}
use hookman.Api.Server.{new_server}
use hookman.Command.{
  Outside, Migrated, applied, no_change, broken, Ending, exits, connect, with_pool, after_up,
  migrate, run_serve, run_migrate, main, version, usage, timeout_of,
}

abbrev pub StartsWith : String → List String → Type 0
StartsWith command args = (rest : List String) × (args ≡ command ∷ rest)

-- The migrations are in place.
abbrev pub IsMigrated : Outside → Type 0
IsMigrated out =
    (cfg : Config) × (load out.parse_duration out.getenv ≡ loaded cfg)
    × (out.migrate_new cfg.database_url ≡ true)
    × ((out.migrate_up cfg.database_url ≡ applied) ⊎ (out.migrate_up cfg.database_url ≡ no_change))

abbrev pool_of : Outside → Config → Option Pool
pool_of out cfg =
    new_pool out.allocates cfg.worker_concurrency cfg.max_retries (timeout_of cfg.request_timeout)

module _ {L : Type 0} where
  -- An exit of `serve` is a failure.
  with_pool-exits :
      (cfg : Config) (o : Option Pool) {n : ℕ} {m : String}
      → with_pool {L = L} cfg o ≡ exits n m
      → n ≡ 1
  with_pool-exits cfg none e = cc
  with_pool-exits cfg (some pool) e = cc

  connect-exits :
      (out : Outside) (l : Loaded) {n : ℕ} {m : String} → connect {L = L} out l ≡ exits n m → n ≡ 1
  connect-exits out (failed message) e = ground arith
  connect-exits out (loaded cfg) e = elim (if-cases (out.connects cfg.database_url) e) [
    | inr (c, q) ↦ ground arith
    | inl (c, q) ↦ elim (if-cases (out.pings cfg.database_url) q) [
      | inr (g, k) ↦ ground arith
      | inl (g, k) ↦ with_pool-exits cfg (pool_of out cfg) k
    ]
  ]

  -- A migration that exits with 0 is in place.
  after_up-exits :
      (u : Migrated) {n : ℕ} {m : String}
      → after_up {L = L} u ≡ exits n m
      → (n ≡ 1) ⊎ ((n ≡ 0) × ((u ≡ applied) ⊎ (u ≡ no_change)))
  after_up-exits applied e = inr (ground arith, inl refl)
  after_up-exits no_change e = inr (ground arith, inr refl)
  after_up-exits broken e = inl (ground arith)

  migrate-exits :
      (out : Outside) (l : Loaded) {n : ℕ} {m : String}
      → load out.parse_duration out.getenv ≡ l
      → migrate {L = L} out l ≡ exits n m
      → (n ≡ 1) ⊎ ((n ≡ 0) × IsMigrated out)
  migrate-exits out (failed message) q e = inl (ground arith)
  migrate-exits out (loaded cfg) q e = elim (if-cases (out.migrate_new cfg.database_url) e) [
    | inr (c, k) ↦ inl (ground arith)
    | inl (c, k) ↦ elim (after_up-exits (out.migrate_up cfg.database_url) k) [
      | inl one ↦ inl one
      | inr (nil, up) ↦ inr (nil, (cfg, q, c, up))
    ]
  ]

  version-exits :
      (command : String) (args : List String) {n : ℕ} {m : String}
      → ◌≡◌ {A = Ending L}
          (if command == "version" then exits 0 (String.◌++◌ "hookman " version) else exits 1 usage)
          (exits n m)
      → (n ≡ 1) ⊎ ((n ≡ 0) × StartsWith "version" (command ∷ args))
  version-exits command args e = elim (if-cases (command == "version") e) [
    | inl (c, k) ↦ inr (ground arith, (args, ap (λ s. s ∷ args) ((eq_iff command "version").0 c)))
    | inr (c, k) ↦ inl (ground arith)
  ]

-- A command that ends before it is ready to serve exits with 0 or 1 where it exits; with 0 only for
-- `version`, and for `migrate` when the configuration loads and the migrations have been applied or
-- there are none to apply. (How `serve` exits after it was ready is not said here.)
pub main_exits :
    {L : Type 0} (out : Outside) (args : List String) (n : ℕ) (m : String)
    → main {L = L} out args ≡ exits n m
    → (n ≡ 1)
      ⊎ ((n ≡ 0) × (StartsWith "version" args ⊎ (StartsWith "migrate" args × IsMigrated out)))
unfolding main run_serve run_migrate
main_exits out [] n m e = inl (ground arith)
main_exits {L} out (command ∷ args) n m e = elim (if-cases (command == "serve") e) [
  | inl (c, k) ↦ inl (connect-exits out (load out.parse_duration out.getenv) k)
  | inr (c, k) ↦ elim (if-cases (command == "migrate") k) [
    | inl (d, j) ↦ elim (migrate-exits out (load out.parse_duration out.getenv) refl j) [
      | inl one ↦ inl one
      | inr (nil, up) ↦
          inr (nil, inr ((args, ap (λ s. s ∷ args) ((eq_iff command "migrate").0 d)), up))
    ]
    | inr (d, j) ↦ elim (version-exits command args j) [
      | inl one ↦ inl one
      | inr (nil, v) ↦ inr (nil, inl v)
    ]
  ]
]

empty-unread : (y : ℤ) → atoi "" ≢ some y
unfolding atoi
empty-unread y h = cc

-- A set variable that atoi reads is what get_env_int returns.
get_env_int-read :
    (parse_duration : String → Option ℤ) (getenv : String → String) (key : String) (fallback z : ℤ)
    → atoi (getenv key) ≡ some z
    → get_env_int parse_duration getenv key fallback ≡ z
unfolding get_env_int
get_env_int-read parse_duration getenv key fallback z e = elim (Bool-cases (getenv key == "")) [
  | inl b ↦ absurd (empty-unread z (rw ((eq_iff (getenv key) "").0 b) at e))
  | inr b ↦ rw (b, e) refl
]

-- A PORT that is written in the decimal form of an int comes back in the address that the server
-- listens at: a colon and the same text.
listens_at_port :
    (L : Type 0) (parse_duration : String → Option ℤ) (getenv : String → String) (cfg : Config)
    (z : ℤ)
    → IsInt64 z
    → getenv "PORT" ≡ itoa z
    → load parse_duration getenv ≡ loaded cfg
    → (new_server {L = L} cfg).addr ≡ String.◌++◌ ":" (getenv "PORT")
unfolding new_server read_env
listens_at_port L parse_duration getenv cfg z i e l =
    let port : cfg.port ≡ z =
      sym (ap (λ c. c.port) (load-read_env parse_duration getenv cfg l))
      ∙ get_env_int-read parse_duration getenv "PORT" (pos 4000) z (rw e (atoi-itoa z i)) in
    rw (port, e) refl
