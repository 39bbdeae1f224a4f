-- ===== src/Config.antt =====
-- crashsafe/config.py: `Settings.from_env`.
-- Parameters: `getenv` is the environment, `int` and `float` are Python's readings of a text, `none`
-- where they raise, and `float` may read `nan` and the infinities; `resolve` is `Path(...).resolve()`. A
-- path is its text.
pub mod Validation
use Prim.Native.String.{◌++◌ as str_append}
use crashsafe.Prelude.{
  String, Bool, true, false, ◌||◌, Option, none, some, Result, ok, err, ◌>>=◌, ◌>>◌, raise_if,
  or_raise, str_eq, if◌then◌else◌, ℤ, pos, below, Float, finite, less_or_equal, signed_decimal,
}

-- One for each `raise`, and the ValueError of `int` and `float`.
pub data ConfigError : Type 0 where
  not_a_number : ConfigError
  workers_below_one : ConfigError
  lease_ttl_not_positive : ConfigError
  renewal_interval : ConfigError

-- The dataclass `Settings`; durations are seconds.
pub record ProcessSettings : Type 0 where
  pub state_dir : String
  pub engine_db : String
  pub ledger_db : String
  pub tool_base_url : String
  pub poll_interval : Float
  pub request_timeout : Float
  pub max_attempts : ℤ
  pub base_backoff : Float
  pub max_backoff : Float
  pub worker_count : ℤ
  pub lease_ttl : Float
  pub lease_renew_interval : Float
  pub tool_key : String

module _ (getenv : String → Option String) (int : String → Option ℤ) (float : String → Option Float)
    (resolve : String → String) where
  -- `os.getenv(name, default)`
  abbrev pub getenv_or : String → String → String
  getenv_or name default = elim (getenv name) [ none ↦ default | some value ↦ value ]

  -- `int(os.getenv(...))` and `float(os.getenv(...))`
  abbrev pub int_from : String → String → Result ConfigError ℤ
  int_from name default = or_raise (int (getenv_or name default)) not_a_number

  abbrev pub float_from : String → String → Result ConfigError Float
  float_from name default = or_raise (float (getenv_or name default)) not_a_number

  -- `a or b` of two variables that may be missing or empty
  abbrev pub first_set : Option String → Option String → Option String
  first_set none other = other
  first_set (some value) other = if str_eq value "" then other else some value

  abbrev pub ledger_path : String → Option String → String
  ledger_path state_dir none = str_append state_dir "/ledger.db"
  ledger_path state_dir (some path) =
      if str_eq path "" then str_append state_dir "/ledger.db" else path

  -- `return cls(...)`
  unfoldable pub build_settings : ℤ → ℤ → Float → Float → Result ConfigError ProcessSettings
  build_settings tool_port worker_count lease_ttl renew_interval = do
    poll_interval ← float_from "CRASHSAFE_POLL_INTERVAL" "0.2"
    request_timeout ← float_from "CRASHSAFE_REQUEST_TIMEOUT" "10.0"
    max_attempts ← int_from "CRASHSAFE_MAX_ATTEMPTS" "8"
    base_backoff ← float_from "CRASHSAFE_BASE_BACKOFF" "0.25"
    max_backoff ← float_from "CRASHSAFE_MAX_BACKOFF" "10.0"
    ok (record {
      state_dir = resolve (getenv_or "CRASHSAFE_STATE_DIR" ".crashsafe");
      engine_db =
          getenv_or "CRASHSAFE_ENGINE_DB"
            (str_append (resolve (getenv_or "CRASHSAFE_STATE_DIR" ".crashsafe")) "/engine.db");
      ledger_db =
          ledger_path (resolve (getenv_or "CRASHSAFE_STATE_DIR" ".crashsafe"))
            (first_set (getenv "CRASHSAFE_LEDGER_DB") (getenv "CRASHSAFE_TOOL_DB"));
      tool_base_url =
          getenv_or "CRASHSAFE_TOOL_URL"
            (str_append "http://127.0.0.1:" (signed_decimal tool_port));
      poll_interval = poll_interval;
      request_timeout = request_timeout;
      max_attempts = max_attempts;
      base_backoff = base_backoff;
      max_backoff = max_backoff;
      worker_count = worker_count;
      lease_ttl = lease_ttl;
      lease_renew_interval = renew_interval;
      tool_key = getenv_or "CRASHSAFE_TOOL_KEY" "mock-tool";
    })

  unfoldable pub from_env : Result ConfigError ProcessSettings
  from_env = do
    tool_port ← int_from "CRASHSAFE_TOOL_PORT" "8001"
    worker_count ← int_from "CRASHSAFE_WORKERS" "1"
    lease_ttl ← float_from "CRASHSAFE_LEASE_TTL" "2.0"
    renew_interval ← float_from "CRASHSAFE_LEASE_RENEW_INTERVAL" "0.5"
    raise_if (below worker_count (pos 1)) workers_below_one
    raise_if (less_or_equal lease_ttl (finite (pos 0))) lease_ttl_not_positive
    raise_if
        (less_or_equal renew_interval (finite (pos 0)) || less_or_equal lease_ttl renew_interval)
        renewal_interval
    build_settings tool_port worker_count lease_ttl renew_interval
