-- ===== src/Config.antt =====
-- pkg/mahogany/config.go: the configuration from the environment, which is a function from names to
-- texts. An `int` has 64 bits, as on the platforms that the program is built for.
pub mod Numbers
mod Tests
use Prim.Native.Char.{code}
use Prim.Native.String.{String}
use mahogany.Base.{
  ℕ, zero, suc, ◌+◌, ◌-◌, ◌*◌, ◌%◌, ◌^◌, Bool, true, false, Option, none, some, Result, ok, err,
  ◌&&◌, ltb, leb, ◌==◌, number_eq, if◌then◌else◌, ℤ, pos, negsuc,
}

abbrev pub Environment : Type 0
Environment = String → Option String

-- The digits of a number in base 10; `none` where another character comes.
abbrev digits_from : ℕ → String → Option ℕ
digits_from n String.[] = some n
digits_from n (String.◌∷◌ c s) = elim (leb b'0' (code c) && leb (code c) b'9') [
  | true ↦ digits_from (n * 10 + (code c - b'0')) s
  | false ↦ none
]

abbrev unsigned : String → Option ℕ
unsigned String.[] = none
unsigned (String.◌∷◌ c s) = digits_from 0 (String.◌∷◌ c s)

abbrev pub int_limit : ℕ
int_limit = 2 ^ 63

abbrev negate : ℕ → ℤ
negate zero = pos 0
negate (suc n) = negsuc n

-- `strconv.Atoi`, with `none` for its errors.
abbrev below : Option ℕ → Option ℤ
below none = none
below (some n) = if ltb n int_limit then some (pos n) else none

abbrev above : Option ℕ → Option ℤ
above none = none
above (some n) = if leb n int_limit then some (negate n) else none

pub atoi : String → Option ℤ
atoi String.[] = none
atoi (String.◌∷◌ c s) =
    if code c == b'-'
    then above (unsigned s)
    else if code c == b'+'
    then below (unsigned s)
    else below (unsigned (String.◌∷◌ c s))

-- `loadStrEnv`
unfoldable pub load_str_env : Environment → String → String → String
load_str_env env name default = elim (env name) [ none ↦ default | some val ↦ val ]

-- `loadIntEnv`
pub load_int_env : Environment → String → ℤ → ℤ
unfolding atoi
load_int_env env name default = elim (env name) [
  | none ↦ default
  | some text ↦ elim (atoi text) [ none ↦ default | some val ↦ val ]
]

-- The 64 bits of an integer, and back.
abbrev pub to_word : ℤ → ℕ
to_word (pos n) = n % 2 ^ 64
to_word (negsuc n) = 2 ^ 64 - 1 - n % 2 ^ 64

abbrev pub of_word : ℕ → ℤ
of_word n = if ltb n int_limit then pos n else negsuc (2 ^ 64 - 1 - n)

-- `time.Second`, in nanoseconds
abbrev pub second : ℕ
second = 1_000_000_000

-- `time.Duration(n) * time.Second`, which wraps around.
pub seconds : ℤ → ℤ
seconds n = of_word (to_word n * second % 2 ^ 64)

pub record Config : Type 0 where
  pub db_file : String
  pub static_dir : String
  pub port : ℤ
  pub timeout : ℤ
  pub docker_host : String
  pub docker_version : String
  pub topology_file : String

-- `LoadConfig`
pub load_config : Environment → Config
unfolding load_str_env load_int_env seconds
load_config env = record {
  db_file = load_str_env env "DB_FILE" "mahogany.db";
  static_dir = load_str_env env "STATIC_DIR" "static";
  port = load_int_env env "PORT" (pos 9090);
  timeout = seconds (load_int_env env "TIMEOUT" (pos 3));
  docker_host = load_str_env env "DOCKER_HOST" "localhost";
  docker_version = load_str_env env "DOCKER_VERSION" "3";
  topology_file = load_str_env env "TOPOLOGY" "topology.toml";
}

-- `strings.Trim(s, "\n")`: from the left, and from the right.
abbrev newline : ℕ
newline = 10

abbrev trim_left : String → String
trim_left String.[] = String.[]
trim_left (String.◌∷◌ c s) = elim (code c == newline) [
  | true ↦ trim_left s
  | false ↦ String.◌∷◌ c s
]

abbrev trim_right : String → String
trim_right String.[] = String.[]
trim_right (String.◌∷◌ c s) = elim (trim_right s) [
  | String.[] ↦ if code c == newline then String.[] else String.◌∷◌ c String.[]
  | String.◌∷◌ d t ↦ String.◌∷◌ c (String.◌∷◌ d t)
]

unfoldable trim_newlines : String → String
trim_newlines s = trim_right (trim_left s)

pub record AgentConfig : Type 0 where
  pub server_addr : String
  pub host_name : String
  pub download_dir : String
  pub telemetry_endpoint : String

-- `LoadAgentConfig`, with what reading /etc/hostname gives.
unfoldable pub load_agent_config : Environment → Result String → AgentConfig
unfolding load_str_env trim_newlines
load_agent_config env hostname = record {
  server_addr = load_str_env env "SERVER_ADDR" "localhost:9091";
  host_name = elim hostname [
    | ok text ↦ trim_newlines text
    | err _ ↦ load_str_env env "HOSTNAME" "mahogany"
  ];
  download_dir = load_str_env env "DOWNLOAD_DIR" "/tmp";
  telemetry_endpoint = load_str_env env "TELEMETRY_ENDPOINT" "localhost:4317";
}
