-- ===== src/Startup.antt =====
-- server_phase5.cpp, the start of `main`: the command line, the number of workers, and the loading of
-- the access control, with `load_file` of http.hpp. What a path reads as is a parameter.
pub mod Limits
mod Tests
use multi_threaded_proxy_ser.Base.{
  ℕ, ◌*◌, Bool, true, false, ◌||◌, Option, none, some, List, [], ◌∷◌, ◌++◌, if◌then◌else◌, Bytes,
  codes, bytes_eq, is_empty,
}
use multi_threaded_proxy_ser.Base.Int.{ℤ, pos, negsuc, is_positive, to_int, to_size, within}
use multi_threaded_proxy_ser.Acl.{Loaded, ok, refused, initial, load_string}
use multi_threaded_proxy_ser.Number.{strtol, atoi}

-- The options of the command line.
pub record Settings : Type 0 where
  pub port : ℤ
  pub cache_capacity : ℕ
  pub cache_shards : ℕ
  pub workers : ℤ
  pub acl_path : Bytes
  pub log_path : Bytes
  pub log_stdout : Bool
  pub log_immediate : Bool
  pub quiet_stats : Bool
  pub upstream_timeout_sec : ℤ

-- The members' initialisers, but for the port.
abbrev pub default_settings : ℤ → Settings
default_settings port = record {
  port = port;
  cache_capacity = 2000;
  cache_shards = 16;
  workers = pos 0;
  acl_path = [];
  log_path = [];
  log_stdout = false;
  log_immediate = false;
  quiet_stats = false;
  upstream_timeout_sec = pos 5;
}

-- What comes of the command line: the settings, or the way in which `main` returns 1.
pub data Command : Type 0 where
  accepted : Settings → Command
  usage : Command
  invalid_port : Bytes → Command
  requires_value : Bytes → Command

-- `(size_t)atoll(value)`: a negative number becomes a huge one.
unfoldable pub size_of : Bytes → ℕ
unfolding strtol
size_of value = to_size (strtol value).value

-- An option with a value; `none` if there is no such option.
unfoldable pub set_value : Settings → Bytes → Bytes → Option Settings
unfolding bytes_eq atoi size_of
set_value o name value =
    if bytes_eq name (codes "--workers")
    then some (record o { workers = atoi value })
    else if bytes_eq name (codes "--cache")
    then some (record o { cache_capacity = size_of value })
    else if bytes_eq name (codes "--shards")
    then some (record o { cache_shards = size_of value })
    else if bytes_eq name (codes "--acl")
    then some (record o { acl_path = value })
    else if bytes_eq name (codes "--log")
    then some (record o { log_path = value })
    else if bytes_eq name (codes "--upstream-timeout")
    then some (record o { upstream_timeout_sec = atoi value })
    else none

-- An option without a value.
unfoldable pub set_flag : Settings → Bytes → Option Settings
unfolding bytes_eq
set_flag o name =
    if bytes_eq name (codes "--log-stdout")
    then some (record o { log_stdout = true })
    else if bytes_eq name (codes "--log-immediate")
    then some (record o { log_immediate = true })
    else if bytes_eq name (codes "--no-stats")
    then some (record o { quiet_stats = true })
    else none

-- The loop over the arguments behind the port.
unfoldable pub read_args : Settings → List Bytes → Command
unfolding set_value set_flag
read_args o [] = accepted o
read_args o (name ∷ []) = elim (set_value o name []) [
  | some _ ↦ requires_value name
  | none ↦ elim (set_flag o name) [ none ↦ usage | some o' ↦ accepted o' ]
]
read_args o (name ∷ value ∷ args) = elim (set_value o name value) [
  | some o' ↦ read_args o' args
  | none ↦ elim (set_flag o name) [ none ↦ usage | some o' ↦ read_args o' (value ∷ args) ]
]

-- The command line behind the name of the program.
unfoldable pub read_command : List Bytes → Command
unfolding read_args atoi
read_command [] = usage
read_command (port ∷ args) =
    let rest = read_args (default_settings (atoi port)) args in
    if within 1 65535 (atoi port) then rest else invalid_port port

-- The size of the pool; `hardware` is `thread::hardware_concurrency()`.
abbrev pub positive_or : ℤ → ℤ → ℤ
positive_or default v = if is_positive v then v else default

unfoldable pub worker_count : ℤ → ℕ → ℤ
worker_count workers hardware = positive_or (pos 4) (positive_or (to_int (pos hardware)) workers)

-- A path as `std::ifstream` sees it: it does not open, or it opens, and reading gives bytes up to
-- its end, or up to an error if `failed` is set. A directory opens, and its first read fails.
pub data File : Type 0 where
  unopened : File
  opened : (bytes : Bytes) → (failed : Bool) → File

-- `load_file`: what the stream took from the file is loaded, and nothing asks how reading ended.
unfoldable pub load_file : (Bytes → File) → Bytes → Loaded
unfolding load_string
load_file read_file path = elim (read_file path) [
  | unopened ↦ refused initial (codes "cannot open " ++ path)
  | opened text failed ↦ load_string initial text
]

-- The access control that the server starts with; where it is refused, `main` returns 1.
unfoldable pub boot_acl : (Bytes → File) → Settings → Loaded
unfolding load_file
boot_acl read_file o = if is_empty o.acl_path then ok initial else load_file read_file o.acl_path
