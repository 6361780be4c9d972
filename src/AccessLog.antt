-- ===== src/AccessLog.antt =====
-- http.hpp, AccessLog. The clock and its formatting (`clock_gettime`, `gmtime_r`, `strftime`) are
-- parameters; a file is the bytes written to it.
pub mod Buffer
mod Tests
use multi_threaded_proxy_ser.Base.{
  ℕ, suc, ◌+◌, ◌*◌, ◌/◌, ◌%◌, ◌^◌, Bool, true, false, not, ◌||◌, ◌&&◌, Option, none, some, List, [],
  ◌∷◌, ◌++◌, length, leb, ◌==◌, if◌then◌else◌, Bytes, codes, is_empty,
}
use multi_threaded_proxy_ser.Base.Int.{ℤ, pos, negsuc}
use multi_threaded_proxy_ser.Number.{to_string}

pub record AccessLog : Type 0 where
  -- `file_`: its bytes if it is open.
  pub file : Option Bytes
  -- What was written to `stdout`.
  pub stdout : Bytes
  pub to_stdout : Bool
  pub lines : ℕ
  pub buf : Bytes
  pub immediate : Bool
  pub cached_sec : ℕ
  pub cached_prefix : Bytes

abbrev pub flush_bytes : ℕ
flush_bytes = 64 * 1024

-- The members' initialisers.
abbrev pub initial : AccessLog
initial = record {
  file = none;
  stdout = [];
  to_stdout = true;
  lines = 0;
  buf = [];
  immediate = false;
  cached_sec = 0;
  cached_prefix = [];
}

-- `file_.is_open()`.
abbrev pub is_open : Option Bytes → Bool
is_open none = false
is_open (some written) = true

-- `file_.write(...)` where the file is open.
abbrev pub append_to : Option Bytes → Bytes → Option Bytes
append_to none text = none
append_to (some written) text = some (written ++ text)

-- `flush_locked`, and `flush`, which takes the lock around it.
unfoldable pub flush : AccessLog → AccessLog
flush log = record log { file = append_to log.file log.buf; buf = [] }

-- `open`; `found` is the file that `file_.open(path, app)` gives, if it can be opened.
unfoldable pub open_log : AccessLog → Bytes → Bool → Bool → Option Bytes → AccessLog × Bool
open_log log path also_stdout immediate found =
    let log1 = record log { to_stdout = also_stdout || is_empty path; immediate = immediate } in
    if is_empty path then (log1, true) else elim found [
      | none ↦ (log1, false)
      | some written ↦ (record log1 { file = some written }, true)
    ]

pub record Entry : Type 0 where
  pub client_ip : Bytes
  pub method : Bytes
  pub path : Bytes
  pub version : Bytes
  pub host : Bytes
  pub upstream : Bytes
  pub status : ℤ
  pub bytes : ℕ
  pub cache : Bytes
  pub acl : Bytes
  pub rule : Bytes
  pub duration_us : ℕ

-- The members' initialisers.
abbrev pub blank_entry : Entry
blank_entry = record {
  client_ip = [];
  method = [];
  path = [];
  version = [];
  host = [];
  upstream = [];
  status = pos 0;
  bytes = 0;
  cache = codes "-";
  acl = codes "-";
  rule = [];
  duration_us = 0;
}

-- A number with its sign, as `operator<<` prints it.
unfoldable pub print_int : ℤ → Bytes
unfolding to_string
print_int (pos n) = to_string n
print_int (negsuc n) = b'-' ∷ to_string (suc n)

-- "%03ld" for a number below 1000.
unfoldable pub three_digits : ℕ → Bytes
three_digits n = (b'0' + n / 100) ∷ (b'0' + n / 10 % 10) ∷ (b'0' + n % 10) ∷ []

abbrev pub or_dash : Bytes → Bytes
or_dash s = if is_empty s then codes "-" else s

-- The line without its newline, behind the time stamp.
unfoldable pub format_line : Bytes → Entry → Bytes
unfolding print_int to_string
format_line stamp e =
    stamp
    ++ (codes " "
        ++ (or_dash e.client_ip
            ++ (codes " \""
                ++ (e.method
                    ++ (codes " "
                        ++ (e.path
                            ++ (codes " "
                                ++ (e.version
                                    ++ (codes "\" host="
                                        ++ (or_dash e.host
                                            ++ (codes " upstream="
                                                ++ (or_dash e.upstream
                                                    ++ (codes " status="
                                                        ++ (print_int e.status
                                                            ++ (codes " bytes="
                                                            ++ (to_string e.bytes
                                                            ++ (codes " cache="
                                                            ++ (e.cache
                                                            ++ (codes " acl="
                                                            ++ (e.acl
                                                            ++ (codes " rule=\""
                                                            ++ (e.rule
                                                            ++ (codes "\" dur_us="
                                                            ++ to_string
                                                            e.duration_us)))))))))))))))))))))))

-- The first critical section of `write`: the cached prefix is reformatted when the second changes.
module _ (format_second : ℕ → Bytes) where
  unfoldable pub refresh : AccessLog → ℕ → AccessLog
  refresh log sec =
      if log.cached_sec == sec
      then log
      else record log { cached_sec = sec; cached_prefix = format_second sec }

-- The second critical section of `write`.
unfoldable pub append_line : AccessLog → Bytes → AccessLog
unfolding flush
append_line log line =
    let text = line ++ 10 ∷ [] in
    let counted = record log { lines = (log.lines + 1) % 2 ^ 64 } in
    let longer = if is_open log.file then record counted { buf = log.buf ++ text } else counted in
    let filed =
      if is_open log.file && (log.immediate || leb flush_bytes (length longer.buf))
      then flush longer
      else longer in
    if log.to_stdout then record filed { stdout = log.stdout ++ text } else filed

-- `write` at the time `sec`, `nsec`, where no other thread writes between its critical sections.
unfoldable pub write : (ℕ → Bytes) → AccessLog → ℕ → ℕ → Entry → AccessLog
unfolding refresh three_digits format_line append_line
write format_second log sec nsec e =
    let fresh = refresh format_second log sec in
    let stamp =
      fresh.cached_prefix ++ (codes "." ++ (three_digits (nsec / 1000000) ++ codes "Z")) in
    append_line fresh (format_line stamp e)
