-- ===== src/Startup/Tests.antt =====
-- The start of the server at small command lines.
use multi_threaded_proxy_ser.Base.{Bool, false, ◌≡◌, List, [], ◌∷◌, true, Bytes, codes, refl}
use multi_threaded_proxy_ser.Base.Int.{pos}
use multi_threaded_proxy_ser.Acl.{AccessControl, ok, initial, load_string, checking, allow, check}
use multi_threaded_proxy_ser.Acl.Loading.{state_of}
use multi_threaded_proxy_ser.Request.{Request}
use multi_threaded_proxy_ser.Startup.{
  File, opened, Settings, accepted, requires_value, invalid_port, default_settings, read_command,
  boot_acl,
}
use multi_threaded_proxy_ser.Startup.Limits.{boot_acl_fails_closed, unreadable_allows_all}

abbrev args : List Bytes
args =
    codes "8080"
    ∷ codes "--no-stats"
    ∷ codes "--acl"
    ∷ codes "a.conf"
    ∷ codes "--shards"
    ∷ codes "-1"
    ∷ []

abbrev settings : Settings
settings = record (default_settings (pos 8080)) {
  cache_shards = 18446744073709551615;
  acl_path = codes "a.conf";
  quiet_stats = true;
}

args_read : read_command args ≡ accepted settings
unfolding read_command
args_read = refl

refusals :
    (read_command (codes "80" ∷ codes "--log" ∷ []) ≡ requires_value (codes "--log"))
    × (read_command (codes "65536" ∷ []) ≡ invalid_port (codes "65536"))
unfolding read_command
refusals = (refl, refl)

abbrev config : Bytes
config = codes "default deny\n"

abbrev files : Bytes → File
files path = opened config false

abbrev strict : AccessControl
strict = state_of (load_string initial config)

strict_boots : boot_acl files settings ≡ ok strict
unfolding boot_acl checking
strict_boots = refl

boot_acl_fails_closed_example :
    (text : Bytes) × (failed : Bool) × (files settings.acl_path ≡ opened text failed)
    × (load_string initial text ≡ ok strict)
boot_acl_fails_closed_example = boot_acl_fails_closed files settings strict strict_boots (λ e. cc)

-- Every path is a directory.
abbrev directories : Bytes → File
directories path = opened [] true

unreadable_allows_all_example :
    (acl : AccessControl) × (boot_acl directories settings ≡ ok acl)
    × ((req : Request) → (check acl req).decision ≡ allow)
unreadable_allows_all_example = unreadable_allows_all directories settings (λ e. cc) refl
