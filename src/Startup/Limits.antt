-- ===== src/Startup/Limits.antt =====
-- What the server knows of its settings once it starts.
use multi_threaded_proxy_ser.Base.{
  ℕ, ◌≤◌, Bool, ◌⊎◌, true, some, List, [], ◌∷◌, Bytes, is_empty, ◌≡◌, ◌≢◌, refl, arith, ◌∙◌, sym,
  ap, Bool-cases, Option-cases, inl, inr,
}
use multi_threaded_proxy_ser.Base.Int.{ℤ, pos, negsuc, is_positive, to_int, within}
use multi_threaded_proxy_ser.Acl.{
  AccessControl, ok, initial, load_string, allow, check, check_rules, checking,
}
use multi_threaded_proxy_ser.Number.{atoi}
use multi_threaded_proxy_ser.Request.{Request}
use multi_threaded_proxy_ser.Startup.{
  File, unopened, opened, Settings, default_settings, accepted, set_value, set_flag, read_args,
  read_command, positive_or, worker_count, load_file, boot_acl,
}

-- The port is kept by all options.
set_value-port :
    (o o' : Settings) (name value : Bytes) → set_value o name value ≡ some o' → o'.port ≡ o.port
unfolding set_value
set_value-port o o' name value h = ground arith

set_flag-port : (o o' : Settings) (name : Bytes) → set_flag o name ≡ some o' → o'.port ≡ o.port
unfolding set_flag
set_flag-port o o' name h = ground arith

read_args-port :
    (o s : Settings) (args : List Bytes) → read_args o args ≡ accepted s → s.port ≡ o.port
unfolding read_args
read_args-port o s [] h = cc
read_args-port o s (name ∷ []) h = elim (Option-cases (set_value o name [])) [
  | inr (o', e) ↦ absurd (let f = rw (e, read_args) at h in cc)
  | inl m ↦ elim (Option-cases (set_flag o name)) [
    | inl n ↦ absurd (let f = rw (m, n, read_args) at h in cc)
    | inr (o', e) ↦
        let f : accepted o' ≡ accepted s = rw (m, e, read_args) at h in
        let same : o' ≡ s = cc in ap (λ x. x.port) (sym same) ∙ set_flag-port o o' name e
  ]
]
read_args-port o s (name ∷ value ∷ args) h = elim (Option-cases (set_value o name value)) [
  | inr (o', e) ↦
      read_args-port o' s args (rw (e, read_args) at h) ∙ set_value-port o o' name value e
  | inl m ↦ elim (Option-cases (set_flag o name)) [
    | inl n ↦ absurd (let f = rw (m, n, read_args) at h in cc)
    | inr (o', e) ↦
        read_args-port o' s (value ∷ args) (rw (m, e, read_args) at h) ∙ set_flag-port o o' name e
  ]
]

abbrev pub IsTcpPort : ℤ → Type 0
IsTcpPort p = (n : ℕ) × (p ≡ pos n) × (1 ≤ n) × (n ≤ 65535)

within-IsTcpPort : (p : ℤ) → within 1 65535 p ≡ true → IsTcpPort p
within-IsTcpPort (pos n) h = (n, refl, ground arith, ground arith)
within-IsTcpPort (negsuc n) h = absurd (cc)

-- If the command line is accepted, then the port of the settings is from 1 to 65535.
pub read_command-IsTcpPort :
    (args : List Bytes) (s : Settings) → read_command args ≡ accepted s → IsTcpPort s.port
unfolding read_command
read_command-IsTcpPort [] s h = absurd (cc)
read_command-IsTcpPort (port ∷ args) s h = elim (Bool-cases (within 1 65535 (atoi port))) [
  | inr bad ↦ absurd (let f = rw bad at h in cc)
  | inl good ↦
      let kept : s.port ≡ atoi port =
        read_args-port (default_settings (atoi port)) s args (rw good at h) in
      rw kept (within-IsTcpPort (atoi port) good)
]

positive_or-IsPositive :
    (default v : ℤ) → is_positive default ≡ true → is_positive (positive_or default v) ≡ true
positive_or-IsPositive default v h = elim (Bool-cases (is_positive v)) [
  | inl e ↦ rw e e
  | inr n ↦ rw n h
]

-- Whatever `--workers` says and the hardware reports, the pool has at least one worker.
pub worker_count-IsPositive :
    (workers : ℤ) (hardware : ℕ) → is_positive (worker_count workers hardware) ≡ true
unfolding worker_count
worker_count-IsPositive workers hardware =
    positive_or-IsPositive (pos 4) (positive_or (to_int (pos hardware)) workers) refl

empty_nil : (s : Bytes) → is_empty s ≡ true → s ≡ []
empty_nil [] h = refl
empty_nil (c ∷ s) h = absurd (cc)

File-cases :
    (f : File) → (f ≡ unopened) ⊎ ((text : Bytes) × (failed : Bool) × (f ≡ opened text failed))
File-cases unopened = inl refl
File-cases (opened text failed) = inr (text, failed, refl)

-- If the settings name a configuration file and the server starts with an access control, then the
-- file could be opened, and the bytes that were read from it, with an error at their end or
-- without, were accepted with that access control as the result.
pub boot_acl_fails_closed :
    (read_file : Bytes → File) (o : Settings) (acl : AccessControl)
    → boot_acl read_file o ≡ ok acl
    → o.acl_path ≢ []
    → (text : Bytes) × (failed : Bool) × (read_file o.acl_path ≡ opened text failed)
      × (load_string initial text ≡ ok acl)
unfolding boot_acl load_file
boot_acl_fails_closed read_file o acl h named = elim (Bool-cases (is_empty o.acl_path)) [
  | inl e ↦ absurd (named (empty_nil o.acl_path e))
  | inr n ↦ elim (File-cases (read_file o.acl_path)) [
    | inl m ↦ absurd (let f = rw (n, m, load_file) at h in cc)
    | inr (text, failed, e) ↦ (text, failed, e, rw (n, e, load_file) at h)
  ]
]

-- The text without a line has no directive to refuse.
load_string-nil : load_string initial [] ≡ ok initial
unfolding checking
load_string-nil = refl

-- If the settings name a configuration file that opens and whose first read fails, as a directory
-- does, then the server starts with an access control that allows every request.
pub unreadable_allows_all :
    (read_file : Bytes → File) (o : Settings)
    → o.acl_path ≢ []
    → read_file o.acl_path ≡ opened [] true
    → (acl : AccessControl) × (boot_acl read_file o ≡ ok acl)
      × ((req : Request) → (check acl req).decision ≡ allow)
unfolding boot_acl load_file check check_rules
unreadable_allows_all read_file o named e = elim (Bool-cases (is_empty o.acl_path)) [
  | inl empty ↦ absurd (named (empty_nil o.acl_path empty))
  | inr n ↦ (initial, rw (n, e, load_file) load_string-nil, λ req. refl)
]
