-- ===== src/Acl/Loading.antt =====
-- What the loader accepts: only rules on known fields, and only routes to real ports.
use multi_threaded_proxy_ser.Base.{
  ℕ, ◌+◌, ◌<◌, false, not, ◌&&◌, ◌||◌, List, [], ◌∷◌, All, All-append, length, drop, leb, ltb,
  Bytes, codes, bytes_eq, bytes_eq_iff, is_empty, ◌≡◌, ◌⊎◌, inl, inr, refl, arith, Bool-cases,
  Option-cases,
}
use multi_threaded_proxy_ser.Base.Int.{ℤ, pos, negsuc}
use multi_threaded_proxy_ser.Acl.{
  Decision, AccessControl, Loaded, ok, refused, initial, add_rule, add_route, load_default,
  load_rule, route_port, load_route, load_directive, is_comment, load_line, load_lines, load_string,
  next_word, next_int, allow, deny,
}
use multi_threaded_proxy_ser.Number.{atoi}
use multi_threaded_proxy_ser.Routing.{
  RouteTable, add_to_table, resolve, resolve_in, split_authority, port_or_default, all_digits,
}
use multi_threaded_proxy_ser.Text.{to_lower, trim, get_lines, wildcard_match, rfind_byte}

abbrev pub IsField : Bytes → Type 0
IsField f = (f ≡ codes "host") ⊎ (f ≡ codes "path") ⊎ (f ≡ codes "method")

abbrev pub IsPort : ℕ → Type 0
IsPort p = (0 < p) × (p < 65536)

-- Every rule is on a known field, so that `check` can match it, and every route has a port.
pub record IsWellFormed (acl : AccessControl) : Type 0 where
  pub fields : All (λ r. IsField r.field) acl.rules
  pub ports : All (λ r. IsPort r.1.port) acl.routes

-- The state a line leaves, accepted or refused.
abbrev pub state_of : Loaded → AccessControl
state_of (ok acl) = acl
state_of (refused acl error) = acl

to_lower-IsField : (f : Bytes) → IsField f → IsField (to_lower f)
unfolding to_lower
to_lower-IsField f (inl e) = inl (rw e refl)
to_lower-IsField f (inr (inl e)) = inr (inl (rw e refl))
to_lower-IsField f (inr (inr e)) = inr (inr (rw e refl))

IsField-of_tests :
    (f : Bytes)
    → (not (bytes_eq f (codes "host"))
        && (not (bytes_eq f (codes "path")) && not (bytes_eq f (codes "method"))))
      ≡ false
    → IsField f
IsField-of_tests f h = elim (Bool-cases (bytes_eq f (codes "host"))) [
  | inl e ↦ inl ((bytes_eq_iff f (codes "host")).0 e)
  | inr n ↦ elim (Bool-cases (bytes_eq f (codes "path"))) [
    | inl e ↦ inr (inl ((bytes_eq_iff f (codes "path")).0 e))
    | inr m ↦ inr (inr ((bytes_eq_iff f (codes "method")).0 (ground arith)))
  ]
]

load_default-IsWellFormed :
    (acl : AccessControl) (lineno : ℕ) (rest : Bytes)
    → IsWellFormed acl
    → IsWellFormed (state_of (load_default acl lineno rest))
unfolding load_default
load_default-IsWellFormed acl lineno rest h =
    let policy = to_lower (next_word rest).0 in
    elim (Bool-cases (bytes_eq policy (codes "allow"))) [
      | inl e ↦ rw e (record { fields = h.fields; ports = h.ports })
      | inr n ↦ rw n (elim (Bool-cases (bytes_eq policy (codes "deny"))) [
        | inl e ↦ rw e (record { fields = h.fields; ports = h.ports })
        | inr m ↦ rw m h
      ])
    ]

load_rule-IsWellFormed :
    (acl : AccessControl) (lineno : ℕ) (s : Bytes) (d : Decision) (rest : Bytes)
    → IsWellFormed acl
    → IsWellFormed (state_of (load_rule acl lineno s d rest))
unfolding load_rule add_rule
load_rule-IsWellFormed acl lineno s d rest h =
    let field = to_lower (next_word rest).0 in
    elim (Bool-cases (is_empty (next_word (next_word rest).1).0)) [
      | inl e ↦ rw e h
      | inr n ↦
          rw n
            (elim (Bool-cases (
              not (bytes_eq field (codes "host"))
              && (not (bytes_eq field (codes "path")) && not (bytes_eq field (codes "method"))))) [
                | inl e ↦ rw e h
                | inr m ↦ rw m (record {
                  fields =
                      All-append (λ r. IsField r.field) acl.rules _ h.fields
                        (to_lower-IsField field (IsField-of_tests field m), tt);
                  ports = h.ports;
                })
              ])
    ]

route_port-IsWellFormed :
    (acl : AccessControl) (lineno : ℕ) (host_pattern up_host : Bytes) (port : ℤ)
    → IsWellFormed acl
    → IsWellFormed (state_of (route_port acl lineno host_pattern up_host port))
unfolding add_route add_to_table
route_port-IsWellFormed acl lineno host_pattern up_host (negsuc p) h = h
route_port-IsWellFormed acl lineno host_pattern up_host (pos p) h =
    elim (Bool-cases (is_empty host_pattern || (is_empty up_host || (leb p 0 || leb 65536 p)))) [
      | inl e ↦ rw e h
      | inr n ↦
          let port : IsPort p = (ground arith, ground arith) in
          rw n (record {
            fields = h.fields;
            ports = All-append (λ r. IsPort r.1.port) acl.routes _ h.ports (port, tt);
          })
    ]

load_route-IsWellFormed :
    (acl : AccessControl) (lineno : ℕ) (rest : Bytes)
    → IsWellFormed acl
    → IsWellFormed (state_of (load_route acl lineno rest))
unfolding load_route
load_route-IsWellFormed acl lineno rest h =
    route_port-IsWellFormed acl lineno (next_word rest).0 (next_word (next_word rest).1).0
      (next_int (next_word (next_word rest).1).1) h

load_directive-IsWellFormed :
    (acl : AccessControl) (lineno : ℕ) (s : Bytes)
    → IsWellFormed acl
    → IsWellFormed (state_of (load_directive acl lineno s))
unfolding load_directive
load_directive-IsWellFormed acl lineno s h =
    let verb = to_lower (next_word s).0 in
    elim (Bool-cases (bytes_eq verb (codes "default"))) [
      | inl e ↦ rw e (load_default-IsWellFormed acl lineno (next_word s).1 h)
      | inr n ↦ rw n (elim (Bool-cases (bytes_eq verb (codes "allow"))) [
        | inl e ↦ rw e (load_rule-IsWellFormed acl lineno s allow (next_word s).1 h)
        | inr m ↦ rw m (elim (Bool-cases (bytes_eq verb (codes "deny"))) [
          | inl e ↦ rw e (load_rule-IsWellFormed acl lineno s deny (next_word s).1 h)
          | inr l ↦ rw l (elim (Bool-cases (bytes_eq verb (codes "route"))) [
            | inl e ↦ rw e (load_route-IsWellFormed acl lineno (next_word s).1 h)
            | inr k ↦ rw k h
          ])
        ])
      ])
    ]

load_line-IsWellFormed :
    (acl : AccessControl) (lineno : ℕ) (line : Bytes)
    → IsWellFormed acl
    → IsWellFormed (state_of (load_line acl lineno line))
unfolding load_line
load_line-IsWellFormed acl lineno line h = elim (Bool-cases (is_comment (trim line))) [
  | inl e ↦ rw e h
  | inr n ↦ rw n (load_directive-IsWellFormed acl lineno (trim line) h)
]

Loaded-cases :
    (l : Loaded)
    → ((acl : AccessControl) × (l ≡ ok acl))
      ⊎ ((acl : AccessControl) × (e : Bytes) × (l ≡ refused acl e))
Loaded-cases (ok acl) = inl (acl, refl)
Loaded-cases (refused acl e) = inr (acl, e, refl)

load_lines-IsWellFormed :
    (acl : AccessControl) (lineno : ℕ) (lines : List Bytes)
    → IsWellFormed acl
    → IsWellFormed (state_of (load_lines acl lineno lines))
unfolding load_lines
load_lines-IsWellFormed acl lineno [] h = h
load_lines-IsWellFormed acl lineno (line ∷ lines) h =
    let step = load_line-IsWellFormed acl (lineno + 1) line h in
    elim (Loaded-cases (load_line acl (lineno + 1) line)) [
      | inl (acl', e) ↦
          rw (e, load_lines) (load_lines-IsWellFormed acl' (lineno + 1) lines (rw e at step))
      | inr (acl', error, e) ↦ rw (e, load_lines) (rw e at step)
    ]

-- Whatever the configuration text, accepted or refused, the loader leaves rules on the fields
-- `host`, `path` and `method` only and routes to ports from 1 to 65535 only, if the rules and
-- routes were so before.
pub load_string-IsWellFormed :
    (acl : AccessControl) (text : Bytes)
    → IsWellFormed acl
    → IsWellFormed (state_of (load_string acl text))
unfolding load_string
load_string-IsWellFormed acl text h = load_lines-IsWellFormed acl 0 (get_lines text) h

port_or_default-IsPort : (p : ℤ) → IsPort (port_or_default p)
port_or_default-IsPort (pos p) = ground arith
port_or_default-IsPort (negsuc p) = (omega arith, omega arith)

split_authority-IsPort : (authority : Bytes) → IsPort (split_authority authority).port
unfolding split_authority
split_authority-IsPort authority = elim (Option-cases (rfind_byte b':' authority)) [
  | inl miss ↦ rw (miss, split_authority) (omega arith, omega arith)
  | inr (colon, hit) ↦
      rw (hit, split_authority)
        (elim (Bool-cases
          (ltb (colon + 1) (length authority) && all_digits (drop (colon + 1) authority))) [
            | inl e ↦ rw e (port_or_default-IsPort (atoi (drop (colon + 1) authority)))
            | inr n ↦ rw n (omega arith, omega arith)
          ])
]

resolve_in-IsPort :
    (routes : RouteTable) (h host : Bytes)
    → All (λ r. IsPort r.1.port) routes
    → IsPort (resolve_in routes h host).port
unfolding resolve_in
resolve_in-IsPort [] h host a = split_authority-IsPort host
resolve_in-IsPort (r ∷ routes) h host a = elim (Bool-cases (wildcard_match r.0 h)) [
  | inl e ↦ rw e a.0
  | inr n ↦ rw n (resolve_in-IsPort routes h host a.1)
]

-- With the routes that any configuration text gives, every `Host` header resolves to an upstream
-- with a port from 1 to 65535.
pub resolve-IsPort :
    (text host : Bytes) → IsPort (resolve (state_of (load_string initial text)).routes host).port
unfolding resolve
resolve-IsPort text host =
    let start : IsWellFormed initial = record { fields = tt; ports = tt } in
    resolve_in-IsPort (state_of (load_string initial text)).routes (to_lower host) host
      (load_string-IsWellFormed initial text start).ports
