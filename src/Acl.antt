-- ===== src/Acl.antt =====
-- http.hpp, access control: the rules, `check`, and the configuration loader.
pub mod FirstMatch
pub mod Loading
mod Tests
use Prim.Native.Nat.{pred}
use multi_threaded_proxy_ser.Base.{
  ℕ, suc, ◌+◌, Bool, true, false, not, ◌&&◌, ◌||◌, Option, none, some, List, [], ◌∷◌, ◌++◌,
  if◌then◌else◌, leb, ◌==◌, Bytes, codes, bytes_eq, is_empty,
}
use multi_threaded_proxy_ser.Base.Int.{ℤ, pos, negsuc, within}
use multi_threaded_proxy_ser.Number.{is_digit, is_space, skip_space, decimal, to_string}
use multi_threaded_proxy_ser.Request.{Request}
use multi_threaded_proxy_ser.Routing.{RouteTable, add_to_table}
use multi_threaded_proxy_ser.Text.{to_lower, trim, get_lines, wildcard_match, matching}

pub data Decision : Type 0 where
  allow deny : Decision

pub record AclResult : Type 0 where
  pub decision : Decision
  pub matched_rule : Bytes

pub record Rule : Type 0 where
  pub decision : Decision
  pub field : Bytes
  pub pattern : Bytes
  pub source : Bytes

pub record AccessControl : Type 0 where
  pub rules : List Rule
  pub default_policy : Decision
  pub routes : RouteTable

-- The members' initialisers.
abbrev pub initial : AccessControl
initial = record { rules = []; default_policy = allow; routes = [] }

unfoldable pub add_rule : AccessControl → Decision → Bytes → Bytes → Bytes → AccessControl
unfolding to_lower
add_rule acl d field pattern source = record acl {
  rules =
      acl.rules
      ++ (record {
        decision = d;
        field = to_lower field;
        pattern = pattern;
        source = if is_empty source then field ++ codes " " ++ pattern else source;
      }
          ∷ []);
}

unfoldable pub add_route : AccessControl → Bytes → Bytes → ℕ → AccessControl
unfolding add_to_table
add_route acl host_pattern up_host up_port = record acl {
  routes = add_to_table acl.routes host_pattern (record { host = up_host; port = up_port });
}

-- The body of the loop of `check`, up to `match`.
unfoldable pub rule_matches : Request → Rule → Bool
unfolding bytes_eq to_lower
rule_matches req r =
    if bytes_eq r.field (codes "host")
    then wildcard_match (to_lower r.pattern) (to_lower req.host)
    else if bytes_eq r.field (codes "path")
    then wildcard_match r.pattern req.path
    else if bytes_eq r.field (codes "method")
    then wildcard_match (to_lower r.pattern) (to_lower req.method)
    else false

unfoldable pub check_rules : Decision → Request → List Rule → AclResult
check_rules default req [] = record { decision = default; matched_rule = codes "default" }
check_rules default req (r ∷ rules) =
    if rule_matches req r
    then record { decision = r.decision; matched_rule = r.source }
    else check_rules default req rules

unfoldable pub check : AccessControl → Request → AclResult
check acl req = check_rules acl.default_policy req acl.rules

-- The bytes in front of the first white space, and those from there on.
unfoldable pub word_front : Bytes → Bytes
word_front [] = []
word_front (c ∷ s) = if is_space c then [] else c ∷ word_front s

unfoldable pub word_rest : Bytes → Bytes
word_rest [] = []
word_rest (c ∷ s) = if is_space c then c ∷ s else word_rest s

-- `ls >> word` on a stream that still holds `s`: the word, and what is left. At the end of the
-- stream the word stays empty.
unfoldable pub next_word : Bytes → Bytes × Bytes
unfolding skip_space word_front word_rest
next_word s = let t = skip_space s in (word_front t, word_rest t)

abbrev pub int_max : ℕ
int_max = 2147483647

-- `ls >> up_port` for an `int` that is 0 before: no digits leave 0, and a number out of range
-- becomes the nearest `int`.
abbrev pub int_of : Bool → ℕ → ℤ
int_of false n = if leb n int_max then pos n else pos int_max
int_of true n = if n == 0 then pos 0 else if leb n int_max then negsuc (pred n) else negsuc int_max

abbrev pub int_behind_sign : Bool → Bytes → ℤ
int_behind_sign negative [] = pos 0
int_behind_sign negative (c ∷ s) = if is_digit c then int_of negative (decimal 0 (c ∷ s)) else pos 0

abbrev pub int_at : Bytes → ℤ
int_at [] = pos 0
int_at (c ∷ s) =
    if c == b'-'
    then int_behind_sign true s
    else if c == b'+'
    then int_behind_sign false s
    else int_behind_sign false (c ∷ s)

unfoldable pub next_int : Bytes → ℤ
unfolding skip_space decimal
next_int s = int_at (skip_space s)

-- The state after a line, and the message if the line is refused.
pub data Loaded : Type 0 where
  ok : AccessControl → Loaded
  refused : AccessControl → Bytes → Loaded

abbrev pub at_line : ℕ → Bytes → Bytes
at_line lineno message = codes "line " ++ to_string lineno ++ message

-- `default <policy>`.
unfoldable pub load_default : AccessControl → ℕ → Bytes → Loaded
unfolding bytes_eq next_word to_lower to_string
load_default acl lineno rest =
    let policy = to_lower (next_word rest).0 in
    if bytes_eq policy (codes "allow")
    then ok (record acl { default_policy = allow })
    else if bytes_eq policy (codes "deny")
    then ok (record acl { default_policy = deny })
    else refused acl (at_line lineno (codes ": default must be allow|deny"))

-- `allow|deny <field> <pattern>`; `s` is the whole line.
unfoldable pub load_rule : AccessControl → ℕ → Bytes → Decision → Bytes → Loaded
unfolding bytes_eq next_word to_lower add_rule to_string
load_rule acl lineno s d rest =
    let (field_word, rest1) = next_word rest in
    let pattern = (next_word rest1).0 in
    let field = to_lower field_word in
    if is_empty pattern
    then refused acl (at_line lineno (codes ": missing pattern"))
    else if not (bytes_eq field (codes "host"))
        && (not (bytes_eq field (codes "path")) && not (bytes_eq field (codes "method")))
    then refused acl (at_line lineno (codes ": field must be host|path|method"))
    else ok (add_rule acl d field pattern s)

abbrev pub route_port : AccessControl → ℕ → Bytes → Bytes → ℤ → Loaded
route_port acl lineno host_pattern up_host (negsuc p) =
    refused acl (at_line lineno (codes ": route needs <host-pattern> <host> <port>"))
route_port acl lineno host_pattern up_host (pos p) =
    if is_empty host_pattern || (is_empty up_host || (leb p 0 || leb 65536 p))
    then refused acl (at_line lineno (codes ": route needs <host-pattern> <host> <port>"))
    else ok (add_route acl host_pattern up_host p)

-- `route <host-pattern> <upstream-host> <upstream-port>`.
unfoldable pub load_route : AccessControl → ℕ → Bytes → Loaded
unfolding next_word next_int add_route to_string
load_route acl lineno rest =
    let (host_pattern, rest1) = next_word rest in
    let (up_host, rest2) = next_word rest1 in
    route_port acl lineno host_pattern up_host (next_int rest2)

-- The body of the loop on a line that is neither empty nor a comment.
unfoldable pub load_directive : AccessControl → ℕ → Bytes → Loaded
unfolding bytes_eq next_word to_lower load_default load_rule load_route to_string
load_directive acl lineno s =
    let (verb_word, rest) = next_word s in
    let verb = to_lower verb_word in
    if bytes_eq verb (codes "default")
    then load_default acl lineno rest
    else if bytes_eq verb (codes "allow")
    then load_rule acl lineno s allow rest
    else if bytes_eq verb (codes "deny")
    then load_rule acl lineno s deny rest
    else if bytes_eq verb (codes "route")
    then load_route acl lineno rest
    else refused acl (at_line lineno (codes ": unknown directive '" ++ verb ++ codes "'"))

abbrev pub is_comment : Bytes → Bool
is_comment [] = true
is_comment (c ∷ s) = c == b'#'

unfoldable pub load_line : AccessControl → ℕ → Bytes → Loaded
unfolding trim load_directive
load_line acl lineno line =
    let s = trim line in if is_comment s then ok acl else load_directive acl lineno s

-- The loop of `load_string`; `lineno` counts the lines read before.
unfoldable pub load_lines : AccessControl → ℕ → List Bytes → Loaded
unfolding load_line
load_lines acl lineno [] = ok acl
load_lines acl lineno (line ∷ lines) = elim (load_line acl (lineno + 1) line) [
  | ok acl' ↦ load_lines acl' (lineno + 1) lines
  | refused acl' error ↦ refused acl' error
]

unfoldable pub load_string : AccessControl → Bytes → Loaded
unfolding load_lines get_lines
load_string acl text = load_lines acl 0 (get_lines text)

-- The definitions that a run on concrete texts computes with.
unfoldable pub checking : Unit {0}
unfolding check check_rules rule_matches matching to_lower load_string
checking = tt
