-- ===== src/Acl/Tests.antt =====
-- The access control of http.hpp on a small configuration.
use multi_threaded_proxy_ser.Base.{◌≡◌, ◌↔◌, refl, Bytes, codes, ◌++◌}
use multi_threaded_proxy_ser.Acl.FirstMatch.{Verdict, check-Verdict}
use multi_threaded_proxy_ser.Acl.Loading.{IsWellFormed, state_of, load_string-IsWellFormed}
use multi_threaded_proxy_ser.Acl.{
  AccessControl, AclResult, initial, load_string, refused, check, checking, deny, allow,
}
use multi_threaded_proxy_ser.Request.{Request, parse_request, parsing}

abbrev text : Bytes
text =
    codes
      "# comment\ndeny host *.bad.com\nDENY path /admin*\nroute a.b 127.0.0.1 19000\ndefault allow\n"

abbrev acl : AccessControl
acl = state_of (load_string initial text)

abbrev req : Bytes → Bytes → Request
req h p = parse_request (codes "GET " ++ p ++ codes " HTTP/1.1\nHost: " ++ h ++ codes "\n\n")

cases :
    ((check acl (req (codes "x.bad.com") (codes "/"))).decision ≡ deny)
    × ((check acl (req (codes "good.com") (codes "/"))).decision ≡ allow)
    × ((check acl (req (codes "good.com") (codes "/admin/x"))).matched_rule
        ≡ codes "DENY path /admin*")
    × (load_string initial (codes "default allow\nfoo")
        ≡ refused initial (codes "line 2: unknown directive 'foo'"))
unfolding checking parsing
cases = (refl, refl, refl, refl)

abbrev denial : AclResult
denial = record { decision = deny; matched_rule = codes "deny host *.bad.com" }

check-Verdict_example :
    (check acl (req (codes "x.bad.com") (codes "/")) ≡ denial)
    ↔ Verdict (req (codes "x.bad.com") (codes "/")) acl.default_policy acl.rules denial
check-Verdict_example = check-Verdict acl (req (codes "x.bad.com") (codes "/")) denial

load_string-IsWellFormed_example : IsWellFormed (state_of (load_string initial text))
load_string-IsWellFormed_example =
    load_string-IsWellFormed initial text (record { fields = tt; ports = tt })

-- An exact pattern does not apply to a host that names its port.
port_in_host :
    (check
      (state_of (load_string initial (codes "deny host bad.com")))
      (req (codes "bad.com:80") (codes "/"))).decision
    ≡ allow
unfolding checking parsing
port_in_host = refl
