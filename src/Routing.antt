-- ===== src/Routing.antt =====
-- http.hpp, host-header routing: `split_authority` and `RouteTable`.
use multi_threaded_proxy_ser.Base.{
  ℕ, ◌+◌, Bool, true, ◌&&◌, none, some, List, [], ◌∷◌, ◌++◌, length, take, drop, ltb, if◌then◌else◌,
  Bytes,
}
use multi_threaded_proxy_ser.Base.Int.{ℤ, pos, negsuc}
use multi_threaded_proxy_ser.Number.{is_digit, atoi}
use multi_threaded_proxy_ser.Text.{rfind_byte, to_lower, wildcard_match}

pub record Upstream : Type 0 where
  pub host : Bytes
  pub port : ℕ

-- The loop over the bytes behind the colon.
unfoldable pub all_digits : Bytes → Bool
all_digits [] = true
all_digits (c ∷ s) = is_digit c && all_digits s

-- `u.port`: the number if `0 < p && p < 65536`, else the default.
abbrev pub port_or_default : ℤ → ℕ
port_or_default (pos p) = if ltb 0 p && ltb p 65536 then p else 80
port_or_default (negsuc p) = 80

unfoldable pub split_authority : Bytes → Upstream
unfolding rfind_byte all_digits atoi
split_authority authority = elim (rfind_byte b':' authority) [
  | none ↦ record { host = authority; port = 80 }
  | some colon ↦
      (let digits = drop (colon + 1) authority in
        if ltb (colon + 1) (length authority) && all_digits digits
        then record { host = take colon authority; port = port_or_default (atoi digits) }
        else record { host = authority; port = 80 })
]

abbrev pub RouteTable : Type 0
RouteTable = List (Bytes × Upstream)

-- `RouteTable::add`.
unfoldable pub add_to_table : RouteTable → Bytes → Upstream → RouteTable
unfolding to_lower
add_to_table routes host_pattern up = routes ++ (to_lower host_pattern, up) ∷ []

-- The loop of `RouteTable::resolve`, over the lower-cased host.
unfoldable pub resolve_in : RouteTable → Bytes → Bytes → Upstream
resolve_in [] h host_header = split_authority host_header
resolve_in ((pattern, up) ∷ routes) h host_header =
    if wildcard_match pattern h then up else resolve_in routes h host_header

unfoldable pub resolve : RouteTable → Bytes → Upstream
resolve routes host_header = resolve_in routes (to_lower host_header) host_header
