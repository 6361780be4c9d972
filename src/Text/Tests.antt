-- ===== src/Text/Tests.antt =====
-- The string helpers of http.hpp on small texts.
use multi_threaded_proxy_ser.Text.Wildcard.{Matches, wildcard_match_iff}
use multi_threaded_proxy_ser.Base.{◌↔◌, ◌≡◌, refl, true, false, some, none, ◌∷◌, [], codes}
use multi_threaded_proxy_ser.Text.{
  to_lower, trim, matching, wildcard_match, find, find_from, strip_cr, get_lines,
}

cases :
    (to_lower (codes "Host-X") ≡ codes "host-x")
    × (trim (codes " \t ab c\n") ≡ codes "ab c")
    × (trim (codes "  \t") ≡ [])
    × (find (codes "bc") (codes "abcbc") ≡ some 1)
    × (find_from (codes "bc") (codes "abcbc") 2 ≡ some 3)
    × (find_from (codes "bc") (codes "abcbc") 6 ≡ none)
    × (strip_cr (13 ∷ 13 ∷ []) ≡ 13 ∷ [])
    × (get_lines (codes "a\n\nb\n") ≡ codes "a" ∷ [] ∷ codes "b" ∷ [])
    × (wildcard_match (codes "*.example.com") (codes "www.example.com") ≡ true)
    × (wildcard_match (codes "*.example.com") (codes "example.com") ≡ false)
    × (wildcard_match (codes "/admin/*") (codes "/admin/x") ≡ true)
    × (wildcard_match (codes "*.") (codes "*.") ≡ true)
unfolding to_lower trim find find_from strip_cr get_lines matching
cases = (refl, refl, refl, refl, refl, refl, refl, refl, refl, refl, refl, refl)

wildcard_match_iff_example :
    (wildcard_match (codes "*.example.com") (codes "www.example.com") ≡ true)
    ↔ Matches (codes "*.example.com") (codes "www.example.com")
wildcard_match_iff_example = wildcard_match_iff (codes "*.example.com") (codes "www.example.com")
