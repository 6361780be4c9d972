-- ===== src/Acl/FirstMatch.antt =====
-- `check` takes the first rule that applies, and the default policy if none does.
use multi_threaded_proxy_ser.Base.{
  true, false, List, [], ◌∷◌, codes, bytes_eq, bytes_eq_iff, ◌≡◌, ◌↔◌, subst, refl, arith,
  Bool-cases, inl, inr,
}
use multi_threaded_proxy_ser.Acl.{
  Decision, AclResult, Rule, AccessControl, rule_matches, check_rules, check,
}
use multi_threaded_proxy_ser.Request.{Request}
use multi_threaded_proxy_ser.Text.Wildcard.{Matches, wildcard_match_iff}
use multi_threaded_proxy_ser.Text.{to_lower}

-- A rule applies to a request by its field: hosts and methods without regard to case, paths as they
-- are.
pub data Applies (req : Request) (r : Rule) : Type 0 where
  by_host :
      r.field ≡ codes "host" → Matches (to_lower r.pattern) (to_lower req.host) → Applies req r
  by_path : r.field ≡ codes "path" → Matches r.pattern req.path → Applies req r
  by_method :
      r.field ≡ codes "method" → Matches (to_lower r.pattern) (to_lower req.method) → Applies req r

rule_matches-Applies : (req : Request) (r : Rule) → rule_matches req r ≡ true → Applies req r
unfolding rule_matches
rule_matches-Applies req r h = elim (Bool-cases (bytes_eq r.field (codes "host"))) [
  | inl host ↦
      by_host ((bytes_eq_iff r.field (codes "host")).0 host)
        ((wildcard_match_iff (to_lower r.pattern) (to_lower req.host)).0 (ground arith))
  | inr other ↦ elim (Bool-cases (bytes_eq r.field (codes "path"))) [
    | inl path ↦
        by_path ((bytes_eq_iff r.field (codes "path")).0 path)
          ((wildcard_match_iff r.pattern req.path).0 (ground arith))
    | inr other' ↦ elim (Bool-cases (bytes_eq r.field (codes "method"))) [
      | inl method ↦
          by_method ((bytes_eq_iff r.field (codes "method")).0 method)
            ((wildcard_match_iff (to_lower r.pattern) (to_lower req.method)).0 (ground arith))
      | inr none_of ↦ absurd (ground arith)
    ]
  ]
]

Applies-rule_matches : (req : Request) (r : Rule) → Applies req r → rule_matches req r ≡ true
unfolding rule_matches bytes_eq
Applies-rule_matches req r (by_host f m) =
    let fits = (wildcard_match_iff (to_lower r.pattern) (to_lower req.host)).1 m in rw (f, fits)
Applies-rule_matches req r (by_path f m) =
    let fits = (wildcard_match_iff r.pattern req.path).1 m in rw (f, fits)
Applies-rule_matches req r (by_method f m) =
    let fits = (wildcard_match_iff (to_lower r.pattern) (to_lower req.method)).1 m in rw (f, fits)

refuses : (req : Request) (r : Rule) → ¬ Applies req r → rule_matches req r ≡ false
refuses req r h = elim (Bool-cases (rule_matches req r)) [
  | inl hit ↦ absurd (h (rule_matches-Applies req r hit))
  | inr miss ↦ miss
]

-- The verdict that the comments of the code promise: that of the first rule in file order that
-- applies, and the default policy when no rule applies.
pub data Verdict (req : Request) (default : Decision) : List Rule → AclResult → Type 0 where
  by_default :
      Verdict req default [] (record { decision = default; matched_rule = codes "default" })
  by_rule :
      {r : Rule} {rules : List Rule}
      → Applies req r
      → Verdict req default (r ∷ rules) (record { decision = r.decision; matched_rule = r.source })
  skip :
      {r : Rule} {rules : List Rule} {result : AclResult}
      → ¬ Applies req r
      → Verdict req default rules result
      → Verdict req default (r ∷ rules) result

check_rules-Verdict :
    (default : Decision) (req : Request) (rules : List Rule)
    → Verdict req default rules (check_rules default req rules)
unfolding check_rules
check_rules-Verdict default req [] = by_default
check_rules-Verdict default req (r ∷ rules) = elim (Bool-cases (rule_matches req r)) [
  | inl hit ↦ rw hit (by_rule (rule_matches-Applies req r hit))
  | inr miss ↦ rw miss (
      skip (λ a. ground (arith, Applies-rule_matches req r a))
        (check_rules-Verdict default req rules))
]

Verdict-check_rules :
    (default : Decision) (req : Request) {rules : List Rule} {result : AclResult}
    → Verdict req default rules result
    → check_rules default req rules ≡ result
unfolding check_rules
Verdict-check_rules default req by_default = refl
Verdict-check_rules default req (by_rule {r} a) = rw (Applies-rule_matches req r a)
Verdict-check_rules default req (skip {r} n v) =
    rw (refuses req r n) (Verdict-check_rules default req v)

-- `check` returns a result if and only if it is the verdict of the rules in file order: the
-- decision and source line of the first rule that applies, and the default policy with the text
-- "default" if none does, where a rule applies by what its field and pattern mean.
pub check-Verdict :
    (acl : AccessControl) (req : Request) (result : AclResult)
    → (check acl req ≡ result) ↔ Verdict req acl.default_policy acl.rules result
unfolding check
check-Verdict acl req result = (
  λ e.
      subst (Verdict req acl.default_policy acl.rules) e
        (check_rules-Verdict acl.default_policy req acl.rules),
  Verdict-check_rules acl.default_policy req,
)
