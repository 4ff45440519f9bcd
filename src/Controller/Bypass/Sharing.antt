-- ===== src/Controller/Bypass/Sharing.antt =====
-- Addresses that several rules of hyperagg/controller/bypass_rules.py need.
use ratan_engine.Prelude.{
  ℕ, ◌≡◌, refl, ap, ◌∙◌, Bool, true, false, Option, none, some, List, [], ◌∷◌, map, arith,
  if◌then◌else◌,
}
use ratan_engine.Prelude.Dict.{
  Dict, lookup, insert, elem, add_elem, discard, elem-add_elem, elem-discard, lookup-insert,
}
use ratan_engine.Controller.Bypass.{
  BypassRules, add_all, discard_all, resolved_of, add_domain, remove_domain,
}

elem-add_all :
    (r : ℕ) (rs rules : List ℕ)
    → elem r (add_all rs rules) ≡ (if elem r rs then true else elem r rules)
unfolding add_all elem
elem-add_all r [] rules = refl
elem-add_all r (s ∷ rs) rules =
    elem-add_all r rs (add_elem s rules) ∙ ground (arith, elem-add_elem s r rules)

elem-discard_all :
    (r : ℕ) (rs rules : List ℕ)
    → elem r (discard_all rs rules) ≡ (if elem r rs then false else elem r rules)
unfolding discard_all elem
elem-discard_all r [] rules = refl
elem-discard_all r (s ∷ rs) rules =
    elem-discard_all r rs (discard s rules) ∙ ground (arith, elem-discard s r rules)

lookup-inserted : (k : ℕ) (ips : List ℕ) (d : Dict (List ℕ)) → lookup k (insert k ips d) ≡ some ips
lookup-inserted k ips d = grind (arith, lookup-insert k k ips d)

elem_twice : (a b : Bool) → (if a then false else if a then true else b) ≡ (if a then false else b)
elem_twice a b = ground arith

module _ (host : ℕ → ℕ) where
  -- Adding a domain makes every range of its addresses a rule and keeps all others. Removing it
  -- again leaves no rule for its addresses, also where one was there before, added by itself or for
  -- another domain, and keeps all others.
  pub remove_domain-add_domain :
      (domain r : ℕ) (ips : List ℕ) (b : BypassRules)
      → let added = (add_domain host domain (some ips) b).2 in
        (elem r added.ip_rules ≡ (if elem r (map host ips) then true else elem r b.ip_rules))
        × (elem r (remove_domain host domain added).1.ip_rules
            ≡ (if elem r (map host ips) then false else elem r b.ip_rules))
  unfolding add_domain remove_domain
  remove_domain-add_domain domain r ips b =
      let added = (add_domain host domain (some ips) b).2 in
      let same : resolved_of domain added ≡ ips =
        ap (λ (o : Option (List ℕ)). elim o [ none ↦ [] | some found ↦ found ])
          (lookup-inserted domain ips b.resolved) in
      (
        elem-add_all r (map host ips) b.ip_rules,
        elem-discard_all r (map host (resolved_of domain added)) added.ip_rules
            ∙ rw (same, elem-add_all r (map host ips) b.ip_rules)
                (elem_twice (elem r (map host ips)) (elem r b.ip_rules)),
      )
