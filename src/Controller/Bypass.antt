-- ===== src/Controller/Bypass.antt =====
-- `BypassRules` of hyperagg/controller/bypass_rules.py: destinations that do not go through the
-- tunnel. Texts of addresses, ranges and domains are numbers here, since they are only compared.
pub mod Sharing
mod Tests
use ratan_engine.Prelude.{
  ℕ, Bool, true, false, Option, none, some, List, [], ◌∷◌, ◌++◌, if◌then◌else◌, map,
}
use ratan_engine.Prelude.Dict.{Dict, lookup, insert, remove, add_elem, discard, elem}

pub record BypassRules : Type 0 where
  pub ip_rules : List ℕ
  pub domain_rules : List ℕ
  pub resolved : Dict (List ℕ)

-- The calls of `ip route` that an operation makes
pub data Route : Type 0 where
  add_route del_route : ℕ → Route

-- `__init__`
abbrev pub new_rules : BypassRules
new_rules = record { ip_rules = []; domain_rules = []; resolved = [] }

-- `add_ip`; `valid` says whether `ipaddress.ip_network` takes the text. False is the status "error".
unfoldable pub add_ip : (valid : Bool) → ℕ → BypassRules → Bool × List Route × BypassRules
add_ip valid cidr b =
    if valid
    then (true, add_route cidr ∷ [], record b { ip_rules = add_elem cidr b.ip_rules })
    else (false, [], b)

unfoldable pub remove_ip : ℕ → BypassRules → List Route × BypassRules
remove_ip cidr b = (del_route cidr ∷ [], record b { ip_rules = discard cidr b.ip_rules })

-- The loop over the addresses of a domain: each of their ranges is added, or discarded.
unfoldable pub add_all : List ℕ → List ℕ → List ℕ
add_all [] rules = rules
add_all (r ∷ rs) rules = add_all rs (add_elem r rules)

unfoldable pub discard_all : List ℕ → List ℕ → List ℕ
discard_all [] rules = rules
discard_all (r ∷ rs) rules = discard_all rs (discard r rules)

-- `self._resolved.get(domain, set())`
abbrev pub resolved_of : ℕ → BypassRules → List ℕ
resolved_of domain b = elim (lookup domain b.resolved) [ none ↦ [] | some ips ↦ ips ]

-- `clear_all`
unfoldable pub clear_all : BypassRules → List Route × BypassRules
clear_all b = (map del_route b.ip_rules, new_rules)

-- `host ip` is `f"{ip}/32"`.
module _ (host : ℕ → ℕ) where
  -- `add_domain`; `found` are the distinct addresses that `getaddrinfo` returns, or `none` where it
  -- raises.
  unfoldable pub add_domain :
      (domain : ℕ) (found : Option (List ℕ)) → BypassRules → Bool × List Route × BypassRules
  add_domain domain none b = (false, [], b)
  add_domain domain (some ips) b = (
    true,
    map add_route (map host ips),
    record {
      ip_rules = add_all (map host ips) b.ip_rules;
      domain_rules = add_elem domain b.domain_rules;
      resolved = insert domain ips b.resolved;
    },
  )

  unfoldable pub remove_domain : ℕ → BypassRules → List Route × BypassRules
  remove_domain domain b =
      let hosts = map host (resolved_of domain b) in
      (
        map del_route hosts,
        record {
          ip_rules = discard_all hosts b.ip_rules;
          domain_rules = discard domain b.domain_rules;
          resolved = remove domain b.resolved;
        },
      )

-- The loop of `is_bypassed`; `within` says whether the address lies in a range, and `none` stands
-- for a text that is no address.
unfoldable pub in_some : (within : ℕ → Bool) → List ℕ → Bool
in_some within [] = false
in_some within (r ∷ rs) = if within r then true else in_some within rs

unfoldable pub is_bypassed : Option (ℕ → Bool) → BypassRules → Bool
is_bypassed none b = false
is_bypassed (some within) b = in_some within b.ip_rules
