-- ===== src/Controller/Bypass/Tests.antt =====
-- Runs of the rules at concrete inputs.
use ratan_engine.Prelude.{◌+◌, ◌≡◌, refl, some, [], ◌∷◌}
use ratan_engine.Prelude.Dict
use ratan_engine.Prelude.Dict.{elem, lookup, add_elem, discard}
use ratan_engine.Controller.Bypass.{BypassRules, add_all, discard_all, add_domain, remove_domain}

-- The range of the address 7 is a rule of its own.
abbrev rules : BypassRules
rules = record { ip_rules = 107 ∷ 103 ∷ []; domain_rules = []; resolved = [] }

-- The rule that was there before is gone.
rule_lost :
    (remove_domain
      (λ ip. ip + 100)
      1
      (add_domain (λ ip. ip + 100) 1 (some (7 ∷ [])) rules).2).1.ip_rules
    ≡ 103 ∷ []
unfolding add_domain remove_domain add_all discard_all add_elem discard elem lookup Dict.insert
rule_lost = refl
