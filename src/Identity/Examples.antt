-- ===== src/Identity/Examples.antt =====
-- domain/identity.py: role codes as the MES sends them.
use factory_agent.Prelude.{◌≡◌, refl, none, some, text, strip}
use factory_agent.Identity.{manager, from_mes_code}

padded : from_mes_code (text " 02 ") ≡ some manager
unfolding from_mes_code strip
padded = refl

unknown : from_mes_code (text "03") ≡ none
unfolding from_mes_code strip
unknown = refl
