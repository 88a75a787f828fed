-- ===== src/Token/Tests.antt =====
-- Tests of `validate`, and the theorems at concrete tokens.
use hoglet.Prelude.{◌≡◌, refl, ◌↔◌, codes, ok, err}
use hoglet.Token.{TokenError, validate}
use hoglet.Token.Laws.{IsToken, validate-ok_iff}

accepts : validate (codes "phc_abc123") ≡ ok tt
unfolding validate
accepts = refl

rejects_personal : validate (codes "phx_secret") ≡ err TokenError.personal_api_key
unfolding validate
rejects_personal = refl

validate-ok_iff_example : (validate (codes "phc_a") ≡ ok tt) ↔ IsToken (codes "phc_a")
validate-ok_iff_example = validate-ok_iff (codes "phc_a")
