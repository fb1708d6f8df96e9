-- ===== src/Auth/Retry/Examples.antt =====
-- MAS is down for two rounds and answers in the third.
use matrixctrl.Common.{ℕ, ◌≡◌, inr, refl, true, false, none, some, [], ◌∷◌}
use matrixctrl.Auth.Retry.{RetryState, Round, retry_oidc}
use matrixctrl.Auth.Retry.Runs.{retry_oidc-Failing, retry_oidc-decided}

abbrev down : Round ℕ
down = record { waited = true; installed = false; built = none }

abbrev up : Round ℕ
up = record { waited = true; installed = false; built = some 7 }

abbrev idle : RetryState
idle = record { active = false; attempts = 0 }

retry_oidc-Failing_example :
    let r = retry_oidc (down ∷ down ∷ []) idle in
    (r.state.active ≡ true) × (r.state.attempts ≡ 2) × (r.installs ≡ none)
retry_oidc-Failing_example =
    retry_oidc-Failing (down ∷ down ∷ []) idle ((refl, refl, refl), ((refl, refl, refl), tt))

retry_oidc-decided_example :
    let r = retry_oidc (down ∷ down ∷ up ∷ down ∷ []) idle in
    (r.state.active ≡ false) × (r.state.attempts ≡ 3) × (r.installs ≡ some 7)
retry_oidc-decided_example =
    retry_oidc-decided (down ∷ down ∷ []) (down ∷ []) up idle
      ((refl, refl, refl), ((refl, refl, refl), tt)) (inr (inr (λ e. cc)))
