-- ===== src/Scenarios/Names.antt =====
-- The theorem on allowed source paths, at one path.
use openbao_plugin_secrets_s.Prelude.{◌≡◌, ◌↔◌, ◌⊎◌, true, [], ◌∷◌, List, String}
use openbao_plugin_secrets_s.Naming.{source_path_allowed}
use openbao_plugin_secrets_s.Naming.Allowed.{UnderOne, source_path_allowed_iff}

source_path_allowed_iff_example :
    (source_path_allowed "team/app" ("team" ∷ []) ≡ true)
    ↔ ((◌≡◌ {A = List String} ("team" ∷ []) []) ⊎ UnderOne "team/app" ("team" ∷ []))
source_path_allowed_iff_example = source_path_allowed_iff "team/app" ("team" ∷ [])
