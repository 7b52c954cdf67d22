-- ===== src/Defaults/Serving.antt =====
-- apis/serving/v1alpha1/defaults.go.
use kubedl.Prelude.{ℕ, Option, none, some, List, [], ◌∷◌}
use kubedl.Defaults.{Container, or_default, set_port}

-- PredictorSpec, as far as its replicas and the containers of its template.
pub record Predictor : Type 0 where
  pub replicas : Option ℕ
  pub containers : List Container

abbrev pub with_port : Predictor → Option (List Container) → Option Predictor
with_port p none = none
with_port p (some cs) = some (record { replicas = or_default 1 p.replicas; containers = cs })

-- setDefaults_predictor.
unfoldable pub set_predictor : Predictor → Option Predictor
set_predictor p = with_port p (set_port "predictor" "predictor-http-port" 8080 p.containers)

-- SetDefaults_Inference, on the predictors.
unfoldable pub set_inference : List Predictor → Option (List Predictor)
set_inference [] = some []
set_inference (p ∷ ps) = elim (set_predictor p) [
  | none ↦ none
  | some q ↦ elim (set_inference ps) [ none ↦ none | some qs ↦ some (q ∷ qs) ]
]
