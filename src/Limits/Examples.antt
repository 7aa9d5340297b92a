-- ===== src/Limits/Examples.antt =====
-- Examples of merged limits.
use alt_tui.Prelude.{◌≡◌, refl}
use alt_tui.Prelude.Text.{join}
use alt_tui.Limits.{
  ModelLimits, new_token_limit, merge_model_limits, most_restrictive_limit, prompt_capacity,
  both_sources, Bounds, prompt_capacity-merge,
}

abbrev from_catalog : ModelLimits
from_catalog = record {
  context_window = new_token_limit 1000 "gateway_catalog";
  max_input = new_token_limit 0 "gateway_catalog";
  max_output = new_token_limit 200 "gateway_catalog";
}

abbrev from_models_dev : ModelLimits
from_models_dev = record {
  context_window = new_token_limit 1000 "models.dev";
  max_input = new_token_limit 800 "models.dev";
  max_output = new_token_limit 300 "models.dev";
}

merged_test :
    (prompt_capacity (merge_model_limits from_catalog from_models_dev) ≡ 800)
    × ((merge_model_limits from_catalog from_models_dev).context_window.source
        ≡ "gateway_catalog+models.dev")
unfolding prompt_capacity merge_model_limits most_restrictive_limit new_token_limit both_sources
    join
merged_test = (refl, refl)

prompt_capacity-merge_example :
    Bounds
      (prompt_capacity (merge_model_limits from_catalog from_models_dev))
      (prompt_capacity from_catalog)
    × Bounds
        (prompt_capacity (merge_model_limits from_catalog from_models_dev))
        (prompt_capacity from_models_dev)
prompt_capacity-merge_example = prompt_capacity-merge from_catalog from_models_dev
