-- ===== src/Routing/Samples.antt =====
-- Routing on small inputs.
use mathlib.Core.Bool.{false≢true}
use dc_ness.Base.{String, string_eq, true, false, none, some, [], ◌∷◌, ◌≡◌, refl, mem, eq_iff}
use dc_ness.Base.Dict.{lookup, put}
use dc_ness.Routing.Config.{
  File, missing, holds, Config, ok, load_routing, save_routing, set_provider, clean, object,
  config_version,
}
use dc_ness.Routing.Providers.{
  Route, codex_cli_available, review_route_for_actual_provider, resolve_provider,
  default_validation_provider, implementation_camp,
}
use dc_ness.Routing.Stored.{set_provider-load_routing}

program : Unit {0}
unfolding load_routing save_routing set_provider clean lookup put mem codex_cli_available
    review_route_for_actual_provider resolve_provider default_validation_provider
    implementation_camp
program = tt

abbrev by_claude : Route
by_claude = record {
  actual_implementation_provider = "claude-main";
  implementation_camp = "claude";
  preferred_review_provider = "codex";
  review_provider = "claude";
  fallback_reason = some "codex-cli-unavailable";
}

default_route :
    resolve_provider true "impl-validator" missing (some "claude") "claude" none ≡ ok "codex"
unfolding program
default_route = refl

abbrev no_routes : Config
no_routes = record { routes = []; implementation_routes = [] }

abbrev one_route : Config
one_route = record { routes = ("impl-validator", "codex") ∷ []; implementation_routes = [] }

abbrev stored : File
stored = holds (record {
  version = some config_version;
  routes = object (("impl-validator", "codex") ∷ []);
  implementation_routes = object [];
})

missing_loads : load_routing missing ≡ ok no_routes
unfolding program
missing_loads = refl

route_set : set_provider "impl-validator" "codex" missing ≡ ok stored
unfolding program
route_set = refl

set_provider-load_routing_example :
    (resolve_provider false "impl-validator" stored none "codex" none ≡ ok "codex")
    × (c' : Config) × (load_routing stored ≡ ok c')
    × (lookup {K = String} "impl-validator" c'.routes ≡ some "codex")
    × (lookup {K = String} "architecture-validator" c'.routes
        ≡ lookup {K = String} "architecture-validator" no_routes.routes)
    × (c'.implementation_routes ≡ no_routes.implementation_routes)
set_provider-load_routing_example =
    set_provider-load_routing "impl-validator" "architecture-validator" "codex" missing stored
      no_routes false none "codex" none missing_loads route_set
      (λ e. false≢true ((eq_iff "architecture-validator" "impl-validator").1 e))

one_route_saved : save_routing one_route ≡ ok stored
unfolding program
one_route_saved = refl
