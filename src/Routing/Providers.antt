-- ===== src/Routing/Providers.antt =====
-- harness/agent_routing.py, the choice of a provider.
use dc_ness.Base.{
  String, string_eq, Bool, true, not, ◌&&◌, ◌||◌, Option, none, some, List, [], ◌∷◌, ◌++◌,
  if◌then◌else◌, ◌==◌, mem, mem-append, refl, ◌≡◌, ◌⊎◌, inl, inr, arith, Bool-cases,
}
use dc_ness.Base.Dict.{lookup}
use dc_ness.Routing.Config.{
  File, Config, Result, ok, err, Error, unsupported_provider, ◌>>=◌, load_routing,
  routable_validation_agents, routable_implementation_agents, valid_validation_providers,
  valid_implementation_providers,
}

abbrev pub actual_implementation_providers : List String
actual_implementation_providers = "codex-headless" ∷ "claude-headless" ∷ "claude-main" ∷ []

-- `shutil.which("codex")` is a parameter; an explicit answer comes first.
unfoldable pub codex_cli_available : (on_path : Bool) → Option Bool → Bool
codex_cli_available on_path none = on_path
codex_cli_available on_path (some available) = available

unfoldable pub implementation_camp : Option String → String → String
implementation_camp none main_provider = if main_provider == "codex" then "codex" else "claude"
implementation_camp (some provider) main_provider =
    if provider == "headless-chain"
    then "codex"
    else if provider == "claude" || provider == "claude-headless"
    then "claude"
    else if main_provider == "codex"
    then "codex"
    else "claude"

unfoldable pub default_validation_provider :
    (on_path : Bool) → String → Option String → String → Option Bool → String
unfolding codex_cli_available
default_validation_provider on_path agent implementation_provider main_provider codex_available =
    if not (agent == "impl-validator")
    then "claude"
    else if implementation_camp implementation_provider main_provider == "codex"
    then "claude"
    else if codex_cli_available on_path codex_available
    then "codex"
    else "claude"

pub record Route : Type 0 where
  pub actual_implementation_provider : String
  pub implementation_camp : String
  pub preferred_review_provider : String
  pub review_provider : String
  pub fallback_reason : Option String

unfoldable pub review_route_for_actual_provider :
    (on_path : Bool) → String → Option Bool → Result Route
unfolding codex_cli_available
review_route_for_actual_provider on_path actual codex_available =
    let camp = if actual == "codex-headless" then "codex" else "claude" in
    let preferred = if camp == "codex" then "claude" else "codex" in
    let falls_back = preferred == "codex" && not (codex_cli_available on_path codex_available) in
    if not (mem actual actual_implementation_providers)
    then err unsupported_provider
    else ok (record {
      actual_implementation_provider = actual;
      implementation_camp = camp;
      preferred_review_provider = preferred;
      review_provider = if falls_back then "claude" else preferred;
      fallback_reason = if falls_back then some "codex-cli-unavailable" else none;
    })

abbrev pub checked : List String → String → String
checked providers provider = if mem provider providers then provider else "claude"

abbrev pub routed : Option String → String → String
routed none default = default
routed (some provider) default = provider

unfoldable pub resolve_provider :
    (on_path : Bool) → String → File → Option String → String → Option Bool → Result String
unfolding default_validation_provider
resolve_provider on_path agent file implementation_provider main_provider codex_available =
    if not (mem agent (routable_validation_agents ++ routable_implementation_agents))
    then ok "claude"
    else (load_routing file >>= λ cfg.
        if mem agent routable_validation_agents
        then ok (
            checked valid_validation_providers (
              routed (lookup agent cfg.routes) (
                default_validation_provider on_path agent implementation_provider main_provider
                  codex_available)))
        else ok (
            checked valid_implementation_providers
              (routed (lookup agent cfg.implementation_routes) "headless-chain")))

unfoldable pub implementation_provider_chain : String → List String
implementation_provider_chain provider =
    if provider == "headless-chain"
    then "codex-headless" ∷ "claude-headless" ∷ "claude-main" ∷ []
    else if provider == "claude-headless"
    then "claude-headless" ∷ "claude-main" ∷ []
    else "claude-main" ∷ []

-- The camp of a provider that made a change.
abbrev pub camp_of : String → String
camp_of actual = if actual == "codex-headless" then "codex" else "claude"

claude_mem : mem {A = String} "claude" ("claude" ∷ []) ≡ true
unfolding mem
claude_mem = refl

validation-mem :
    (provider : String)
    → mem (checked valid_validation_providers provider) valid_validation_providers ≡ true
validation-mem provider = elim (Bool-cases (mem provider valid_validation_providers)) [
  | inl valid ↦ rw valid valid
  | inr other ↦ rw other (unfold mem in refl)
]

implementation-mem :
    (provider : String)
    → mem (checked valid_implementation_providers provider) valid_implementation_providers ≡ true
implementation-mem provider = elim (Bool-cases (mem provider valid_implementation_providers)) [
  | inl valid ↦ rw valid valid
  | inr other ↦ rw other (unfold mem in refl)
]

-- The configuration of a file that loads.
abbrev config_in : Result Config → Config
config_in (ok c) = c
config_in (err e) = record { routes = []; implementation_routes = [] }

abbrev config_of : File → Config
config_of file = config_in (load_routing file)

load_routing-config_of :
    (file : File)
    → (load_routing file ≡ ok (config_of file)) ⊎ ((e : Error) × (load_routing file ≡ err e))
load_routing-config_of file = go (load_routing file)
  where
    go : (r : Result Config) → (r ≡ ok (config_in r)) ⊎ ((e : Error) × (r ≡ err e))
    go (ok c) = inl refl
    go (err e) = inr (e, refl)

-- Where a provider is resolved, it is one that may run the agent, whatever the file holds: a
-- validation provider for a validation agent, an implementation provider for an implementation
-- agent, and Claude for any other.
resolve_provider-mem :
    (on_path : Bool) (agent : String) (file : File) (impl : Option String) (main : String)
    (available : Option Bool) (provider : String)
    → resolve_provider on_path agent file impl main available ≡ ok provider
    → (mem provider (
        if mem agent routable_validation_agents
        then valid_validation_providers
        else if mem agent routable_implementation_agents
        then valid_implementation_providers
        else "claude" ∷ []))
      ≡ true
unfolding resolve_provider
resolve_provider-mem on_path agent file impl main available provider e = ground (
  arith,
  mem-append agent routable_validation_agents routable_implementation_agents,
  claude_mem,
  validation-mem (
      routed (lookup agent (config_of file).routes)
        (default_validation_provider on_path agent impl main available)),
  implementation-mem
      (routed (lookup agent (config_of file).implementation_routes) "headless-chain"),
  load_routing-config_of file,
)
