-- ===== src/Routing/Config.antt =====
-- harness/agent_routing.py, the routing file: loading it, checking it, and saving it.
use dc_ness.Base.{
  ℕ, String, string_eq, Bool, false, not, Option, none, some, List, [], ◌∷◌, if◌then◌else◌, nat_beq,
  mem,
}
use dc_ness.Base.Dict.{Dict, put}

abbrev pub config_version : ℕ
config_version = 3

abbrev pub routable_validation_agents : List String
routable_validation_agents = "impl-validator" ∷ "architecture-validator" ∷ []

abbrev pub routable_implementation_agents : List String
routable_implementation_agents = "build-worker" ∷ []

abbrev pub valid_validation_providers : List String
valid_validation_providers = "claude" ∷ "codex" ∷ []

abbrev pub valid_implementation_providers : List String
valid_implementation_providers = "claude" ∷ "claude-headless" ∷ "headless-chain" ∷ []

abbrev pub Routes : Type 0
Routes = Dict String String

-- A member of the JSON object that should be an object of texts.
pub data Field : Type 0 where
  absent not_object : Field
  object : Routes → Field

-- The JSON object of the file: `version` is `none` where it is absent or no natural number.
pub record Payload : Type 0 where
  pub version : Option ℕ
  pub routes : Field
  pub implementation_routes : Field

pub data File : Type 0 where
  missing unreadable no_object : File
  holds : Payload → File

pub record Config : Type 0 where
  pub routes : Routes
  pub implementation_routes : Routes

-- What a ValueError says.
pub data Error : Type 0 where
  parse_failed not_json_object unsupported_version routes_not_object : Error
  implementation_routes_not_object unsupported_agent unsupported_provider : Error

pub data Result {ℓ} (A : Type ℓ) : Type ℓ where
  ok : A → Result A
  err : Error → Result A

infixl 5 ◌>>=◌
abbrev pub ◌>>=◌ {ℓ κ} : {A : Type ℓ} {B : Type κ} → Result A → (A → Result B) → Result B
ok a >>= f = f a
err e >>= f = err e

-- `data.get(name, {})`, checked to be an object.
abbrev pub as_routes : Error → Field → Result Routes
as_routes e absent = ok []
as_routes e not_object = err e
as_routes e (object r) = ok r

abbrev pub is_current : Option ℕ → Bool
is_current none = false
is_current (some v) = nat_beq v config_version

abbrev pub load_payload : Payload → Result Config
load_payload p = if not (is_current p.version) then err unsupported_version else do
  routes ← as_routes routes_not_object p.routes
  implementation_routes ← as_routes implementation_routes_not_object p.implementation_routes
  ok (record { routes = routes; implementation_routes = implementation_routes })

unfoldable pub load_routing : File → Result Config
load_routing missing = ok (record { routes = []; implementation_routes = [] })
load_routing unreadable = err parse_failed
load_routing no_object = err not_json_object
load_routing (holds p) = load_payload p

-- The loop of save_routing over one of the two tables.
unfoldable pub clean : (agents providers : List String) → Routes → Result Routes
clean agents providers [] = ok []
clean agents providers ((agent, provider) ∷ routes) =
    let rest = clean agents providers routes in
    if not (mem agent agents)
    then err unsupported_agent
    else if not (mem provider providers)
    then err unsupported_provider
    else (rest >>= λ cleaned. ok ((agent, provider) ∷ cleaned))

-- The file that save_routing writes.
unfoldable pub save_routing : Config → Result File
save_routing c = do
  routes ← clean routable_validation_agents valid_validation_providers c.routes
  implementation_routes ←
      clean routable_implementation_agents valid_implementation_providers c.implementation_routes
  ok (
      holds (record {
        version = some config_version;
        routes = object routes;
        implementation_routes = object implementation_routes;
      }))

unfoldable pub set_provider : (agent provider : String) → File → Result File
set_provider agent provider file =
    if not (mem agent routable_validation_agents)
    then err unsupported_agent
    else if not (mem provider valid_validation_providers)
    then err unsupported_provider
    else do
      cfg ← load_routing file
      save_routing (record cfg { routes = put agent provider cfg.routes })

unfoldable pub set_implementation_provider : (agent provider : String) → File → Result File
set_implementation_provider agent provider file =
    if not (mem agent routable_implementation_agents)
    then err unsupported_agent
    else if not (mem provider valid_implementation_providers)
    then err unsupported_provider
    else do
      cfg ← load_routing file
      save_routing
          (record cfg { implementation_routes = put agent provider cfg.implementation_routes })
