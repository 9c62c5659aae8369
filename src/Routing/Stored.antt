-- ===== src/Routing/Stored.antt =====
-- What the routing file holds after a route is set.
use dc_ness.Base.{
  String, string_eq, Bool, Option, true, some, List, [], ◌∷◌, mem, mem-append, ◌≡◌, ◌≢◌, inl, inr,
  arith, eq_iff, Bool-cases, All, refl,
}
use dc_ness.Base.Dict.{lookup, put, lookup-put}
use dc_ness.Routing.Providers.{resolve_provider}
use dc_ness.Routing.Config.{
  File, Config, Result, ok, err, Error, load_routing, clean, save_routing, set_provider,
  routable_validation_agents, routable_implementation_agents, valid_validation_providers,
  valid_implementation_providers, Routes,
}

-- Cleaning keeps the table as it is, or raises.
clean_same :
    (agents providers : List String) (routes cleaned : Routes)
    → clean agents providers routes ≡ ok cleaned
    → cleaned ≡ routes
unfolding clean
clean_same agents providers [] cleaned e = cc
clean_same agents providers ((agent, provider) ∷ routes) cleaned e =
    go (clean agents providers routes) refl (clean_same agents providers routes)
  where
    go :
        (r : Result Routes)
        → clean agents providers routes ≡ r
        → ((c : Routes) → clean agents providers routes ≡ ok c → c ≡ routes)
        → cleaned ≡ (agent, provider) ∷ routes
    go (ok rest) h ih = ground (arith, ih rest h)
    go (err x) h ih = ground arith

-- Where a configuration is saved, the file loads as that configuration.
save_routing-load_routing :
    (c : Config) (file : File) → save_routing c ≡ ok file → load_routing file ≡ ok c
unfolding save_routing load_routing
save_routing-load_routing c file e =
    go (clean routable_validation_agents valid_validation_providers c.routes)
      (clean routable_implementation_agents valid_implementation_providers c.implementation_routes)
      refl refl
  where
    go :
        (r s : Result Routes)
        → clean routable_validation_agents valid_validation_providers c.routes ≡ r
        → clean routable_implementation_agents valid_implementation_providers
            c.implementation_routes
          ≡ s
        → load_routing file ≡ ok c
    go (ok routes) (ok impl) h k = ground (
      arith,
      clean_same routable_validation_agents valid_validation_providers c.routes routes h,
      clean_same routable_implementation_agents valid_implementation_providers
          c.implementation_routes impl k,
    )
    go (err x) s h k = ground arith
    go (ok routes) (err x) h k = ground arith

set_provider-save_routing :
    (agent provider : String) (file file' : File) (c : Config)
    → load_routing file ≡ ok c
    → set_provider agent provider file ≡ ok file'
    → (mem agent routable_validation_agents ≡ true)
      × (mem provider valid_validation_providers ≡ true)
      × (save_routing (record c { routes = put agent provider c.routes }) ≡ ok file')
unfolding set_provider
set_provider-save_routing agent provider file file' c loads e =
    elim (Bool-cases (mem agent routable_validation_agents)) [
      | inl known ↦ elim (Bool-cases (mem provider valid_validation_providers)) [
        | inl valid ↦ (known, valid, rw (known, valid, loads, set_provider) at e)
        | inr bad ↦ absurd (err≢ok (rw (known, bad, set_provider) at e))
      ]
      | inr strange ↦ absurd (err≢ok (rw (strange, set_provider) at e))
    ]
  where
    err≢ok : {x : Error} {y : File} → err x ≡ ok y → ⊥
    err≢ok h = cc

resolve-stored :
    (on_path : Bool) (agent provider : String) (file : File) (impl : Option String) (main : String)
    (available : Option Bool) (c : Config)
    → mem agent routable_validation_agents ≡ true
    → mem provider valid_validation_providers ≡ true
    → load_routing file ≡ ok c
    → lookup agent c.routes ≡ some provider
    → resolve_provider on_path agent file impl main available ≡ ok provider
unfolding resolve_provider
resolve-stored on_path agent provider file impl main available c known valid loads found = ground (
  arith,
  mem-append agent routable_validation_agents routable_implementation_agents,
  known,
  valid,
  loads,
  found,
)

-- Where setting a validation route succeeds on a file that loads, the file that it writes loads
-- again; the agent then resolves to that provider, whatever the main provider is and whether the
-- Codex command is there or not, and the stored route of every other agent, and every
-- implementation route, is what it was.
pub set_provider-load_routing :
    (agent other provider : String) (file file' : File) (c : Config) (on_path : Bool)
    (impl : Option String) (main : String) (available : Option Bool)
    → load_routing file ≡ ok c
    → set_provider agent provider file ≡ ok file'
    → other ≢ agent
    → (resolve_provider on_path agent file' impl main available ≡ ok provider)
      × (c' : Config) × (load_routing file' ≡ ok c')
      × (lookup agent c'.routes ≡ some provider)
      × (lookup other c'.routes ≡ lookup other c.routes)
      × (c'.implementation_routes ≡ c.implementation_routes)
set_provider-load_routing agent other provider file file' c on_path impl main available loads e ne =
    let c' = record c { routes = put agent provider c.routes } in
    let (known, valid, saved) = set_provider-save_routing agent provider file file' c loads e in
    let again = save_routing-load_routing c' file' saved in
    let found : lookup agent c'.routes ≡ some provider =
      ground (arith, lookup-put agent agent provider c.routes, eq_iff agent agent) in
    (
      resolve-stored on_path agent provider file' impl main available c' known valid again found,
      c',
      again,
      found,
      ground (arith, lookup-put agent other provider c.routes, eq_iff agent other),
      refl,
    )

-- Every route of a saved file is one that the program supports.
abbrev pub AllSupported : (agents providers : List String) → Routes → Type 0
AllSupported agents providers = All (λ r. (mem r.0 agents ≡ true) × (mem r.1 providers ≡ true))

clean-AllSupported :
    (agents providers : List String) (routes cleaned : Routes)
    → clean agents providers routes ≡ ok cleaned
    → AllSupported agents providers routes
unfolding clean
clean-AllSupported agents providers [] cleaned e = tt
clean-AllSupported agents providers ((agent, provider) ∷ routes) cleaned e =
    go (clean agents providers routes) refl (clean-AllSupported agents providers routes)
  where
    go :
        (r : Result Routes)
        → clean agents providers routes ≡ r
        → ((c : Routes)
            → clean agents providers routes ≡ ok c
            → AllSupported agents providers routes)
        → AllSupported agents providers ((agent, provider) ∷ routes)
    go (ok rest) h ih = ground (arith, ih rest h)
    go (err x) h ih = ground arith

-- Where a configuration is saved, the file loads as that configuration, and each of its routes
-- names an agent of its table and a provider that may run it; so a file with an unsupported route
-- is never written.
save_routing-AllSupported :
    (c : Config) (file : File)
    → save_routing c ≡ ok file
    → (load_routing file ≡ ok c)
      × AllSupported routable_validation_agents valid_validation_providers c.routes
      × AllSupported routable_implementation_agents valid_implementation_providers
          c.implementation_routes
unfolding save_routing
save_routing-AllSupported c file e =
    go (clean routable_validation_agents valid_validation_providers c.routes)
      (clean routable_implementation_agents valid_implementation_providers c.implementation_routes)
      refl refl
  where
    go :
        (r s : Result Routes)
        → clean routable_validation_agents valid_validation_providers c.routes ≡ r
        → clean routable_implementation_agents valid_implementation_providers
            c.implementation_routes
          ≡ s
        → (load_routing file ≡ ok c)
          × AllSupported routable_validation_agents valid_validation_providers c.routes
          × AllSupported routable_implementation_agents valid_implementation_providers
              c.implementation_routes
    go (ok routes) (ok impl) h k = (
      save_routing-load_routing c file e,
      clean-AllSupported _ _ c.routes routes h,
      clean-AllSupported _ _ c.implementation_routes impl k,
    )
    go (err x) s h k = ground arith
    go (ok routes) (err x) h k = ground arith
