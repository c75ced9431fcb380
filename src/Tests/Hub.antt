-- ===== src/Tests/Hub.antt =====
-- A hub with two plugins of which one is enabled, and a profile that routes a stage.

use mathlib.Core.List.{cons≢nil}
use scene_api.Base.{String, ◌≡◌, refl, ◌≢◌, Bool, true, false, none, some, List, [], ◌∷◌}
use scene_api.Hub.{
  Manifest, same_install, record_installed, known_provider_ids, is_ambiguous_bare, is_accepted,
  upsert_profile, set_default_profile, Provider, ProvisioningStatus, InstalledPlugin,
  RoutingProfile, PluginState,
}
use scene_api.Hub.Routing.{
  resolved, serves, matches_provider, first_profile, resolve_provider, candidates_of,
  ProviderRecord, provider_records, first_selector,
}
use scene_api.Hub.Coherent.{
  mutate_state-IsCoherent, Change, mutate_state, IsCoherent, empty_state, apply,
}
use scene_api.Hub.Routing.Candidates.{Names, IsOffered, resolve_provider-candidate}

abbrev provider : String → Provider
provider id = record {
  provider_id = id;
  capabilities = "mapping" ∷ [];
  backend_actions = [];
  priority_hint = 100;
}

abbrev manifests : List Manifest
manifests =
    record { plugin_id = "a"; runtime_modes = []; providers = provider "colmap" ∷ [] }
    ∷ record { plugin_id = "b"; runtime_modes = []; providers = provider "glomap" ∷ [] }
    ∷ []

abbrev plugin : (plugin_id : String) → Bool → InstalledPlugin
plugin plugin_id enabled = record {
  plugin_id = plugin_id;
  method = "uv";
  source_url = "";
  ref = "main";
  resolved_commit = none;
  installed_at = "";
  enabled = enabled;
  provision_runtime = false;
  provisioned = false;
  provisioning_status = ProvisioningStatus.not_requested;
  provisioning_error = none;
  request_id = none;
}

abbrev fast : RoutingProfile
fast = record { name = "fast"; routes = ("mapping", "colmap@a" ∷ []) ∷ [] }

abbrev changes : List Change
changes =
    Change.installing (plugin "a" true)
    ∷ Change.installing (plugin "b" false)
    ∷ Change.default "fast"
    ∷ Change.profile fast
    ∷ Change.default "fast"
    ∷ []

mutate_state-IsCoherent_example : IsCoherent manifests (mutate_state manifests changes empty_state)
mutate_state-IsCoherent_example = mutate_state-IsCoherent manifests changes

abbrev state : PluginState
state = record {
  installed = ("a", plugin "a" true) ∷ ("b", plugin "b" false) ∷ [];
  provider_priority = [];
  profiles = ("fast", fast) ∷ [];
  default_profile = some "fast";
  project_profiles = [];
  workspace_profiles = [];
}

program : Unit {0}
unfolding resolve_provider provider_records serves matches_provider first_selector first_profile
    mutate_state apply record_installed same_install upsert_profile set_default_profile is_accepted
    known_provider_ids is_ambiguous_bare
program = tt

-- The first change of the default is refused, since the profile is not there yet.
changed : (mutate_state manifests changes empty_state).default_profile ≡ some "fast"
unfolding program
changed = refl

there : candidates_of [] state manifests "mapping" none ≢ []
unfolding program
there = cons≢nil

routed :
    resolve_provider [] state manifests "mapping" none none none none ≡ resolved (some "colmap@a")
unfolding program
routed = refl

resolve_provider-candidate_example :
    (r : ProviderRecord) × Names "colmap@a" r
    × IsOffered [] state manifests r
    × (serves "mapping" none r.provider ≡ true)
resolve_provider-candidate_example =
    resolve_provider-candidate [] state manifests "mapping" none none none none "colmap@a" there
      routed
