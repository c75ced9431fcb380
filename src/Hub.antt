-- ===== src/Hub.antt =====
-- sfm_hub/state.py: installed plugins, routing profiles and the references between them. A change
-- that raises is `none`, and the file keeps the old state.
pub mod Coherent
pub mod Routing
use Prim.Native.String
use text.Mathlib.Text.{find?}
use scene_api.Base.{
  ℕ, String, Bool, true, false, not, ◌&&◌, Option, none, some, List, [], ◌∷◌, ◌++◌, map, ◌==◌, ltb,
  eqb, if◌then◌else◌, is_none, length, all, select, distinct, contains, Dict, get, put,
}

pub record Provider : Type 0 where
  pub provider_id : String
  pub capabilities : List String
  pub backend_actions : List String
  pub priority_hint : ℕ

pub record Manifest : Type 0 where
  pub plugin_id : String
  pub runtime_modes : List String
  pub providers : List Provider

pub data ProvisioningStatus : Type 0 where
  not_requested planned running succeeded skipped failed : ProvisioningStatus

pub record InstalledPlugin : Type 0 where
  pub plugin_id : String
  pub method : String
  pub source_url : String
  pub ref : String
  pub resolved_commit : Option String
  pub installed_at : String
  pub enabled : Bool
  pub provision_runtime : Bool
  pub provisioned : Bool
  pub provisioning_status : ProvisioningStatus
  pub provisioning_error : Option String
  pub request_id : Option String

pub record RoutingProfile : Type 0 where
  pub name : String
  pub routes : Dict (List String)

pub record PluginState : Type 0 where
  pub installed : Dict InstalledPlugin
  pub provider_priority : List String
  pub profiles : Dict RoutingProfile
  pub default_profile : Option String
  pub project_profiles : Dict String
  pub workspace_profiles : Dict String

abbrev status_code : ProvisioningStatus → ℕ
status_code ProvisioningStatus.not_requested = 0
status_code ProvisioningStatus.planned = 1
status_code ProvisioningStatus.running = 2
status_code ProvisioningStatus.succeeded = 3
status_code ProvisioningStatus.skipped = 4
status_code ProvisioningStatus.failed = 5

abbrev same_text : Option String → Option String → Bool
same_text none none = true
same_text (some a) (some b) = a == b
same_text none (some b) = false
same_text (some a) none = false

abbrev same_bool : Bool → Bool → Bool
same_bool true b = b
same_bool false b = not b

-- `same` of `_record_installed`: all but the time of the install.
unfoldable pub same_install : InstalledPlugin → InstalledPlugin → Bool
same_install old new =
    old.method == new.method
    && (old.source_url == new.source_url
        && (old.ref == new.ref
            && (same_text old.resolved_commit new.resolved_commit
                && (same_bool old.enabled new.enabled
                    && (same_bool old.provision_runtime new.provision_runtime
                        && (same_bool old.provisioned new.provisioned
                            && (eqb (status_code old.provisioning_status)
                                  (status_code new.provisioning_status)
                                && (same_text old.provisioning_error new.provisioning_error
                                    && same_text old.request_id new.request_id))))))))

abbrev is_recorded : Option InstalledPlugin → InstalledPlugin → Bool
is_recorded none new = false
is_recorded (some old) new = same_install old new

-- `_record_installed`, which both `record_install` and `record_manual_install` end in.
unfoldable pub record_installed : InstalledPlugin → PluginState → PluginState
record_installed p st =
    if is_recorded (get p.plugin_id st.installed) p
    then st
    else record st { installed = put p.plugin_id p st.installed }

abbrev enabling :
    Option InstalledPlugin → (plugin_id : String) → Bool → PluginState → Option PluginState
enabling none plugin_id enabled st = none
enabling (some p) plugin_id enabled st =
    some (record st { installed = put plugin_id (record p { enabled = enabled }) st.installed })

unfoldable pub set_enabled : (plugin_id : String) → Bool → PluginState → Option PluginState
set_enabled plugin_id enabled st = enabling (get plugin_id st.installed) plugin_id enabled st

abbrev pub provider_ids : Manifest → List String
provider_ids m = map (λ p. p.provider_id) m.providers

-- The ids that one manifest makes known: bare, and qualified by the plugin.
abbrev pub selectors_of : String → List String → List String
selectors_of plugin_id [] = []
selectors_of plugin_id (p ∷ ps) =
    p ∷ String.◌++◌ p (String.◌++◌ "@" plugin_id) ∷ selectors_of plugin_id ps

unfoldable pub known_provider_ids : List Manifest → List String
known_provider_ids [] = []
known_provider_ids (m ∷ ms) = selectors_of m.plugin_id (provider_ids m) ++ known_provider_ids ms

-- `plugins_by_provider[provider_id]`
abbrev pub plugins_of : String → List Manifest → List String
plugins_of provider_id ms =
    distinct (map (λ m. m.plugin_id) (select (λ m. contains provider_id (provider_ids m)) ms))

-- In `ambiguous_bare`, for an id that is known.
unfoldable pub is_ambiguous_bare : List Manifest → String → Bool
is_ambiguous_bare ms provider_id = ltb 1 (length (plugins_of provider_id ms))

-- `"@" in selector`
abbrev pub is_qualified : String → Bool
is_qualified selector = not (is_none (find? selector "@"))

-- What a profile or a priority list may name.
unfoldable pub is_accepted : List Manifest → String → Bool
is_accepted ms pid =
    contains pid (known_provider_ids ms) && not (not (is_qualified pid) && is_ambiguous_bare ms pid)

abbrev pub referenced : Dict (List String) → List String
referenced [] = []
referenced ((stage, ids) ∷ routes) = ids ++ referenced routes

unfoldable pub upsert_profile : List Manifest → RoutingProfile → PluginState → Option PluginState
upsert_profile ms profile st =
    if all (is_accepted ms) (referenced profile.routes)
    then some (record st { profiles = put profile.name profile st.profiles })
    else none

unfoldable pub set_provider_priority :
    List Manifest → List String → PluginState → Option PluginState
set_provider_priority ms providers st =
    if all (is_accepted ms) providers
    then some (record st { provider_priority = providers })
    else none

-- The two tests on a profile's name.
abbrev pub is_profile : String → PluginState → Bool
is_profile name st = not (name == "") && not (is_none (get name st.profiles))

unfoldable pub set_default_profile : String → PluginState → Option PluginState
set_default_profile name st =
    if is_profile name st then some (record st { default_profile = some name }) else none

unfoldable pub set_project_profile : (project_id name : String) → PluginState → Option PluginState
set_project_profile project_id name st =
    if is_profile name st
    then some (record st { project_profiles = put project_id name st.project_profiles })
    else none

unfoldable pub set_workspace_profile : (workspace name : String) → PluginState → Option PluginState
set_workspace_profile workspace name st =
    if is_profile name st
    then some (record st { workspace_profiles = put workspace name st.workspace_profiles })
    else none
