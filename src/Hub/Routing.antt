-- ===== src/Hub/Routing.antt =====
-- sfm_hub/routing.py: which provider a stage is sent to. The entry points that `discovery` finds
-- are a parameter. A selector is split at its first "@", as `str.partition` does.
pub mod Candidates
use Prim.Native.String
use text.Mathlib.Text.{find?, is_lt}
use scene_api.Base.{
  ◌+◌, String, Bool, true, false, not, ◌&&◌, ◌||◌, Option, none, some, List, [], ◌∷◌, ◌++◌, map,
  ◌==◌, ltb, eqb, if◌then◌else◌, is_none, any, all, select, contains, sort_by, Dict, get,
}
use scene_api.Hub.{Manifest, PluginState, Provider, is_qualified, InstalledPlugin, RoutingProfile}

pub record ProviderRecord : Type 0 where
  pub plugin_id : String
  pub installed : Bool
  pub enabled : Bool
  pub runtime_modes : List String
  pub provider : Provider

-- The order of the sort key `(priority_hint, provider_id)`; a hint is taken from 0 up.
abbrev pub at_most : Provider → Provider → Bool
at_most p q =
    ltb p.priority_hint q.priority_hint
    || (eqb p.priority_hint q.priority_hint
        && not (is_lt (String.compare q.provider_id p.provider_id)))

abbrev is_enabled : Option InstalledPlugin → Bool
is_enabled none = true
is_enabled (some p) = p.enabled

module _ (discovered : List String) (st : PluginState) where
  abbrev pub is_installed : Manifest → Bool
  is_installed m = not (is_none (get m.plugin_id st.installed)) || contains m.plugin_id discovered

  abbrev pub row_enabled : Manifest → Bool
  row_enabled m = is_installed m && is_enabled (get m.plugin_id st.installed)

  abbrev rows_of : Manifest → List ProviderRecord
  rows_of m =
      map
        (λ p. record {
          plugin_id = m.plugin_id;
          installed = is_installed m;
          enabled = row_enabled m;
          runtime_modes = m.runtime_modes;
          provider = p;
        })
        m.providers

  abbrev all_rows : (installed_only enabled_only : Bool) → List Manifest → List ProviderRecord
  all_rows installed_only enabled_only [] = []
  all_rows installed_only enabled_only (m ∷ ms) =
      let rest = all_rows installed_only enabled_only ms in
      if installed_only && not (is_installed m)
      then rest
      else if enabled_only && not (row_enabled m)
      then rest
      else rows_of m ++ rest

  unfoldable pub provider_records :
      (installed_only enabled_only : Bool) → List Manifest → List ProviderRecord
  provider_records installed_only enabled_only ms =
      sort_by (λ r x. at_most r.provider x.provider) (all_rows installed_only enabled_only ms)

-- The test of `_candidate_records`; `STAGE_TO_ROUTE_KEY` takes every stage to itself.
unfoldable pub serves : (stage : String) → (capability : Option String) → Provider → Bool
serves stage none p = contains stage p.capabilities || contains stage p.backend_actions
serves stage (some capability) p = contains capability p.capabilities

abbrev pub split_selector : String → String × Option String
split_selector s = elim (find? s "@") [
  | none ↦ (s, none)
  | some i ↦ (String.slice s 0 i, some (String.slice s (i + 1) (String.len s)))
]

abbrev owned_by : Option String → String → Bool
owned_by none plugin_id = true
owned_by (some p) plugin_id = plugin_id == p

unfoldable pub matches_provider : List ProviderRecord → String → List ProviderRecord
matches_provider rows s =
    let (provider_id, plugin_id) = split_selector s in
    select (λ r. r.provider.provider_id == provider_id && owned_by plugin_id r.plugin_id) rows

abbrev pub provider_selector : ProviderRecord → String
provider_selector r = String.◌++◌ r.provider.provider_id (String.◌++◌ "@" r.plugin_id)

-- `provider_enabled`
abbrev any_enabled : List ProviderRecord → Option Bool
any_enabled [] = none
any_enabled (r ∷ rs) = some (any (λ x. x.enabled) (r ∷ rs))

unfoldable pub provider_enabled :
    (discovered : List String) → PluginState → List Manifest → String → Option Bool
provider_enabled discovered st ms s =
    any_enabled (matches_provider (provider_records discovered st true false ms) s)

-- What `resolve_provider` returns, and the errors that it raises.
pub data Resolution : Type 0 where
  resolved : Option String → Resolution
  disabled : Resolution
  not_enabled : Resolution
  ambiguous : (candidates : List String) → Resolution

abbrev pub same_row : ProviderRecord → ProviderRecord → Bool
same_row r x = x.provider.provider_id == r.provider.provider_id && x.plugin_id == r.plugin_id

abbrev pub display_candidates : List ProviderRecord → List String
display_candidates rows = map (λ r. provider_selector r) rows

-- `_single_provider_selector_or_raise`
abbrev pub single_or_raise : List ProviderRecord → (qualified : Bool) → Resolution
single_or_raise [] qualified = ambiguous []
single_or_raise (r ∷ rs) qualified =
    if all (same_row r) rs
    then resolved (some (if qualified then provider_selector r else r.provider.provider_id))
    else ambiguous (display_candidates (r ∷ rs))

abbrev pub single_if_any : List ProviderRecord → Bool → Option Resolution
single_if_any [] qualified = none
single_if_any (r ∷ rs) qualified = some (single_or_raise (r ∷ rs) qualified)

abbrev pub or_else : Option Resolution → Resolution → Resolution
or_else none last = last
or_else (some r) last = r

module _ (candidates : List ProviderRecord) where
  -- The loop over selectors: the first that matches a candidate decides.
  unfoldable pub first_selector : List String → Resolution → Resolution
  first_selector [] last = last
  first_selector (s ∷ ss) last =
      or_else (single_if_any (matches_provider candidates s) (is_qualified s))
        (first_selector ss last)

  abbrev routes_for : (stage : String) → Option RoutingProfile → List String
  routes_for stage none = []
  routes_for stage (some p) = elim (get stage p.routes) [ none ↦ [] | some ids ↦ ids ]

  unfoldable pub first_profile :
      (stage : String) → PluginState → List String → Resolution → Resolution
  first_profile stage st [] last = last
  first_profile stage st (name ∷ names) last =
      first_selector (routes_for stage (get name st.profiles)) (first_profile stage st names last)

-- `if text`, on a text that may be missing
abbrev given : Option String → Option String
given none = none
given (some s) = if s == "" then none else some s

abbrev looked_up : Option String → Dict String → List String
looked_up none d = []
looked_up (some k) d = elim (get k d) [ none ↦ [] | some v ↦ v ∷ [] ]

abbrev as_list : Option String → List String
as_list none = []
as_list (some s) = s ∷ []

-- The profiles that apply: the project's, the workspace's, the default.
abbrev pub profile_names : (project_id workspace : Option String) → PluginState → List String
profile_names project_id workspace st =
    looked_up (given project_id) st.project_profiles
    ++ (looked_up (given workspace) st.workspace_profiles ++ as_list (given st.default_profile))

-- Without candidates: the request goes through, unless the hub knows the provider.
abbrev pub unserved : Option String → List ProviderRecord → Resolution
unserved requested [] = resolved requested
unserved requested (r ∷ rs) = if any (λ x. x.enabled) (r ∷ rs) then not_enabled else disabled

abbrev pub known_matches : Option String → List ProviderRecord → List ProviderRecord
known_matches none rows = []
known_matches (some s) rows = matches_provider rows s

abbrev pub requesting : List ProviderRecord → (qualified : Bool) → Resolution
requesting matches qualified = or_else (single_if_any matches qualified) not_enabled

-- With candidates: the request, or the profiles, the priority list and a choice of one.
abbrev pub choosing :
    Option String → List ProviderRecord → (stage : String) → List String → PluginState → Resolution
choosing (some s) candidates stage profiles st =
    requesting (matches_provider candidates s) (is_qualified s)
choosing none candidates stage profiles st =
    first_profile candidates stage st profiles
      (first_selector candidates st.provider_priority (single_or_raise candidates false))

abbrev pub deciding :
    List ProviderRecord
    → (known : List ProviderRecord) → (requested : Option String) → (stage : String) → List String
    → PluginState
    → Resolution
deciding [] known requested stage profiles st = unserved requested known
deciding (r ∷ rs) known requested stage profiles st =
    choosing (given requested) (r ∷ rs) stage profiles st

-- The rows that may serve a stage, `_candidate_records`.
abbrev pub candidates_of :
    (discovered : List String)
    → PluginState
    → List Manifest
    → (stage : String) → Option String
    → List ProviderRecord
candidates_of discovered st ms stage capability =
    select (λ r. serves stage capability r.provider) (provider_records discovered st true true ms)

unfoldable pub resolve_provider :
    (discovered : List String)
    → PluginState
    → List Manifest
    → (stage : String) → (capability requested project_id workspace : Option String) → Resolution
resolve_provider discovered st ms stage capability requested project_id workspace =
    deciding (candidates_of discovered st ms stage capability)
      (known_matches (given requested) (provider_records discovered st true false ms)) requested
      stage (profile_names project_id workspace st) st
