-- ===== src/Hub/Coherent.antt =====
-- Every reference in the hub's state leads somewhere: what each change keeps.
use mathlib.Core.Option.{some-injective, none-ne-some}
use scene_api.Base.{
  String, ◌≡◌, refl, subst, inl, inr, Bool, true, false, Option, none, some, List, [], ◌∷◌, arith,
  if◌then◌else◌, Bool-cases, Option-cases, all, Dict, get, put,
}
use scene_api.Hub.{
  Manifest, PluginState, record_installed, set_enabled, is_accepted, referenced, upsert_profile,
  set_provider_priority, is_profile, set_default_profile, set_project_profile,
  set_workspace_profile, InstalledPlugin, RoutingProfile, is_recorded,
}

-- The changes that the module offers.
pub data Change : Type 0 where
  installing : InstalledPlugin → Change
  enabling : (plugin_id : String) → Bool → Change
  profile : RoutingProfile → Change
  priority : List String → Change
  default : String → Change
  project : (project_id name : String) → Change
  workspace : (workspace name : String) → Change

unfoldable pub apply : List Manifest → Change → PluginState → Option PluginState
apply ms (Change.installing p) st = some (record_installed p st)
apply ms (Change.enabling plugin_id enabled) st = set_enabled plugin_id enabled st
apply ms (Change.profile p) st = upsert_profile ms p st
apply ms (Change.priority ids) st = set_provider_priority ms ids st
apply ms (Change.default name) st = set_default_profile name st
apply ms (Change.project project_id name) st = set_project_profile project_id name st
apply ms (Change.workspace at name) st = set_workspace_profile at name st

-- `_mutate_state`: a change that raises is not saved.
abbrev unless_refused : Option PluginState → PluginState → PluginState
unless_refused none st = st
unless_refused (some st') st = st'

unfoldable pub mutate_state : List Manifest → List Change → PluginState → PluginState
mutate_state ms [] st = st
mutate_state ms (c ∷ cs) st = mutate_state ms cs (unless_refused (apply ms c st) st)

-- `PluginState ()`
abbrev pub empty_state : PluginState
empty_state = record {
  installed = [];
  provider_priority = [];
  profiles = [];
  default_profile = none;
  project_profiles = [];
  workspace_profiles = [];
}

abbrev names_profile : PluginState → Option String → Bool
names_profile st none = true
names_profile st (some name) = is_profile name st

-- Each name of a profile, in the default and in both maps, is that of a profile there is; each
-- profile and the priority list name accepted providers only.
pub record IsCoherent (ms : List Manifest) (st : PluginState) : Type 0 where
  pub default_there : names_profile st st.default_profile ≡ true
  pub projects_there : all (λ e. is_profile e.1 st) st.project_profiles ≡ true
  pub workspaces_there : all (λ e. is_profile e.1 st) st.workspace_profiles ≡ true
  pub routes_known : all (λ e. all (is_accepted ms) (referenced e.1.routes)) st.profiles ≡ true
  pub priority_known : all (is_accepted ms) st.provider_priority ≡ true

is_profile-put :
    (name : String) (p : RoutingProfile) (st : PluginState)
    → is_profile name st ≡ true
    → is_profile name (record st { profiles = put p.name p st.profiles }) ≡ true
is_profile-put name p st h = ground arith

all_profiles-put :
    (p : RoutingProfile) (st : PluginState) (d : Dict String)
    → all (λ e. is_profile e.1 st) d ≡ true
    → all (λ e. is_profile e.1 (record st { profiles = put p.name p st.profiles })) d ≡ true
all_profiles-put p st [] h = refl
all_profiles-put p st ((k, v) ∷ d) h =
    ground (arith, is_profile-put v p st, all_profiles-put p st d)

names_profile-put :
    (p : RoutingProfile) (st : PluginState) (o : Option String)
    → names_profile st o ≡ true
    → names_profile (record st { profiles = put p.name p st.profiles }) o ≡ true
names_profile-put p st none h = refl
names_profile-put p st (some name) h = is_profile-put name p st h

module _ (ms : List Manifest) (st : PluginState) (fine : IsCoherent ms st) where
  open fine use {default_there, projects_there, workspaces_there, routes_known, priority_known}

  if_some :
      (b : Bool) (st' new : PluginState)
      → (b ≡ true → IsCoherent ms new)
      → (if b then some new else none) ≡ some st'
      → IsCoherent ms st'
  if_some true st' new keeps e = subst (IsCoherent ms) (some-injective new st' e) (keeps refl)
  if_some false st' new keeps e = absurd (none-ne-some st' e)

  installed-IsCoherent : (d : Dict InstalledPlugin) → IsCoherent ms (record st { installed = d })
  installed-IsCoherent d = record {
    default_there = default_there;
    projects_there = projects_there;
    workspaces_there = workspaces_there;
    routes_known = routes_known;
    priority_known = priority_known;
  }

  apply-IsCoherent : (c : Change) (st' : PluginState) → apply ms c st ≡ some st' → IsCoherent ms st'
  unfolding apply record_installed set_enabled upsert_profile set_provider_priority
      set_default_profile set_project_profile set_workspace_profile
  apply-IsCoherent (Change.installing p) st' e =
      subst (IsCoherent ms) (some-injective (record_installed p st) st' e)
        (elim (Bool-cases (is_recorded (get p.plugin_id st.installed) p)) [
          | inl same ↦ rw same fine
          | inr new ↦ rw new (installed-IsCoherent _)
        ])
  apply-IsCoherent (Change.enabling plugin_id enabled) st' e =
      elim (Option-cases (get plugin_id st.installed)) [
        | inl missing ↦ absurd (none-ne-some st' (rw missing at e))
        | inr (p, found) ↦
            subst (IsCoherent ms) (some-injective _ st' (rw found at e)) (installed-IsCoherent _)
      ]
  apply-IsCoherent (Change.profile p) st' e =
      if_some (all (is_accepted ms) (referenced p.routes)) st'
        (record st { profiles = put p.name p st.profiles })
        (λ h. record {
          default_there = names_profile-put p st st.default_profile default_there;
          projects_there = all_profiles-put p st st.project_profiles projects_there;
          workspaces_there = all_profiles-put p st st.workspace_profiles workspaces_there;
          routes_known = rw (h, routes_known);
          priority_known = priority_known;
        })
        e
  apply-IsCoherent (Change.priority ids) st' e =
      if_some (all (is_accepted ms) ids) st' (record st { provider_priority = ids })
        (λ h. record {
          default_there = default_there;
          projects_there = projects_there;
          workspaces_there = workspaces_there;
          routes_known = routes_known;
          priority_known = h;
        })
        e
  apply-IsCoherent (Change.default name) st' e =
      if_some (is_profile name st) st' (record st { default_profile = some name })
        (λ h. record {
          default_there = h;
          projects_there = projects_there;
          workspaces_there = workspaces_there;
          routes_known = routes_known;
          priority_known = priority_known;
        })
        e
  apply-IsCoherent (Change.project project_id name) st' e =
      if_some (is_profile name st) st'
        (record st { project_profiles = put project_id name st.project_profiles })
        (λ h. record {
          default_there = default_there;
          projects_there = rw (h, projects_there);
          workspaces_there = workspaces_there;
          routes_known = routes_known;
          priority_known = priority_known;
        })
        e
  apply-IsCoherent (Change.workspace at name) st' e =
      if_some (is_profile name st) st'
        (record st { workspace_profiles = put at name st.workspace_profiles })
        (λ h. record {
          default_there = default_there;
          projects_there = projects_there;
          workspaces_there = rw (h, workspaces_there);
          routes_known = routes_known;
          priority_known = priority_known;
        })
        e

mutate-IsCoherent :
    (ms : List Manifest) (cs : List Change) (st : PluginState)
    → IsCoherent ms st
    → IsCoherent ms (mutate_state ms cs st)
unfolding mutate_state
mutate-IsCoherent ms [] st fine = fine
mutate-IsCoherent ms (c ∷ cs) st fine = elim (Option-cases (apply ms c st)) [
  | inl refused ↦ rw refused (mutate-IsCoherent ms cs st fine)
  | inr (st', e) ↦ rw e (mutate-IsCoherent ms cs st' (apply-IsCoherent ms st fine c st' e))
]

-- From an empty state file, whatever changes are asked for and whichever are refused: the default
-- profile and those of projects and workspaces exist, and every provider that a profile or the
-- priority list names is declared by a manifest and not ambiguous.
pub mutate_state-IsCoherent :
    (ms : List Manifest) (cs : List Change) → IsCoherent ms (mutate_state ms cs empty_state)
mutate_state-IsCoherent ms cs = mutate-IsCoherent ms cs empty_state (record {
  default_there = refl;
  projects_there = refl;
  workspaces_there = refl;
  routes_known = refl;
  priority_known = refl;
})
