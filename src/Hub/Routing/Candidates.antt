-- ===== src/Hub/Routing/Candidates.antt =====
-- What `resolve_provider` may return: a provider that can serve the stage, and no other.
use mathlib.Core.List.{Memᴰ}
use scene_api.Base.{
  String, ◌≡◌, refl, ◌≢◌, ◌⊎◌, inl, inr, Bool, true, false, not, Option, none, some, List, [], ◌∷◌,
  ◌++◌, map, arith, if◌then◌else◌, Bool-cases, all, select, All, All-map, All-Memᴰ, Memᴰ-select,
  All-append, All-sort_by, get,
}
use scene_api.Hub.{Manifest, PluginState, Provider, is_qualified}
use scene_api.Hub.Routing.{
  ProviderRecord, is_installed, row_enabled, all_rows, provider_selector, resolved, single_or_raise,
  single_if_any, or_else, Resolution, provider_records, serves, matches_provider, same_row,
  first_selector, routes_for, first_profile, resolve_provider, given, requesting, choosing,
  deciding, candidates_of,
}

-- The record of a provider that one of the manifests declares, marked as that plugin is.
abbrev pub IsOffered :
    (discovered : List String) → PluginState → List Manifest → ProviderRecord → Type 0
IsOffered discovered st ms r =
    (m : Manifest) × Memᴰ m ms
    × Memᴰ r.provider m.providers
    × (r.plugin_id ≡ m.plugin_id)
    × (is_installed discovered st m ≡ true)
    × (row_enabled discovered st m ≡ true)

module _ (discovered : List String) (st : PluginState) where
  rows_of-IsOffered :
      (m : Manifest) (ms : List Manifest) (ps : List Provider)
      → ((p : Provider) → Memᴰ p ps → Memᴰ p m.providers)
      → row_enabled discovered st m ≡ true
      → All (IsOffered discovered st (m ∷ ms)) (
          map
            (λ p. record {
              plugin_id = m.plugin_id;
              installed = is_installed discovered st m;
              enabled = row_enabled discovered st m;
              runtime_modes = m.runtime_modes;
              provider = p;
            })
            ps)
  rows_of-IsOffered m ms [] within h = tt
  rows_of-IsOffered m ms (p ∷ ps) within h = (
    (m, Memᴰ.head refl, within p (Memᴰ.head refl), refl, ground arith, h),
    rows_of-IsOffered m ms ps (λ q there. within q (Memᴰ.tail there)) h,
  )

  kept-All :
      (P : ProviderRecord → Type 0) (installed enabled : Bool) (rows rest : List ProviderRecord)
      → (enabled ≡ true → All P rows)
      → All P rest
      → All P (if not installed then rest else if not enabled then rest else rows ++ rest)
  kept-All P false enabled rows rest a b = b
  kept-All P true false rows rest a b = b
  kept-All P true true rows rest a b = All-append P rows rest (a refl) b

  IsOffered-later :
      (m : Manifest) (ms : List Manifest) (r : ProviderRecord)
      → IsOffered discovered st ms r
      → IsOffered discovered st (m ∷ ms) r
  IsOffered-later m ms r (n, there, rest, same, i, e) = (n, Memᴰ.tail there, rest, same, i, e)

  all_rows-IsOffered :
      (ms : List Manifest) → All (IsOffered discovered st ms) (all_rows discovered st true true ms)
  all_rows-IsOffered [] = tt
  all_rows-IsOffered (m ∷ ms) =
      kept-All (IsOffered discovered st (m ∷ ms)) (is_installed discovered st m)
        (row_enabled discovered st m) _ _
        (λ on. rows_of-IsOffered m ms m.providers (λ p there. there) on)
        (All-map _ _ _ (IsOffered-later m ms) (all_rows-IsOffered ms))

-- The text names the row, by its provider or with the plugin.
abbrev pub Names : String → ProviderRecord → Type 0
Names s r = (s ≡ r.provider.provider_id) ⊎ (s ≡ provider_selector r)

abbrev Named : String → List ProviderRecord → Type 0
Named s rows = (r : ProviderRecord) × Memᴰ r rows × Names s r

module _ (s : String) where
  single-Named :
      (rows : List ProviderRecord) (qualified : Bool)
      → single_or_raise rows qualified ≡ resolved (some s)
      → Named s rows
  single-Named [] qualified e = cc
  single-Named (r ∷ rs) true e = elim (Bool-cases (all (same_row r) rs)) [
    | inl same ↦ (r, Memᴰ.head refl, inr (ground (arith, rw same at e)))
    | inr differ ↦ absurd (ground (arith, rw differ at e))
  ]
  single-Named (r ∷ rs) false e = elim (Bool-cases (all (same_row r) rs)) [
    | inl same ↦ (r, Memᴰ.head refl, inl (ground (arith, rw same at e)))
    | inr differ ↦ absurd (ground (arith, rw differ at e))
  ]

  Named-select :
      (p : ProviderRecord → Bool) (rows : List ProviderRecord)
      → Named s (select p rows)
      → Named s rows
  Named-select p rows (r, m, name) = (r, (Memᴰ-select p rows r m).0, name)

  if_any-Named :
      (rows : List ProviderRecord) (qualified : Bool) (last : Resolution)
      → or_else (single_if_any rows qualified) last ≡ resolved (some s)
      → Named s rows ⊎ (last ≡ resolved (some s))
  if_any-Named [] qualified last e = inr e
  if_any-Named (r ∷ rs) qualified last e = inl (single-Named (r ∷ rs) qualified e)

  first_selector-Named :
      (rows : List ProviderRecord) (ss : List String) (last : Resolution)
      → first_selector rows ss last ≡ resolved (some s)
      → Named s rows ⊎ (last ≡ resolved (some s))
  unfolding first_selector matches_provider
  first_selector-Named rows [] last e = inr e
  first_selector-Named rows (x ∷ xs) last e =
      elim (if_any-Named (matches_provider rows x) (is_qualified x) (first_selector rows xs last)
        e) [
          | inl named ↦ inl (Named-select _ rows named)
          | inr later ↦ first_selector-Named rows xs last later
        ]

  first_profile-Named :
      (rows : List ProviderRecord) (stage : String) (st : PluginState) (names : List String)
      (last : Resolution)
      → first_profile rows stage st names last ≡ resolved (some s)
      → Named s rows ⊎ (last ≡ resolved (some s))
  unfolding first_profile
  first_profile-Named rows stage st [] last e = inr e
  first_profile-Named rows stage st (name ∷ names) last e =
      elim (first_selector-Named rows (routes_for rows stage (get name st.profiles))
        (first_profile rows stage st names last) e) [
          | inl named ↦ inl named
          | inr later ↦ first_profile-Named rows stage st names last later
        ]

  requesting-Named :
      (rows : List ProviderRecord) (qualified : Bool)
      → requesting rows qualified ≡ resolved (some s)
      → Named s rows
  requesting-Named [] qualified e = cc
  requesting-Named (r ∷ rs) qualified e = single-Named (r ∷ rs) qualified e

  choosing-Named :
      (o : Option String) (rows : List ProviderRecord) (stage : String) (names : List String)
      (st : PluginState)
      → choosing o rows stage names st ≡ resolved (some s)
      → Named s rows
  unfolding matches_provider
  choosing-Named (some x) rows stage names st e =
      Named-select _ rows (requesting-Named (matches_provider rows x) (is_qualified x) e)
  choosing-Named none rows stage names st e = elim (first_profile-Named rows stage st names _ e) [
    | inl named ↦ named
    | inr later ↦ elim (first_selector-Named rows st.provider_priority _ later) [
      | inl named ↦ named
      | inr last ↦ single-Named rows false last
    ]
  ]

  deciding-Named :
      (rows known : List ProviderRecord) (requested : Option String) (stage : String)
      (names : List String) (st : PluginState)
      → rows ≢ []
      → deciding rows known requested stage names st ≡ resolved (some s)
      → Named s rows
  deciding-Named [] known requested stage names st some_rows e = absurd (some_rows refl)
  deciding-Named (r ∷ rs) known requested stage names st some_rows e =
      choosing-Named (given requested) (r ∷ rs) stage names st e

-- Once an installed and enabled provider can serve the stage, every resolution that returns a
-- provider, by request, profile, priority or lack of choice, names one that a manifest of the hub
-- declares, whose plugin is installed and enabled, and that can serve the stage.
pub resolve_provider-candidate :
    (discovered : List String) (st : PluginState) (ms : List Manifest) (stage : String)
    (capability requested project_id workspace : Option String) (s : String)
    → candidates_of discovered st ms stage capability ≢ []
    → resolve_provider discovered st ms stage capability requested project_id workspace
      ≡ resolved (some s)
    → (r : ProviderRecord) × Names s r
      × IsOffered discovered st ms r
      × (serves stage capability r.provider ≡ true)
unfolding resolve_provider provider_records
resolve_provider-candidate discovered st ms stage capability requested project_id workspace s
      some_rows e =
    let (r, m, name) =
      deciding-Named s (candidates_of discovered st ms stage capability) _ requested stage _ st
        some_rows e in
    let (among, served) = Memᴰ-select _ (provider_records discovered st true true ms) r m in
    let offered =
      All-Memᴰ (IsOffered discovered st ms) _ r
        (All-sort_by _ (IsOffered discovered st ms) _ (all_rows-IsOffered discovered st ms))
        among in
    (r, name, offered, served)
