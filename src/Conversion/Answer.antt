-- ===== src/Conversion/Answer.antt =====
-- `_find_conversion_path` (sceneapi/server/services/artifact_conversion_service.py): the search ends,
-- and what it returns is a shortest chain to a target, or there is none.
use mathlib.Core.List.Memᴰ
use mathlib.Core.List.{Memᴰ}
use mathlib.Core.Bool.{false≢true}
use scene_api.Base.{
  ℕ, zero, suc, ◌+◌, ◌≤◌, String, ◌≡◌, refl, sym, ap, ◌∙◌, subst, inl, inr, true, Option, none,
  some, List, [], ◌∷◌, arith, ◌==◌, eq_iff, length, contains, All-Memᴰ, Memᴰ-select-of,
}
use scene_api.Conversion.{Steps, Found, Round, reached, going, scan, search, edges_of, after_round}
use scene_api.Conversion.Scan.{Followed, Depth, Queue, Kept}
use scene_api.Conversion.Search.{rounds_left, RoundEnds, scan-RoundEnds, edges_of-Next}
use scene_api.Conversion.Chains.{Walk, Answers}
use scene_api.JobService.Cache.{hit}

module _ (targets : List String) (edges : Steps) (source : String) where
  Followed-next :
      (depths : List Depth) (queue : Queue) (d : ℕ) (current : String) (path : Steps) (v : Depth)
      → Followed targets edges source depths ((current, path) ∷ queue) d [] v
      → Followed targets edges source depths queue (length path) (edges_of current edges) v
  Followed-next depths queue d current path v (inl (p, m, low)) = elim (Memᴰ.cases_cons m) [
    | inl e ↦ inr (λ s there from. inl (
      Memᴰ-select-of (λ z. z.from_format == current) s edges there
          ((eq_iff s.from_format current).1 (from ∙ ap (λ z. z.0) e)),
      omega (arith, low, ap (λ z. length z.1) e),
    ))
    | inr later ↦ inl (p, later, low)
  ]
  Followed-next depths queue d current path v (inr leads) = inr (λ s m from. elim (leads s m from) [
    | inl (none_left, low) ↦ absurd (Memᴰ.not-nil none_left)
    | inr deeper ↦ inr deeper
  ])

  Kept-next :
      (depths : List Depth) (visited : List String) (queue : Queue) (d : ℕ) (current : String)
      (path : Steps)
      → Kept targets edges source depths visited ((current, path) ∷ queue) d []
      → Kept targets edges source depths visited queue (length path) (edges_of current edges)
  Kept-next depths visited queue d current path k = record {
    start = k.start;
    seen = k.seen;
    missed = k.missed;
    near = λ v m. omega (arith, k.near v m, k.deep.0);
    rising = k.rising.1;
    deep = k.rising.0;
    walked = k.walked.1;
    settled = λ v m. Followed-next depths queue d current path v (k.settled v m);
  }

  -- A chain from a format that was visited to a target goes on from an entry of the queue.
  covered :
      (depths : List Depth) (visited : List String) (queue : Queue) (d : ℕ)
      → Kept targets edges source depths visited queue d []
      → (t : String) → contains t targets ≡ true
      → (v : Depth) (chain : Steps) → Memᴰ v depths
      → Walk edges v.0 chain t
      → (q : String × Steps) × Memᴰ q queue × (suc (length q.1) ≤ v.1 + length chain)
  covered depths visited queue d k t hit v [] m w =
      absurd (false≢true (sym (k.missed v m) ∙ subst (λ g. contains g targets ≡ true) (sym w) hit))
  covered depths visited queue d k t hit v (s ∷ chain) m w = elim (k.settled v m) [
    | inl (path, waits, low) ↦ ((v.0, path), waits, omega (arith, low))
    | inr leads ↦ elim (leads s w.1 w.0) [
      | inl (none_left, low) ↦ absurd (Memᴰ.not-nil none_left)
      | inr (e, m', low) ↦
          let (q, there, short) =
            covered depths visited queue d k t hit (s.to_format, e) chain m' w.2 in
          (q, there, omega (arith, low, short))
    ]
  ]

  -- The search from here answers.
  abbrev pub Answered : Option Found → Type 0
  Answered o = (r : Found) × (o ≡ some r) × Answers edges targets source r

  abbrev pub Searched : ℕ → Type 0
  Searched fuel =
      (visited : List String) (queue : Queue) (d : ℕ) (depths : List Depth)
      → Kept targets edges source depths visited queue d []
      → rounds_left edges visited queue ≤ fuel
      → Answered (search targets fuel edges visited queue)

  shortest-first :
      (depths : List Depth) (visited : List String) (queue : Queue) (d : ℕ) (current : String)
      (path : Steps)
      → Kept targets edges source depths visited ((current, path) ∷ queue) d []
      → (t : String) (chain : Steps) → contains t targets ≡ true
      → Walk edges source chain t
      → suc (length path) ≤ length chain
  shortest-first depths visited queue d current path k t chain hit w =
      let (q, m, short) =
        covered depths visited ((current, path) ∷ queue) d k t hit (source, 0) chain k.start w in
      elim (Memᴰ.cases_cons m) [
        | inl e ↦ omega (arith, short, ap (λ z. length z.1) e)
        | inr later ↦
            omega (arith, short, All-Memᴰ (λ z. length path ≤ length z.1) queue q k.rising.0 later)
      ]

  round-Answered :
      (fuel : ℕ) (path : Steps) (round : Round)
      → Searched fuel
      → RoundEnds targets edges source path fuel round
      → ((t : String) (chain : Steps)
          → contains t targets ≡ true
          → Walk edges source chain t
          → suc (length path) ≤ length chain)
      → Answered (after_round (λ v q. search targets fuel edges v q) round)
  round-Answered fuel path (reached goal chain) next (hit, w, long) least =
      (some (goal, chain), refl, (hit, w, λ t other h o. omega (arith, long, least t other h o)))
  round-Answered fuel path (going visited queue) next (depths, k, low) least =
      next visited queue (length path) depths k low

  pub search-Answered : (fuel : ℕ) → Searched fuel
  unfolding search
  search-Answered zero visited [] d depths k low = (
    none,
    refl,
    λ t chain hit w.
        let (q, m, short) = covered depths visited [] d k t hit (source, 0) chain k.start w in
        Memᴰ.not-nil m,
  )
  search-Answered (suc fuel) visited [] d depths k low = (
    none,
    refl,
    λ t chain hit w.
        let (q, m, short) = covered depths visited [] d k t hit (source, 0) chain k.start w in
        Memᴰ.not-nil m,
  )
  search-Answered zero visited (q ∷ queue) d depths k low = absurd (omega (arith, low))
  search-Answered (suc fuel) visited ((current, path) ∷ queue) d depths k low =
      round-Answered fuel path (scan targets path (edges_of current edges) visited queue)
        (search-Answered fuel)
        (scan-RoundEnds targets edges source path current fuel (edges_of current edges) visited
          queue depths k.walked.0.0 (edges_of-Next targets edges source current edges (λ s m. m))
          (Kept-next depths visited queue d current path k) (omega (arith, low)))
        (shortest-first depths visited queue d current path k)
