-- ===== src/Conversion/Scan.antt =====
-- The rounds of `_find_conversion_path` (sceneapi/server/services/artifact_conversion_service.py):
-- what each keeps of the depth of every format that was visited.
use mathlib.Core.List.Memᴰ
use mathlib.Core.List.{Memᴰ}
use mathlib.Core.Logic.{inl, inr}
use scene_api.Base.{
  ℕ, suc, ◌≤◌, String, ◌≡◌, refl, sym, ap, subst, ◌⊎◌, true, false, List, [], ◌∷◌, ◌++◌, arith,
  ◌==◌, eq_iff, Bool-cases, length, All, contains, All-map, All-append,
}
use scene_api.Conversion.{ConversionStep, Steps}
use scene_api.Conversion.Chains.{Walk, Walk-snoc, length-snoc}

-- A format with the number of steps to it.
abbrev pub Depth : Type 0
Depth = String × ℕ

abbrev pub Queue : Type 0
Queue = List (String × Steps)

-- The paths of the queue grow.
abbrev pub Rising : Queue → Type 0
Rising [] = Unit
Rising (q ∷ queue) = All (λ z. length q.1 ≤ length z.1) queue × Rising queue

module _ (targets : List String) (edges : Steps) (source : String) where
  -- The format waits in the queue.
  abbrev pub Waits : Queue → Depth → Type 0
  Waits queue v = (path : Steps) × Memᴰ (v.0, path) queue × (length path ≤ v.1)

  -- The step is still to be scanned, at a depth no larger, or its end was visited one step deeper.
  abbrev pub Leads : List Depth → ℕ → Steps → Depth → ConversionStep → Type 0
  Leads depths d steps v s =
      (Memᴰ s steps × (d ≤ v.1)) ⊎ ((e : ℕ) × Memᴰ (s.to_format, e) depths × (e ≤ suc v.1))

  abbrev pub Followed : List Depth → Queue → ℕ → Steps → Depth → Type 0
  Followed depths queue d steps v =
      Waits queue v
      ⊎ ((s : ConversionStep) → Memᴰ s edges → s.from_format ≡ v.0 → Leads depths d steps v s)

  -- `depths` are the formats visited, `steps` those the round at depth `d` has still to scan.
  pub record Kept (depths : List Depth) (visited : List String) (queue : Queue) (d : ℕ)
      (steps : Steps) : Type 0 where
    pub start : Memᴰ (source, 0) depths
    pub seen : (g : String) → contains g visited ≡ true → (e : ℕ) × Memᴰ (g, e) depths
    pub missed : (v : Depth) → Memᴰ v depths → contains v.0 targets ≡ false
    pub near : (v : Depth) → Memᴰ v depths → v.1 ≤ suc d
    pub rising : Rising queue
    pub deep : All (λ q. d ≤ length q.1) queue
    pub walked : All (λ q. Walk edges source q.1 q.0 × Memᴰ (q.0, length q.1) depths) queue
    pub settled : (v : Depth) → Memᴰ v depths → Followed depths queue d steps v

  Leads-skip :
      (depths : List Depth) (d : ℕ) (x : ConversionStep) (steps : Steps) (v : Depth)
      (s : ConversionStep) (e : ℕ)
      → Memᴰ (x.to_format, e) depths
      → e ≤ suc d
      → Leads depths d (x ∷ steps) v s
      → Leads depths d steps v s
  Leads-skip depths d x steps v s e m near (inr deeper) = inr deeper
  Leads-skip depths d x steps v s e m near (inl (there, low)) = elim (Memᴰ.cases_cons there) [
    | inl same ↦ inr (e, Memᴰ.cast (ap (λ z. (z.to_format, e)) same) m, omega (arith, near, low))
    | inr later ↦ inl (later, low)
  ]

  Followed-skip :
      (depths : List Depth) (queue : Queue) (d : ℕ) (x : ConversionStep) (steps : Steps) (v : Depth)
      (e : ℕ)
      → Memᴰ (x.to_format, e) depths
      → e ≤ suc d
      → Followed depths queue d (x ∷ steps) v
      → Followed depths queue d steps v
  Followed-skip depths queue d x steps v e m near (inl waits) = inl waits
  Followed-skip depths queue d x steps v e m near (inr leads) =
      inr (λ s m' f. Leads-skip depths d x steps v s e m near (leads s m' f))

  pub Kept-skip :
      (depths : List Depth) (visited : List String) (queue : Queue) (d : ℕ) (x : ConversionStep)
      (steps : Steps)
      → Kept depths visited queue d (x ∷ steps)
      → contains x.to_format visited ≡ true
      → Kept depths visited queue d steps
  Kept-skip depths visited queue d x steps k there =
      let (e, m) = k.seen x.to_format there in
      record {
        start = k.start;
        seen = k.seen;
        missed = k.missed;
        near = k.near;
        rising = k.rising;
        deep = k.deep;
        walked = k.walked;
        settled = λ v h.
            Followed-skip depths queue d x steps v e m (k.near (x.to_format, e) m) (k.settled v h);
      }

  Leads-more :
      (depths : List Depth) (d : ℕ) (steps : Steps) (v w : Depth) (s : ConversionStep)
      → Leads depths d steps v s
      → Leads (w ∷ depths) d steps v s
  Leads-more depths d steps v w s (inl scanned) = inl scanned
  Leads-more depths d steps v w s (inr (e, m, low)) = inr (e, Memᴰ.tail m, low)

  Followed-more :
      (depths : List Depth) (queue more : Queue) (d : ℕ) (steps : Steps) (v w : Depth)
      → Followed depths queue d steps v
      → Followed (w ∷ depths) (queue ++ more) d steps v
  Followed-more depths queue more d steps v w (inl (path, m, low)) =
      inl (path, Memᴰ.append_left more m, low)
  Followed-more depths queue more d steps v w (inr leads) =
      inr (λ s m f. Leads-more depths d steps v w s (leads s m f))

  Rising-snoc :
      (queue : Queue) (q : String × Steps)
      → Rising queue
      → All (λ z. length z.1 ≤ length q.1) queue
      → Rising (queue ++ q ∷ [])
  Rising-snoc [] q r a = (tt, tt)
  Rising-snoc (x ∷ queue) q r a =
      (All-append _ queue (q ∷ []) r.0 (a.0, tt), Rising-snoc queue q r.1 a.1)

  seen-more :
      (depths : List Depth) (visited : List String) (g : String) (e : ℕ)
      → ((h : String) → contains h visited ≡ true → (n : ℕ) × Memᴰ (h, n) depths)
      → (h : String) → contains h (g ∷ visited) ≡ true
      → (n : ℕ) × Memᴰ (h, n) ((g, e) ∷ depths)
  seen-more depths visited g e seen h there = elim (Bool-cases (g == h)) [
    | inl same ↦ (e, Memᴰ.head (ap (λ z. (z, e)) (sym ((eq_iff g h).0 same))))
    | inr other ↦ let (n, m) = seen h (ground (arith, there, other)) in (n, Memᴰ.tail m)
  ]

  cons-of {ℓ} :
      {A : Type ℓ} (P : A → Type 0) (x : A) (xs : List A)
      → P x
      → ((y : A) → Memᴰ y xs → P y)
      → (y : A) → Memᴰ y (x ∷ xs)
      → P y
  cons-of P x xs p each y m = elim (Memᴰ.cases_cons m) [
    | inl e ↦ subst P (sym e) p
    | inr m' ↦ each y m'
  ]

  pub Kept-add :
      (depths : List Depth) (visited : List String) (queue : Queue) (path : Steps)
      (x : ConversionStep) (steps : Steps)
      → Kept depths visited queue (length path) (x ∷ steps)
      → Walk edges source path x.from_format
      → Memᴰ x edges
      → contains x.to_format targets ≡ false
      → Kept
          ((x.to_format, suc (length path)) ∷ depths)
          (x.to_format ∷ visited)
          (queue ++ (x.to_format, path ++ x ∷ []) ∷ [])
          (length path)
          steps
  Kept-add depths visited queue path x steps k w m miss =
      let d = length path in
      let new : Depth = (x.to_format, suc d) in
      let last : String × Steps = (x.to_format, path ++ x ∷ []) in
      let long : length (path ++ x ∷ []) ≡ suc d = length-snoc path x in
      let here : Memᴰ new (new ∷ depths) = Memᴰ.head refl in
      record {
        start = Memᴰ.tail k.start;
        seen = seen-more depths visited x.to_format (suc d) k.seen;
        missed = cons-of (λ v. contains v.0 targets ≡ false) new depths miss k.missed;
        near = cons-of (λ v. v.1 ≤ suc d) new depths (omega arith) k.near;
        rising =
            Rising-snoc queue last k.rising (
              All-map _ _ queue (λ q a. omega (arith, long, k.near (q.0, length q.1) a.1))
                k.walked);
        deep = All-append (λ q. d ≤ length q.1) queue (last ∷ []) k.deep (omega (arith, long), tt);
        walked =
            All-append (λ q. Walk edges source q.1 q.0 × Memᴰ (q.0, length q.1) (new ∷ depths))
              queue (last ∷ []) (All-map _ _ queue (λ q a. (a.0, Memᴰ.tail a.1)) k.walked)
              (
                (
                  Walk-snoc edges source path x w m,
                  Memᴰ.cast (ap (λ n. (x.to_format, n)) long) here,
                ),
                tt,
              );
        settled =
            cons-of (λ v. Followed (new ∷ depths) (queue ++ last ∷ []) d steps v) new depths
              (inl (path ++ x ∷ [], Memᴰ.append_right queue (Memᴰ.head refl), omega (arith, long)))
              (λ v h.
                Followed-skip (new ∷ depths) (queue ++ last ∷ []) d x steps v (suc d) here
                  (omega arith)
                  (Followed-more depths queue (last ∷ []) d (x ∷ steps) v new (k.settled v h)));
      }
