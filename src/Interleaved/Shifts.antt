-- ===== src/Interleaved/Shifts.antt =====
-- How the guards of all tasks and the tasks' routes fare when one of them moves.
use rust_api_gateway.Base.{
  ℕ, zero, suc, ◌≡◌, refl, sym, ap, ◌∙◌, some, List, [], ◌∷◌, ◌++◌, Str, get_elem?, set, lookup,
  arith, u64_mod, ◌%◌,
}
use rust_api_gateway.Headers.{Http}
use rust_api_gateway.Balancer.{Balancer}
use rust_api_gateway.Balancer.Order.{count, count-append}
use rust_api_gateway.State.{RouteRuntime}
use rust_api_gateway.Proxy.Trail.{SameShape}
use rust_api_gateway.Proxy.Gateway.{Gateway}
use rust_api_gateway.Proxy.Wellformed.{IsWellformed, IsBriefState}
use rust_api_gateway.Interleaved.{Point, entered}
use rust_api_gateway.Interleaved.Local.{guard, AllBelow, Counted}
use rust_api_gateway.Interleaved.Effects.{holds, IsValid, Stepped}
use rust_api_gateway.Interleaved.Tasks.{remove_at, Handling}

-- Only how often an index is held matters.
counted-same :
    (h : Http) (b : Balancer) (k l : List ℕ)
    → ((j : ℕ) → count j l ≡ count j k)
    → Counted h b k
    → Counted h b l
counted-same h b k l same c = record {
  usable = c.usable;
  counted = λ j u at. c.counted j u at ∙ ap (λ n. n % u64_mod) (sym (same j));
}

module _ (h : Http) where
  -- The guards that tasks hold on the upstreams of a route.
  abbrev pub all_held : Str → List (Handling h) → List ℕ
  all_held n [] = []
  all_held n (t ∷ ts) = holds h t.point n ++ all_held n ts

  -- The guards of one task, and those of the others.
  count-all_held :
      (j : ℕ) (n : Str) (ts : List (Handling h)) (i : ℕ) (t : Handling h)
      → get_elem? ts i ≡ some t
      → count j (all_held n ts) ≡ count j (holds h t.point n ++ all_held n (remove_at ts i))
  count-all_held j n [] i t e = absurd (ground arith)
  count-all_held j n (x ∷ ts) zero t e = let same : x ≡ t = ground arith in rw same refl
  count-all_held j n (x ∷ ts) (suc i) t e =
      let rest = all_held n (remove_at ts i) in
      omega (
        arith,
        count-all_held j n ts i t e,
        count-append j (holds h x.point n) (all_held n ts),
        count-append j (holds h t.point n) rest,
        count-append j (holds h x.point n) rest,
        count-append j (holds h t.point n) (holds h x.point n ++ rest),
      )

  pub get_elem?-set_here :
      (ts : List (Handling h)) (i : ℕ) (t u : Handling h)
      → get_elem? ts i ≡ some t
      → get_elem? (set ts i u) i ≡ some u
  get_elem?-set_here [] i t u e = absurd (ground arith)
  get_elem?-set_here (x ∷ ts) zero t u e = refl
  get_elem?-set_here (x ∷ ts) (suc i) t u e = get_elem?-set_here ts i t u e

  remove_at-set :
      (ts : List (Handling h)) (i : ℕ) (u : Handling h) → remove_at (set ts i u) i ≡ remove_at ts i
  remove_at-set [] i u = refl
  remove_at-set (x ∷ ts) zero u = refl
  remove_at-set (x ∷ ts) (suc i) u = ap (λ l. x ∷ l) (remove_at-set ts i u)

  AllBelow-same : (is : List ℕ) (m n : ℕ) → m ≡ n → AllBelow h is m → AllBelow h is n
  AllBelow-same is m n e a = rw⁻¹ e a

  module _ {L : Type 0} where
    -- The gateway moves on while a task goes from a point to another.
    pub record Shifts (g g' : Gateway L) (p q : Point h) : Type 0 where
      pub wellformed : IsWellformed g'.state
      pub forth :
          (n : Str) (rt : RouteRuntime)
          → lookup n g.state.routes ≡ some rt
          → (rt' : RouteRuntime) × (lookup n g'.state.routes ≡ some rt')
            × SameShape rt.balancer rt'.balancer
      pub back :
          (n : Str) (rt' : RouteRuntime)
          → lookup n g'.state.routes ≡ some rt'
          → (rt : RouteRuntime) × (lookup n g.state.routes ≡ some rt)
            × ((held : List ℕ)
                → Counted h rt.balancer (holds h p n ++ held)
                → Counted h rt'.balancer (holds h q n ++ held))
      pub timely : IsBriefState g.state → IsBriefState g'.state

    pub Stepped-Shifts : (g g' : Gateway L) (p q : Point h) → Stepped h g g' p q → Shifts g g' p q
    Stepped-Shifts g g' p q s = record {
      wellformed = s.wellformed;
      forth = s.forth;
      back = s.back;
      timely = s.timely;
    }

    -- The counters are those of all tasks.
    abbrev pub AllCounted : Gateway L → List (Handling h) → Type 0
    AllCounted g ts =
        (n : Str) (rt : RouteRuntime)
        → lookup n g.state.routes ≡ some rt
        → Counted h rt.balancer (all_held n ts)

    pub Shifts-set :
        (g g' : Gateway L) (ts : List (Handling h)) (i : ℕ) (t : Handling h) (q : Point h)
        → get_elem? ts i ≡ some t
        → Shifts g g' t.point q
        → AllCounted g ts
        → AllCounted g' (set ts i (record t { point = q }))
    Shifts-set g g' ts i t q at s all n rt' there =
        let (rt, was, moves) = s.back n rt' there in
        let u = record t { point = q } in
        let others = all_held n (remove_at ts i) in
        counted-same h rt'.balancer (holds h q n ++ others) (all_held n (set ts i u))
          (λ j.
            count-all_held j n (set ts i u) i u (get_elem?-set_here ts i t u at)
            ∙ ap (λ l. count j (holds h q n ++ all_held n l)) (remove_at-set ts i u))
          (moves others (
            counted-same h rt.balancer (all_held n ts) (holds h t.point n ++ others)
              (λ j. sym (count-all_held j n ts i t at)) (all n rt was)))

    pub Shifts-remove :
        (g g' : Gateway L) (ts : List (Handling h)) (i : ℕ) (t : Handling h)
        → get_elem? ts i ≡ some t
        → Shifts g g' t.point entered
        → AllCounted g ts
        → AllCounted g' (remove_at ts i)
    Shifts-remove g g' ts i t at s all n rt' there =
        let (rt, was, moves) = s.back n rt' there in
        let others = all_held n (remove_at ts i) in
        moves others (
          counted-same h rt.balancer (all_held n ts) (holds h t.point n ++ others)
            (λ j. sym (count-all_held j n ts i t at)) (all n rt was))

    -- The points of the others stay valid.
    pub Shifts-IsValid :
        (g g' : Gateway L) (p q r : Point h) → Shifts g g' p q → IsValid h g r → IsValid h g' r
    Shifts-IsValid g g' p q r s valid name on =
        let (rt, there, below) = valid name on in
        let (rt', now, shape) = s.forth name rt there in
        (rt', now, AllBelow-same (guard h r) _ _ (sym shape.same_number) below)
