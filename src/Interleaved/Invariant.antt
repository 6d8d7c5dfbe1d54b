-- ===== src/Interleaved/Invariant.antt =====
-- What holds of a gateway and its tasks at every point of every interleaving.
use rust_api_gateway.Base.{
  ℕ, zero, suc, pos, ◌+◌, ◌≡◌, ◌≢◌, refl, ap, ◌∙◌, Bool, true, false, some, List, [], ◌∷◌, ◌++◌,
  get_elem?, set, arith,
}
use rust_api_gateway.Headers.{Http}
use rust_api_gateway.Proxy.Lifetime.{
  gauge_after, gauge_after-opened, gauge_after-closed, succ, pred,
}
use rust_api_gateway.Proxy.Responses.{Response}
use rust_api_gateway.Interleaved.{
  Point, entered, at_auth, at_limit, at_cache, at_body, at_pick, at_send, at_report, at_finish,
  at_store, retrying, at_release, closing, answered,
}
use rust_api_gateway.Interleaved.Effects.{tags, is_open, stays_open}
use rust_api_gateway.Interleaved.Tasks.{remove_at, Handling}

abbrev pub bit : Bool → ℕ
bit true = 1
bit false = 0

module _ (h : Http) where
  -- The requests whose connection is counted as active.
  abbrev pub in_flight : List (Handling h) → ℕ
  in_flight [] = 0
  in_flight (t ∷ ts) = bit (is_open h t.point) + in_flight ts

  pub in_flight-set :
      (ts : List (Handling h)) (i : ℕ) (t u : Handling h)
      → get_elem? ts i ≡ some t
      → in_flight (set ts i u) + bit (is_open h t.point) ≡ in_flight ts + bit (is_open h u.point)
  in_flight-set [] i t u e = absurd (ground arith)
  in_flight-set (x ∷ ts) zero t u e = let same : x ≡ t = ground arith in rw same (omega arith)
  in_flight-set (x ∷ ts) (suc i) t u e = omega (arith, in_flight-set ts i t u e)

  pub in_flight-remove_at :
      (ts : List (Handling h)) (i : ℕ) (t : Handling h)
      → get_elem? ts i ≡ some t
      → in_flight (remove_at ts i) + bit (is_open h t.point) ≡ in_flight ts
  in_flight-remove_at [] i t e = absurd (ground arith)
  in_flight-remove_at (x ∷ ts) zero t e = let same : x ≡ t = ground arith in rw same (omega arith)
  in_flight-remove_at (x ∷ ts) (suc i) t e = omega (arith, in_flight-remove_at ts i t e)

  pred-pos : (a b : ℕ) → a ≡ suc b → pred (pos a) ≡ pos b
  pred-pos a b e = rw e refl

  append_empty : (l : List Bool) → l ++ [] ≡ l
  append_empty [] = refl
  append_empty (x ∷ l) = ap (λ k. x ∷ k) (append_empty l)

  active-kept :
      (l l' : List Bool) (q : Point h) (n m d : ℕ)
      → l' ≡ l ++ []
      → is_open h q ≡ true
      → m + 1 ≡ n + bit (is_open h q)
      → gauge_after (pos 0) l ≡ pos (n + d)
      → gauge_after (pos 0) l' ≡ pos (m + d)
  active-kept l l' q n m d e opened sum was =
      ap (gauge_after (pos 0)) (e ∙ append_empty l) ∙ was ∙ ap pos (ground (arith, opened, sum))

  -- What the opening or closing of a connection does to the gauge.
  pub active-tags :
      (l l' : List Bool) (p q : Point h) (n m d : ℕ)
      → l' ≡ l ++ tags h p
      → is_open h q ≡ stays_open h p
      → ((r : Response h) → p ≢ answered r)
      → m + bit (is_open h p) ≡ n + bit (is_open h q)
      → gauge_after (pos 0) l ≡ pos (n + d)
      → gauge_after (pos 0) l' ≡ pos (m + d)
  active-tags l l' entered q n m d e opened live sum was =
      ap (gauge_after (pos 0)) e
      ∙ gauge_after-opened (pos 0) l
      ∙ ap succ was
      ∙ ap pos (ground (arith, opened, sum))
  active-tags l l' (closing r) q n m d e opened live sum was =
      ap (gauge_after (pos 0)) e
      ∙ gauge_after-closed (pos 0) l
      ∙ ap pred was
      ∙ pred-pos (n + d) (m + d) (ground (arith, opened, sum))
  active-tags l l' (answered r) q n m d e opened live sum was = absurd (live r refl)
  active-tags l l' (at_auth name) q n m d e opened live sum was =
      active-kept l l' q n m d e opened sum was
  active-tags l l' (at_limit name) q n m d e opened live sum was =
      active-kept l l' q n m d e opened sum was
  active-tags l l' (at_cache name) q n m d e opened live sum was =
      active-kept l l' q n m d e opened sum was
  active-tags l l' (at_body name b) q n m d e opened live sum was =
      active-kept l l' q n m d e opened sum was
  active-tags l l' (at_pick name r) q n m d e opened live sum was =
      active-kept l l' q n m d e opened sum was
  active-tags l l' (at_send name r i) q n m d e opened live sum was =
      active-kept l l' q n m d e opened sum was
  active-tags l l' (at_report name r i x) q n m d e opened live sum was =
      active-kept l l' q n m d e opened sum was
  active-tags l l' (at_finish name b i st a) q n m d e opened live sum was =
      active-kept l l' q n m d e opened sum was
  active-tags l l' (at_store name i st a) q n m d e opened live sum was =
      active-kept l l' q n m d e opened sum was
  active-tags l l' (retrying name r i) q n m d e opened live sum was =
      active-kept l l' q n m d e opened sum was
  active-tags l l' (at_release name i r) q n m d e opened live sum was =
      active-kept l l' q n m d e opened sum was
