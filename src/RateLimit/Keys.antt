-- ===== src/RateLimit/Keys.antt =====
-- Each key has a budget of its own.
use rust_api_gateway.Base.{
  ◌≡◌, refl, ap, List, [], ◌∷◌, Str, str_eq, str_eq_iff, HashMap, lookup, insert, lookup-insert,
  arith, if◌then◌else◌, Bool-cases, inl, inr, ap₂, as_secs, ◌-◌,
}
use rust_api_gateway.RateLimit.{RateDecision, Window, Request, count_in, check, check_all, decide}

-- The decisions on the requests for one key.
abbrev pub decisions_for : Str → HashMap Window → List Request → List RateDecision
decisions_for k windows [] = []
decisions_for k windows (r ∷ rs) =
    let answer = check windows r.key r.limit r.window r.now in
    let rest = decisions_for k answer.0 rs in if str_eq r.key k then answer.1 ∷ rest else rest

-- The requests for one key.
abbrev pub requests_for : Str → List Request → List Request
requests_for k [] = []
requests_for k (r ∷ rs) = let rest = requests_for k rs in if str_eq r.key k then r ∷ rest else rest

-- A limiter decides on the requests for a key as if there were no others: what else it counts, and
-- the requests for other keys in between, make no difference.
pub decisions_for-check_all :
    (k : Str) (windows alone : HashMap Window) (rs : List Request)
    → lookup k windows ≡ lookup k alone
    → decisions_for k windows rs ≡ check_all alone (requests_for k rs)
unfolding check_all check
decisions_for-check_all k windows alone [] e = refl
decisions_for-check_all k windows alone (r ∷ rs) e = elim (Bool-cases (str_eq r.key k)) [
  | inr other ↦
      let w = count_in (lookup r.key windows) r.window r.now in
      let kept : lookup k (insert r.key w windows) ≡ lookup k alone =
        ground (arith, lookup-insert r.key k w windows) in
      rw (other) (decisions_for-check_all k (insert r.key w windows) alone rs kept)
  | inl mine ↦
      let same : r.key ≡ k = (str_eq_iff r.key k).0 mine in
      let w = count_in (lookup r.key windows) r.window r.now in
      let v = count_in (lookup r.key alone) r.window r.now in
      let agree : w ≡ v = ap (λ o. count_in o r.window r.now) (rw same e) in
      let kept : lookup k (insert r.key w windows) ≡ lookup k (insert r.key v alone) =
        ground (arith, lookup-insert r.key k w windows, lookup-insert r.key k v alone, agree) in
      let rest =
        decisions_for-check_all k (insert r.key w windows) (insert r.key v alone) rs kept in
      rw mine (
        ap₂ (λ (x : Window) ds. decide x.used r.limit (as_secs (r.window - (r.now - x.start))) ∷ ds)
          agree rest)
]
