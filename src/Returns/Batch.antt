-- ===== src/Returns/Batch.antt =====
-- The actions on a batch of failed deliveries.
use saas_frontend.Base.{
  is_some, count_where, ℕ, suc, ◌+◌, ◌≤◌, ◌≡◌, refl, ap, ◌∙◌, Bool, false, Option, List, [], ◌∷◌,
  map, Result, ok, err, arith, ltb, length,
}
use saas_frontend.Returns.Defs.{NdrStatus, Returns, Error}
use saas_frontend.Returns.Actions.{
  ActionData, BulkResult, tally, act_on_each, take_ndr_action, take_bulk_ndr_action,
}

-- The actions one by one.
abbrev pub one_by_one : (ℕ → Bool) → ℕ → ℕ → ActionData → List ℕ → Returns → Returns
one_by_one reaches tenant user d [] t = t
one_by_one reaches tenant user d (id ∷ ids) t =
    one_by_one reaches tenant user d ids (take_ndr_action reaches id tenant user d t).1

abbrev pub IsTally : List ℕ → BulkResult → Type 0
IsTally ids r =
    (r.processed + r.failed ≡ length ids)
    × (map (λ x. x.0) r.details ≡ ids)
    × (count_where (λ x. is_some x.1) r.details ≡ r.failed)

tally-IsTally :
    (id : ℕ) (a : Result Error (NdrStatus × Option ℕ)) (ids : List ℕ) (r : BulkResult)
    → IsTally ids r
    → IsTally (id ∷ ids) (tally id a r)
tally-IsTally id (ok a) ids r (sum, order, errors) =
    (ground (arith, sum), ap (λ l. id ∷ l) order, ground (arith, errors))
tally-IsTally id (err e) ids r (sum, order, errors) =
    (ground (arith, sum), ap (λ l. id ∷ l) order, ap (λ n. 1 + n) errors ∙ ground arith)

act_on_each-IsTally :
    (reaches : ℕ → Bool) (tenant user : ℕ) (d : ActionData) (ids : List ℕ) (t : Returns)
    → let (r, t') = act_on_each reaches tenant user d ids t in
      IsTally ids r × (t' ≡ one_by_one reaches tenant user d ids t)
unfolding act_on_each
act_on_each-IsTally reaches tenant user d [] t = ((refl, refl, refl), refl)
act_on_each-IsTally reaches tenant user d (id ∷ ids) t =
    let done = take_ndr_action reaches id tenant user d t in
    let (counts, same) = act_on_each-IsTally reaches tenant user d ids done.1 in
    (tally-IsTally id done.0 ids (act_on_each reaches tenant user d ids done.1).0 counts, same)

-- A batch of one to a hundred deliveries acts on each as a single call would, in their order, and a
-- call that fails stops none of the others: the two counts add up to the number of deliveries, and the
-- details are one for each, with as many errors as are counted.
pub take_bulk-IsTally :
    (reaches : ℕ → Bool) (tenant user : ℕ) (d : ActionData) (id : ℕ) (ids : List ℕ) (t : Returns)
    → suc (length ids) ≤ 100
    → (r : BulkResult) × (take_bulk_ndr_action reaches tenant user d (id ∷ ids) t
        ≡ (ok r, one_by_one reaches tenant user d (id ∷ ids) t))
      × IsTally (id ∷ ids) r
unfolding take_bulk_ndr_action
take_bulk-IsTally reaches tenant user d id ids t few =
    let (counts, same) = act_on_each-IsTally reaches tenant user d (id ∷ ids) t in
    let within : ltb 100 (suc (length ids)) ≡ false = ground (arith, few) in
    let r : BulkResult = (act_on_each reaches tenant user d (id ∷ ids) t).0 in
    (r, rw within (ap (λ u. (ok r, u)) same), counts)
