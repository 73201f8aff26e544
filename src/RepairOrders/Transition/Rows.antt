-- ===== src/RepairOrders/Transition/Rows.antt =====
-- What `updateMany` leaves for a later `findFirst`.
use repair_flow.Common.{
  String, Bool, Option, none, some, List, [], ◌∷◌, find, ◌≡◌, refl, Bool-cases, inl, inr,
  if◌then◌else◌,
}
use repair_flow.RepairOrders.Types.{Order}
use repair_flow.RepairOrders.Transition.{is_row, update_rows}

abbrev pub change_found : (Order → Bool) → (Order → Order) → Option Order → Option Order
change_found test change none = none
change_found test change (some o) = some (if test o then change o else o)

module _ (test : Order → Bool) (change : Order → Order)
    (keeps : (shop id : String) (o : Order) → is_row shop id (change o) ≡ is_row shop id o) where
  pub find-update_rows :
      (shop id : String) (os : List Order)
      → find (is_row shop id) (update_rows test change os)
        ≡ change_found test change (find (is_row shop id) os)
  unfolding update_rows
  find-update_rows shop id [] = refl
  find-update_rows shop id (o ∷ os) = elim (Bool-cases (test o)) [
    | inl hit ↦ rw hit (
        rw (keeps shop id o) (elim (Bool-cases (is_row shop id o)) [
          | inl here ↦ rw (here, hit)
          | inr there ↦ rw there (find-update_rows shop id os)
        ]))
    | inr miss ↦ rw miss (elim (Bool-cases (is_row shop id o)) [
      | inl here ↦ rw (here, miss)
      | inr there ↦ rw there (find-update_rows shop id os)
    ])
  ]
