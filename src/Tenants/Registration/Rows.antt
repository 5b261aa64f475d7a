-- ===== src/Tenants/Registration/Rows.antt =====
-- Looking up accounts after an insertion, and by an address.
use kuzu_event_bus.Prelude.{
  ℕ, ◌≡◌, ◌≢◌, refl, ap, true, none, some, List, [], ◌∷◌, arith, nat_key, nat_beq_iff,
}
use kuzu_event_bus.Text.{Text, text, strip, lower, split_once, text_key, same_text_iff}
use kuzu_event_bus.Text.Strip.{lower-strip_twice}
use kuzu_event_bus.Tenants.Names.{email_address, is_email}
use kuzu_event_bus.Tenants.Registration.{
  AccountRow, find_account, find_by_email, find_normalised, find_email, upsert_row,
}

-- Normalising an address that has been normalised changes nothing.
pub email_address_stable :
    (value : Text) {email : Text}
    → email_address value ≡ some email
    → email_address email ≡ some email
unfolding email_address
email_address_stable value {email} h =
    let same : email ≡ lower (strip value) = ground arith in
    let valid : is_email (split_once (text "@") (lower (strip value))) ≡ true = ground arith in
    rw same (simp (lower-strip_twice value, valid) refl)

pub find_account-upsert_other :
    (new : AccountRow) (rs : List AccountRow) (id : ℕ)
    → new.customer_id ≢ id
    → find_account id (upsert_row new rs) ≡ find_account id rs
unfolding find_account
find_account-upsert_other new [] id h = ground (arith, nat_beq_iff new.customer_id id)
find_account-upsert_other new (r ∷ rs) id h = ground (
  arith,
  nat_beq_iff new.customer_id id,
  nat_beq_iff r.customer_id new.customer_id,
  nat_beq_iff r.customer_id id,
  find_account-upsert_other new rs id h,
)

pub find_account-upsert :
    (new : AccountRow) (rs : List AccountRow)
    → find_account new.customer_id (upsert_row new rs) ≡ some new
unfolding find_account
find_account-upsert new [] = ground (arith, nat_beq_iff new.customer_id new.customer_id)
find_account-upsert new (r ∷ rs) =
    ground (arith, nat_beq_iff new.customer_id new.customer_id, find_account-upsert new rs)

-- A row with the address is found by it.
pub find_normalised-found :
    (id : ℕ) (rs : List AccountRow) {row : AccountRow}
    → find_account id rs ≡ some row
    → find_normalised row.admin_email rs ≢ none
unfolding find_account
find_normalised-found id [] h e = cc
find_normalised-found id (r ∷ rs) {row} h e =
    ground
      (arith, same_text_iff r.admin_email row.admin_email, find_normalised-found id rs {row = row})

pub find_by_email-normal :
    (value : Text) (rs : List AccountRow) {email : Text}
    → email_address value ≡ some email
    → find_by_email email rs ≡ some (find_normalised email rs)
unfolding find_by_email
find_by_email-normal value rs h = ap (λ o. find_email o rs) (email_address_stable value h)
