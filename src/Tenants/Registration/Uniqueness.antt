-- ===== src/Tenants/Registration/Uniqueness.antt =====
-- An address that has been registered is never registered again.
use kuzu_event_bus.Prelude.{
  ℕ, ◌≡◌, ◌≢◌, refl, sym, ap, ◌∙◌, Option, none, some, List, [], ◌∷◌, All, arith, nat_key,
}
use kuzu_event_bus.Text.{Text, text_key}
use kuzu_event_bus.Databases.Snapshots.Taken.{some-injective}
use kuzu_event_bus.Tenants.Names.{email_address, tenant_name}
use kuzu_event_bus.Tenants.Registration.{
  AccountRow, find_account, find_by_tenant_name, find_by_email, find_normalised, save_account,
  RegisterCall, Registry, RegisterError, Registered, ok, err, account_of, notified, new_account,
  unless_email_used, unless_name_used, validated, register_customer,
}
use kuzu_event_bus.Tenants.Registration.Rows.{
  find_account-upsert_other, find_account-upsert, find_normalised-found, find_by_email-normal,
}

module _ {G : Type 0} (c : RegisterCall G) where
  -- The row of another account stays.
  abbrev KeepsRow : ℕ → Registry G → Registered × Registry G → Type 0
  KeepsRow id g out = find_account id out.1.accounts ≡ find_account id g.accounts

  notified-accounts :
      (row : AccountRow) (g : Registry G) → (notified c row g).1.accounts ≡ g.accounts
  notified-accounts row g = ground arith

  new_account-KeepsRow :
      (name email : Text) (g : Registry G) (id : ℕ)
      → c.customer_id ≢ id
      → KeepsRow id g (new_account c name email g)
  unfolding save_account
  new_account-KeepsRow name email g id other =
      ground (arith, find_account-upsert_other (account_of c name email) g.accounts id other)

  validated-KeepsRow :
      (name email : Option Text) (g : Registry G) (id : ℕ)
      → c.customer_id ≢ id
      → KeepsRow id g (validated c name email g)
  validated-KeepsRow none email g id other = refl
  validated-KeepsRow (some name) none g id other = refl
  validated-KeepsRow (some name) (some email) g id other =
      unless_name (find_by_tenant_name name g.accounts)
    where
      unless_email :
          (o : Option (Option AccountRow)) → KeepsRow id g (unless_email_used c name email o g)
      unless_email none = refl
      unless_email (some none) = new_account-KeepsRow name email g id other
      unless_email (some (some r)) = refl

      unless_name : (o : Option AccountRow) → KeepsRow id g (unless_name_used c name email o g)
      unless_name none = unless_email (find_by_email email g.accounts)
      unless_name (some r) = refl

  register_customer-KeepsRow :
      (g : Registry G) (id : ℕ) → c.customer_id ≢ id → KeepsRow id g (register_customer c g)
  unfolding register_customer
  register_customer-KeepsRow g id other =
      validated-KeepsRow (tenant_name c.isalnum c.tenant_name) (email_address c.admin_email) g id
        other

  new_account-ok :
      (name email : Text) (g : Registry G) {row : AccountRow}
      → (new_account c name email g).0 ≡ ok row
      → (row ≡ account_of c name email)
        × (find_account c.customer_id (new_account c name email g).1.accounts ≡ some row)
  unfolding save_account
  new_account-ok name email g {row} h =
      ground (arith, find_account-upsert (account_of c name email) g.accounts)

  -- What a registration that succeeds has checked and left.
  pub record Added (g : Registry G) (row : AccountRow) (out : Registry G) : Type 0 where
    pub found : find_account c.customer_id out.accounts ≡ some row
    pub valid_email : email_address c.admin_email ≡ some row.admin_email
    pub valid_name : tenant_name c.isalnum c.tenant_name ≡ some row.tenant_name

  validated-ok :
      (name email : Option Text) (g : Registry G) {row : AccountRow}
      → tenant_name c.isalnum c.tenant_name ≡ name
      → email_address c.admin_email ≡ email
      → (validated c name email g).0 ≡ ok row
      → Added g row (validated c name email g).1
  validated-ok none email g n e h = cc
  validated-ok (some name) none g n e h = cc
  validated-ok (some name) (some email) g {row} n e h =
      unless_name (find_by_tenant_name name g.accounts) h
    where
      unless_email :
          (o : Option (Option AccountRow))
          → (unless_email_used c name email o g).0 ≡ ok row
          → Added g row (unless_email_used c name email o g).1
      unless_email none k = cc
      unless_email (some (some r)) k = cc
      unless_email (some none) k =
          let (same, found) = new_account-ok name email g k in
          record {
            found = found;
            valid_email = e ∙ ap (λ (x : AccountRow). some x.admin_email) (sym same);
            valid_name = n ∙ ap (λ (x : AccountRow). some x.tenant_name) (sym same);
          }

      unless_name :
          (o : Option AccountRow)
          → (unless_name_used c name email o g).0 ≡ ok row
          → Added g row (unless_name_used c name email o g).1
      unless_name (some r) k = cc
      unless_name none k = unless_email (find_by_email email g.accounts) k

  register_customer-Added :
      (g : Registry G) {row : AccountRow}
      → (register_customer c g).0 ≡ ok row
      → Added g row (register_customer c g).1
  unfolding register_customer
  register_customer-Added g h =
      validated-ok (tenant_name c.isalnum c.tenant_name) (email_address c.admin_email) g refl refl h

  -- Where a row has the address of the call, the call fails and adds no account.
  abbrev Refused : Registry G → Registered × Registry G → Type 0
  Refused g out = ((e : RegisterError) × (out.0 ≡ err e)) × (out.1.accounts ≡ g.accounts)

  register_customer-Refused :
      (g : Registry G) {email : Text}
      → email_address c.admin_email ≡ some email
      → find_normalised email g.accounts ≢ none
      → Refused g (register_customer c g)
  unfolding register_customer
  register_customer-Refused g {email} valid used =
      go (tenant_name c.isalnum c.tenant_name) (email_address c.admin_email) valid
    where
      looked_up :
          (email' : Text)
          → some email' ≡ some email
          → find_by_email email' g.accounts ≡ some (find_normalised email g.accounts)
      looked_up email' same =
          ap (λ x. find_by_email x g.accounts) (some-injective same)
          ∙ find_by_email-normal c.admin_email g.accounts valid

      unless_email :
          (name email' : Text) (o : Option (Option AccountRow))
          → o ≡ some (find_normalised email g.accounts)
          → Refused g (unless_email_used c name email' o g)
      unless_email name email' none e = cc
      unless_email name email' (some none) e = absurd (used (sym (some-injective e)))
      unless_email name email' (some (some r)) e = ((RegisterError.email_in_use, refl), refl)

      unless_name :
          (name email' : Text) (o : Option AccountRow)
          → some email' ≡ some email
          → Refused g (unless_name_used c name email' o g)
      unless_name name email' (some r) same = ((RegisterError.name_exists, refl), refl)
      unless_name name email' none same =
          unless_email name email' (find_by_email email' g.accounts) (looked_up email' same)

      go : (name e : Option Text) → e ≡ some email → Refused g (validated c name e g)
      go none e same = ((RegisterError.validation_error, refl), refl)
      go (some name) none same = cc
      go (some name) (some email') same =
          unless_name name email' (find_by_tenant_name name g.accounts) same

module _ {G : Type 0} where
  abbrev pub registrations : List (RegisterCall G) → Registry G → Registry G
  registrations [] g = g
  registrations (c ∷ cs) g = registrations cs (register_customer c g).1

  registrations-KeepsRow :
      (cs : List (RegisterCall G)) (g : Registry G) (id : ℕ)
      → All (λ (c : RegisterCall G). c.customer_id ≢ id) cs
      → find_account id (registrations cs g).accounts ≡ find_account id g.accounts
  registrations-KeepsRow [] g id h = refl
  registrations-KeepsRow (c ∷ cs) g id h =
      registrations-KeepsRow cs (register_customer c g).1 id h.1
      ∙ register_customer-KeepsRow c g id h.0

  -- Once a registration has succeeded, and whatever registrations of other accounts follow, every call
  -- with an address that is the same up to surrounding space and the case of letters is refused and adds
  -- no account.
  pub register_customer_once :
      (c d : RegisterCall G) (cs : List (RegisterCall G)) (g : Registry G) {row : AccountRow}
      → (register_customer c g).0 ≡ ok row
      → All (λ (x : RegisterCall G). x.customer_id ≢ c.customer_id) cs
      → email_address d.admin_email ≡ email_address c.admin_email
      → let later = registrations cs (register_customer c g).1 in
        ((e : RegisterError) × ((register_customer d later).0 ≡ err e))
        × ((register_customer d later).1.accounts ≡ later.accounts)
  register_customer_once c d cs g {row} h fresh same =
      let added = register_customer-Added c g h in
      let later = registrations cs (register_customer c g).1 in
      let kept : find_account c.customer_id later.accounts ≡ some row =
        registrations-KeepsRow cs (register_customer c g).1 c.customer_id fresh ∙ added.found in
      register_customer-Refused d later (same ∙ added.valid_email)
        (find_normalised-found c.customer_id later.accounts kept)
