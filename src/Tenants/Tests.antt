-- ===== src/Tenants/Tests.antt =====
-- A concrete account on the basic plan.
use kuzu_event_bus.Prelude.{ℕ, none, List, [], ◌∷◌, arith}
use kuzu_event_bus.Tenants.Storage.{megabytes}
use kuzu_event_bus.Tenants.Account.{
  CustomerAccount, active, basic, details_of, generate, Call, suspend, activate, allocate,
  increment, run,
}
use kuzu_event_bus.Tenants.Account.Limits.{IsValid, run-IsValid}

abbrev account : CustomerAccount
account = record {
  api_key = generate 1 10;
  status = active;
  subscription = details_of basic 10;
  current_storage_usage = megabytes 500;
  database_count = 2;
  updated_at = 10;
  last_login = none;
  events = [];
}

account-IsValid : IsValid account
account-IsValid = record {
  stored = omega arith;
  counted = omega arith;
  locked = λ h. absurd (ground arith);
}

abbrev calls : List (ℕ × Call)
calls =
    (20, allocate (megabytes 100))
    ∷ (30, suspend "unpaid")
    ∷ (40, increment)
    ∷ (50, activate 2)
    ∷ []

run-IsValid_example : IsValid (run calls account)
run-IsValid_example = run-IsValid calls account (tt, (tt, (tt, (tt, tt)))) account-IsValid
