-- ===== src/Tenants/Storage.antt =====
-- StorageSize (backend/src/domain/shared/value_objects.py). Amounts are floats in the source. The
-- model takes sizes of whole bytes, which the conversions between the units, all powers of two,
-- keep exact below 2 ^ 53 bytes: a size in megabytes is held as its number of bytes.
use kuzu_event_bus.Prelude.{ℕ, ◌+◌, ◌-◌, ◌*◌, Bool, Option, none, some, ltb}

pub data StorageUnit : Type 0 where
  bytes kb mb gb : StorageUnit

abbrev pub unit_size : StorageUnit → ℕ
unit_size bytes = 1
unit_size kb = 1024
unit_size mb = 1048576
unit_size gb = 1073741824

pub data Amount : Type 0 where
  nonnegative : ℕ → Amount
  negative : ℕ → Amount

pub record StorageSize : Type 0 where
  pub size : ℕ
  pub unit : StorageUnit

-- The constructor, which refuses a negative amount.
abbrev pub storage_size : Amount → StorageUnit → Option StorageSize
storage_size (nonnegative n) u = some (record { size = n * unit_size u; unit = u })
storage_size (negative n) u = none

abbrev pub megabytes : ℕ → StorageSize
megabytes n = record { size = n * 1048576; unit = mb }

-- `to_megabytes`, in bytes
abbrev pub to_megabytes : StorageSize → ℕ
to_megabytes s = s.size

infixl 65 ◌⊕◌ ◌⊖◌
abbrev pub ◌⊕◌ : StorageSize → StorageSize → StorageSize
a ⊕ b = record { size = to_megabytes a + to_megabytes b; unit = mb }

-- A difference below zero is zero.
abbrev pub ◌⊖◌ : StorageSize → StorageSize → StorageSize
a ⊖ b = record { size = to_megabytes a - to_megabytes b; unit = mb }

abbrev pub exceeds : StorageSize → StorageSize → Bool
exceeds a b = ltb (to_megabytes b) (to_megabytes a)
