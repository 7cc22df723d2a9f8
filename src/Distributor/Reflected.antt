-- ===== src/Distributor/Reflected.antt =====
-- The checks by reflection at the start of `Distribute` (distribute.go): `checkReceiverType` and
-- `checkDataType`. A Go type is a slice, a pointer or another one; which types implement the two
-- interfaces are parameters.
use hraftd.Common.{◌≡◌, refl, arith, Bool, true, false, not, Option, none, some, if◌then◌else◌}
use hraftd.Common.Text.{Text}

pub data GoType : Type 0 where
  slice ptr : GoType → GoType
  named : Text → GoType

-- rt and rtPtr of checkReceiverType: the type of a value, and that of a pointer to it
unfoldable pub receiver : GoType → GoType × GoType
receiver (ptr t) = (t, ptr t)
receiver (slice t) = (slice t, ptr (slice t))
receiver (named t) = (named t, ptr (named t))

-- checkReceiverType; `none` is the panic
unfoldable pub check_receiver_type : (implements_applier : GoType → Bool) → GoType → Option GoType
check_receiver_type implements_applier empty_receiver =
    let (rt, rt_ptr) = receiver empty_receiver in
    if not (implements_applier rt_ptr) then none else some rt

-- Distributor.checkDataType: the type of the items
unfoldable pub check_data_type : (implements_identifier : GoType → Bool) → GoType → Option GoType
check_data_type implements_identifier (slice t) =
    if not (implements_identifier t) then none else some t
check_data_type implements_identifier (ptr t) = none
check_data_type implements_identifier (named t) = none

abbrev pub is_ptr : GoType → Bool
is_ptr (ptr t) = true
is_ptr (slice t) = false
is_ptr (named t) = false

-- A receiver may be handed in as a value of a type that is no pointer, or as a pointer to it: the same
-- type is taken of both, or both panic.
pub check_receiver_type-ptr :
    (implements_applier : GoType → Bool) (t : GoType)
    → is_ptr t ≡ false
    → check_receiver_type implements_applier (ptr t) ≡ check_receiver_type implements_applier t
unfolding check_receiver_type receiver
check_receiver_type-ptr implements_applier (ptr t) h = ground arith
check_receiver_type-ptr implements_applier (slice t) h = refl
check_receiver_type-ptr implements_applier (named t) h = refl
