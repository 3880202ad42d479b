-- ===== src/SetupData.antt =====
-- kernel/usb/setupdata.hpp: the eight bytes of a control request.
use mikanos_m1mac.Base.{ℕ, Bool, true, ◌==◌, ◌≡◌, subst, ◌↔◌, Eq, arith, ◌&&◌, field, set_field}

pub record SetupData : Type 0 where
  pub request_type : ℕ
  pub request : ℕ
  pub value : ℕ
  pub index : ℕ
  pub length : ℕ

-- The bit fields of `request_type`.
abbrev pub recipient : SetupData → ℕ
recipient s = field 0 5 s.request_type

abbrev pub class : SetupData → ℕ
class s = field 5 2 s.request_type

abbrev pub direction : SetupData → ℕ
direction s = field 7 1 s.request_type

-- `request_type.bits` with all three fields written.
abbrev pub request_bits : ℕ → ℕ → ℕ → ℕ
request_bits direction class recipient =
    set_field 0 5 recipient (set_field 5 2 class (set_field 7 1 direction 0))

-- `request_type` and `request`: the constants that the driver uses.
abbrev pub to_device : ℕ
to_device = 0

abbrev pub to_interface : ℕ
to_interface = 1

abbrev pub standard_request : ℕ
standard_request = 0

abbrev pub class_request : ℕ
class_request = 1

abbrev pub dir_out : ℕ
dir_out = 0

abbrev pub dir_in : ℕ
dir_in = 1

abbrev pub get_descriptor : ℕ
get_descriptor = 6

abbrev pub set_configuration : ℕ
set_configuration = 9

abbrev pub set_protocol : ℕ
set_protocol = 11

-- `operator ==`
abbrev pub same_request : SetupData → SetupData → Bool
same_request a b =
    (a.request_type == b.request_type)
    && (a.request == b.request)
    && (a.value == b.value)
    && (a.index == b.index)
    && (a.length == b.length)

same_request→path : (a b : SetupData) → same_request a b ≡ true → a ≡ b
same_request→path a b h =
    λ i. record { request_type = p0 i; request = p1 i; value = p2 i; index = p3 i; length = p4 i }
  where
    p0 : a.request_type ≡ b.request_type
    p0 = ground arith

    p1 : a.request ≡ b.request
    p1 = ground arith

    p2 : a.value ≡ b.value
    p2 = ground arith

    p3 : a.index ≡ b.index
    p3 = ground arith

    p4 : a.length ≡ b.length
    p4 = ground arith

same_request_self : (a : SetupData) → same_request a a ≡ true
same_request_self a = ground arith

pub same_request_iff : (a b : SetupData) → (same_request a b ≡ true) ↔ (a ≡ b)
same_request_iff a b =
    (same_request→path a b, λ e. subst (λ c. same_request a c ≡ true) e (same_request_self a))

instance abbrev pub setup_Eq : Eq SetupData
setup_Eq = record { beq = same_request; beq_iff = same_request_iff }
