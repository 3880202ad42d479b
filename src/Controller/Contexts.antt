-- ===== src/Controller/Contexts.antt =====
-- What the controller reads in the contexts that the driver writes.
use mikanos_m1mac.Base.{
  ℕ, zero, suc, ◌+◌, ◌*◌, ◌%◌, ◌^◌, ◌<◌, ◌≤◌, ◌≡◌, refl, sym, subst, ap, ◌∙◌, u32, leb, ◌==◌, ◌||◌,
  if◌then◌else◌, Bool, Bool-cases, true, false, inl, inr, ◌∷◌, arith,
}
use mikanos_m1mac.Context.{
  Words, ep_interval, error_count, ep_type, max_packet_size, dequeue_cycle_state,
  transfer_ring_buffer, root_hub_port_num, slot_speed, context_entries,
}
use mikanos_m1mac.Descriptor.{EndpointDescriptor, transfer_type, dir_in}
use mikanos_m1mac.Usb.{endpoint_type, make_ep_config}
use mikanos_m1mac.Usb.Reader.{make_ep_config-fields}
use mikanos_m1mac.Controller.Bounds.{most_significant_bit-bounds}
use mikanos_m1mac.Controller.Address.{initialize_slot_context, initialize_ep0_context}
use mikanos_m1mac.Controller.Endpoints.{
  describe_endpoint, attach_ring, convert_interval, ep_type_code, most_significant_bit,
  is_isochronous, full_speed, low_speed,
}

-- The default control pipe as `InitializeEP0Context` describes it, for an aligned ring.
pub ep0_fields :
    (w0 w1 w2 w3 : ℕ) (rest : Words) (buffer size : ℕ)
    → buffer % 16 ≡ 0
    → buffer < 2 ^ 64
    → size < 2 ^ 16
    → let c = initialize_ep0_context buffer size (w0 ∷ w1 ∷ w2 ∷ w3 ∷ rest) in
      (ep_type c ≡ 4)
      × (max_packet_size c ≡ size)
      × (transfer_ring_buffer c ≡ buffer)
      × (dequeue_cycle_state c ≡ 1)
      × (error_count c ≡ 3)
      × (ep_interval c ≡ 0)
unfolding initialize_ep0_context
ep0_fields w0 w1 w2 w3 rest buffer size aligned lt small = omega arith

-- The slot context as `InitializeSlotContext` describes it.
pub slot_fields :
    (w0 w1 : ℕ) (rest : Words) (port_num port_speed : ℕ)
    → port_num < 2 ^ 8
    → port_speed < 2 ^ 4
    → let c = initialize_slot_context port_num port_speed (w0 ∷ w1 ∷ rest) in
      (root_hub_port_num c ≡ port_num) × (slot_speed c ≡ port_speed) × (context_entries c ≡ 1)
unfolding initialize_slot_context
slot_fields w0 w1 rest port_num port_speed lt small = omega arith

-- The code of an endpoint in its context, as xHCI numbers them: the transfer type of the descriptor,
-- and 4 more for an input; a control endpoint, of type 0, has 4 in both directions.
abbrev pub endpoint_code : ℕ → ℕ → ℕ
endpoint_code type in_dir = if type == 0 then 4 else type + 4 * in_dir

-- The exponent `v` of a period of 2 ^ `v` times 125 microseconds, for the descriptor's interval `n`, by
-- whether the port has low or full speed, and whether the endpoint is isochronous: `n` is the
-- exponent, in frames of a millisecond or in microframes of an eighth, and one more; for the other
-- endpoints of slow ports it is a number of milliseconds, and the period the longest that is no
-- longer.
abbrev pub HasInterval : Bool → Bool → ℕ → ℕ → Type 0
HasInterval true true n v = v ≡ (n + 2) % 2 ^ 8
HasInterval true false n v = (2 ^ v ≤ 8 * n) × (8 * n < 2 ^ suc v)
HasInterval false is_iso n v = v + 1 ≡ n

code_lem :
    (t : ℕ) (in_dir : ℕ)
    → t < 4
    → in_dir < 2
    → ep_type_code (endpoint_type t) (in_dir == 1) ≡ endpoint_code t in_dir
code_lem zero in_dir h g = refl
code_lem (suc zero) in_dir h g = ground arith
code_lem (suc (suc zero)) in_dir h g = ground arith
code_lem (suc (suc (suc zero))) in_dir h g = ground arith
code_lem (suc (suc (suc (suc t)))) in_dir h g = absurd (omega arith)

code_small : (t in_dir : ℕ) → t < 4 → in_dir < 2 → endpoint_code t in_dir < 2 ^ 3
code_small t in_dir h g = ground arith

iso_lem : (t : ℕ) → t < 4 → is_isochronous (endpoint_type t) ≡ (t == 1)
iso_lem zero h = refl
iso_lem (suc zero) h = refl
iso_lem (suc (suc zero)) h = refl
iso_lem (suc (suc (suc zero))) h = refl
iso_lem (suc (suc (suc (suc t)))) h = absurd (omega arith)

-- The period of an endpoint that is not isochronous, in milliseconds.
slow-HasInterval :
    (n : ℕ)
    → 0 < n
    → n < 2 ^ 8
    → HasInterval true false n (u32 (most_significant_bit n + 3) % 2 ^ 8)
slow-HasInterval n pos small =
    let (low, high, k_small) =
      most_significant_bit-bounds n (omega arith) (λ z. omega (arith, z)) in
    let same : u32 (most_significant_bit n + 3) % 2 ^ 8 ≡ suc (suc (suc (most_significant_bit n))) =
      omega (arith, k_small) in
    rw same (omega (arith, low), omega (arith, high))

interval_lem :
    (port_speed t n : ℕ)
    → 0 < port_speed
    → t < 4
    → 0 < n
    → n < 2 ^ 8
    → HasInterval
        (leb port_speed 2)
        (t == 1)
        n
        (convert_interval port_speed (endpoint_type t) n % 2 ^ 8)
unfolding convert_interval
interval_lem port_speed t n fast h pos small = elim (Bool-cases (leb port_speed 2)) [
  | inl slow ↦
      let is_slow : (port_speed == full_speed) || (port_speed == low_speed) ≡ true = ground arith in
      elim (Bool-cases (t == 1)) [
        | inl iso ↦ rw (slow, is_slow, iso_lem t h, iso) (omega arith)
        | inr other ↦ rw (slow, is_slow, iso_lem t h, other) (slow-HasInterval n pos small)
      ]
  | inr quick ↦
      let is_quick : (port_speed == full_speed) || (port_speed == low_speed) ≡ false =
        ground arith in
      rw (quick, is_quick) (omega arith)
]

-- An endpoint from its descriptor to its context: whatever the context held before, the two updates
-- that `ConfigureEndpoints` makes of it, for the configuration that `MakeEPConfig` makes of the
-- descriptor, leave in it xHCI's code for the descriptor's type and direction, its packet size, its
-- interval as xHCI counts it, the address of the ring, which is aligned, with the cycle bit 1, and
-- three errors before it halts. The interval is 1 to 255, and the speed of the port is known.
pub endpoint_fields :
    (w0 w1 w2 w3 w4 : ℕ) (rest : Words) (buffer port_speed : ℕ) (d : EndpointDescriptor)
    → buffer % 16 ≡ 0
    → buffer < 2 ^ 64
    → d.max_packet_size < 2 ^ 16
    → 0 < port_speed
    → 0 < d.interval
    → d.interval < 2 ^ 8
    → let c =
        attach_ring buffer
          (describe_endpoint port_speed (make_ep_config d) (w0 ∷ w1 ∷ w2 ∷ w3 ∷ w4 ∷ rest)) in
      (ep_type c ≡ endpoint_code (transfer_type d) (dir_in d))
      × (max_packet_size c ≡ d.max_packet_size)
      × HasInterval (leb port_speed 2) (transfer_type d == 1) d.interval (ep_interval c)
      × (transfer_ring_buffer c ≡ buffer)
      × (dequeue_cycle_state c ≡ 1)
      × (error_count c ≡ 3)
unfolding attach_ring describe_endpoint make_ep_config
endpoint_fields w0 w1 w2 w3 w4 rest buffer port_speed d aligned lt size fast pos small =
    let code =
      ap (ep_type_code (endpoint_type (transfer_type d))) (make_ep_config-fields d).1
      ∙ code_lem (transfer_type d) (dir_in d) (omega arith) (omega arith) in
    let v = convert_interval port_speed (endpoint_type (transfer_type d)) d.interval in
    let kept : ep_interval (
          attach_ring buffer
            (describe_endpoint port_speed (make_ep_config d) (w0 ∷ w1 ∷ w2 ∷ w3 ∷ w4 ∷ rest)))
        ≡ v % 2 ^ 8 =
      omega arith in
    (
      omega (arith, code, code_small (transfer_type d) (dir_in d) (omega arith) (omega arith)),
      omega arith,
      subst (HasInterval (leb port_speed 2) (transfer_type d == 1) d.interval) (sym kept)
          (interval_lem port_speed (transfer_type d) d.interval fast (omega arith) pos small),
      omega arith,
      omega arith,
      omega arith,
    )
