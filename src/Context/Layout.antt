-- ===== src/Context/Layout.antt =====
-- The bitmaps of kernel/usb/xhci/context.hpp as declared: the widths of their fields in order, those
-- without a name included.
use mikanos_m1mac.Base.{ℕ, ◌*◌, ◌/◌, ◌%◌, ◌≡◌, refl, [], ◌∷◌, get_or, arith}
use mikanos_m1mac.Registers.Layout.{Layout, offset_of, total}
use mikanos_m1mac.Context.{
  Words, get_bits, set_bits, set_route_string, slot_speed, context_entries, root_hub_port_num,
  set_mult, set_max_primary_streams, ep_interval, error_count, ep_type, set_max_burst_size,
  max_packet_size, dequeue_cycle_state, set_average_trb_length,
}

abbrev pub slot_context_bitmap : Layout
slot_context_bitmap = 20 ∷ 4 ∷ 1 ∷ 1 ∷ 1 ∷ 5 ∷ 16 ∷ 8 ∷ 8 ∷ 8 ∷ 8 ∷ 2 ∷ 4 ∷ 10 ∷ 8 ∷ 19 ∷ 5 ∷ []

abbrev pub endpoint_context_bitmap : Layout
endpoint_context_bitmap =
    3 ∷ 5 ∷ 2 ∷ 5 ∷ 1 ∷ 8 ∷ 8 ∷ 1 ∷ 2 ∷ 3 ∷ 1 ∷ 1 ∷ 8 ∷ 16 ∷ 1 ∷ 3 ∷ 60 ∷ 16 ∷ 16 ∷ []

-- The field `i` of the layout, in the word of 32 bits where it starts.
abbrev pub get : Layout → ℕ → Words → ℕ
get layout i = get_bits (offset_of layout i / 32) (offset_of layout i % 32) (get_or layout i 0)

abbrev pub put : Layout → ℕ → ℕ → Words → Words
put layout i = set_bits (offset_of layout i / 32) (offset_of layout i % 32) (get_or layout i 0)

-- Four and five words are described; the rest of the eight is not named.
contexts_described : (total slot_context_bitmap ≡ 4 * 32) × (total endpoint_context_bitmap ≡ 5 * 32)
contexts_described = omega arith

-- The fields of a slot context stand where the bitmap has them.
slot_context_fields :
    (v : ℕ) (c : Words)
    → (set_route_string v c ≡ put slot_context_bitmap 0 v c)
      × (slot_speed c ≡ get slot_context_bitmap 1 c)
      × (context_entries c ≡ get slot_context_bitmap 5 c)
      × (root_hub_port_num c ≡ get slot_context_bitmap 7 c)
slot_context_fields v c = (refl, refl, refl, refl)

-- So do those of an endpoint context.
endpoint_context_fields :
    (v : ℕ) (c : Words)
    → (set_mult v c ≡ put endpoint_context_bitmap 2 v c)
      × (set_max_primary_streams v c ≡ put endpoint_context_bitmap 3 v c)
      × (ep_interval c ≡ get endpoint_context_bitmap 5 c)
      × (error_count c ≡ get endpoint_context_bitmap 8 c)
      × (ep_type c ≡ get endpoint_context_bitmap 9 c)
      × (set_max_burst_size v c ≡ put endpoint_context_bitmap 12 v c)
      × (max_packet_size c ≡ get endpoint_context_bitmap 13 c)
      × (dequeue_cycle_state c ≡ get endpoint_context_bitmap 14 c)
      × (set_average_trb_length v c ≡ put endpoint_context_bitmap 17 v c)
endpoint_context_fields v c = (refl, refl, refl, refl, refl, refl, refl, refl, refl)
