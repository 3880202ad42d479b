-- ===== src/Usb/Reader.antt =====
-- The descriptor reader: when it comes to an end, and when it does not.
use mikanos_m1mac.Base.{
  ℕ, zero, suc, ◌+◌, ◌*◌, ◌≤◌, ◌<◌, ◌≡◌, refl, ltb, ◌==◌, Bool-cases, inl, inr, true, false, Option,
  none, some, List, arith, bit_or,
}
use mikanos_m1mac.Base.Bits.{bit_or_disjoint, bit_and-low_mask}
use mikanos_m1mac.Descriptor.{byte, is_kind, EndpointDescriptor, number, dir_in}
use mikanos_m1mac.Endpoint.{ep_number, is_in}
use mikanos_m1mac.Outcome.{Outcome, returned, out_of_fuel, undefined}
use mikanos_m1mac.Usb.{next, next_of, make_ep_config}

-- What a search that starts at `p` returns: none at the end of the buffer, or a descriptor of that
-- kind behind `p`, with `p_` on it.
abbrev pub Finds : ℕ → List ℕ → ℕ → ℕ → Outcome (Option ℕ × ℕ) → Type 0
Finds kind buf len p out_of_fuel = ⊥
Finds kind buf len p undefined = ⊥
Finds kind buf len p (returned (none, p')) = len ≤ p'
Finds kind buf len p (returned (some q, p')) =
    (q ≡ p') × (p < q) × (q < len) × (is_kind kind buf q ≡ true)

Finds-from :
    (kind : ℕ) (buf : List ℕ) (len p p' : ℕ) (r : Outcome (Option ℕ × ℕ))
    → p ≤ p'
    → Finds kind buf len p' r
    → Finds kind buf len p r
Finds-from kind buf len p p' out_of_fuel h f = f
Finds-from kind buf len p p' undefined h f = f
Finds-from kind buf len p p' (returned (none, q)) h f = f
Finds-from kind buf len p p' (returned (some q, q')) h f = (f.0, omega (arith, f.1), f.2, f.3)

-- The place of the descriptor that is `n` after the one at `p`.
abbrev pub start : List ℕ → ℕ → ℕ → ℕ
start buf p zero = p
start buf p (suc n) = start buf (p + byte buf p) n

-- Where no descriptor from `p` on has length 0, the search for a kind of descriptor that starts at
-- `p` ends: it finds one of that kind behind `p`, or comes to the end of the buffer. As many steps as
-- bytes are left and one more are enough.
pub next_of-Finds :
    (kind : ℕ) (buf : List ℕ) (len fuel p : ℕ)
    → ((n : ℕ) → start buf p n < len → 1 ≤ byte buf (start buf p n))
    → p < len
    → len < fuel + p
    → Finds kind buf len p (next_of kind buf len fuel p)
unfolding next_of next
next_of-Finds kind buf len zero p positive h k = absurd (omega arith)
next_of-Finds kind buf len (suc fuel) p positive h k =
    elim (Bool-cases (ltb (p + byte buf p) len)) [
      | inr end ↦ rw (end, next_of, next) (ground arith)
      | inl inside ↦ elim (Bool-cases (is_kind kind buf (p + byte buf p))) [
        | inl found ↦
            rw (inside, next_of, next, found)
              (refl, omega (arith, positive 0 h), ground arith, found)
        | inr other ↦
            rw (inside, next_of, next, other)
              (Finds-from kind buf len p (p + byte buf p) _ (omega arith) (
                next_of-Finds kind buf len fuel (p + byte buf p) (λ n. positive (suc n))
                  (ground arith) (omega (arith, positive 0 h))))
      ]
    ]

-- A descriptor of length 0 that is not of the kind looked for is read again and again: no amount of
-- fuel is enough.
pub next_of-endless :
    (kind : ℕ) (buf : List ℕ) (len fuel p : ℕ)
    → byte buf p ≡ 0
    → p < len
    → is_kind kind buf p ≡ false
    → next_of kind buf len fuel p ≡ out_of_fuel
unfolding next_of next
next_of-endless kind buf len zero p stuck h other = refl
next_of-endless kind buf len (suc fuel) p stuck h other =
    rw (at_rest, next_of, next, inside, other, at_rest)
      (next_of-endless kind buf len fuel p stuck h other)
  where
    at_rest : p + byte buf p ≡ p
    at_rest = omega arith

    inside : ltb p len ≡ true
    inside = ground arith

-- The endpoint that a configuration names has the descriptor's number, and is an input exactly if
-- the descriptor's direction bit is set.
pub make_ep_config-fields :
    (d : EndpointDescriptor)
    → (ep_number (make_ep_config d).ep_id ≡ number d)
      × (is_in (make_ep_config d).ep_id ≡ (dir_in d == 1))
unfolding make_ep_config
make_ep_config-fields d = elim (Bool-cases (dir_in d == 1)) [
  | inl e ↦
      rw e (
        ground
          (arith, bit_or_disjoint 1 (number d) 1, bit_and-low_mask 1 (bit_or (number d * 2) 1)))
  | inr e ↦
      rw e (
        ground
          (arith, bit_or_disjoint 1 (number d) 0, bit_and-low_mask 1 (bit_or (number d * 2) 0)))
]
