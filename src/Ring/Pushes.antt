-- ===== src/Ring/Pushes.antt =====
-- `Push` in front of the last slot, as what it changes and what it keeps.
use mikanos_m1mac.Base.{
  ℕ, ◌+◌, ◌<◌, ◌≡◌, ◌≢◌, refl, sym, subst, get_or-set_self, get_or-set_ne, arith,
}
use mikanos_m1mac.Trb.{Trb, IsWords, zero_trb}
use mikanos_m1mac.Ring.{Ring, address, push}
use mikanos_m1mac.Ring.Writes.{stamp}
use mikanos_m1mac.Ring.Invariant.{IsRing, last_slot, slot, stepped, push-stepped, push-IsRing}

-- What a push in front of the last slot does.
pub record Pushes (t : Trb) (r r' : Ring) : Type 0 where
  pub ring : IsRing r'
  pub placed : slot r' r.write_index ≡ stamp r.cycle_bit t
  pub kept : (i : ℕ) → i ≢ r.write_index → slot r' i ≡ slot r i
  pub moved : r'.write_index ≡ r.write_index + 1
  pub same_cycle : r'.cycle_bit ≡ r.cycle_bit
  pub same_buf : address r'.buf ≡ address r.buf
  pub same_size : last_slot r' ≡ last_slot r

pub push-Pushes :
    (t : Trb) (r : Ring)
    → IsWords t
    → IsRing r
    → r.write_index + 1 < last_slot r
    → Pushes t r (push t r).1
unfolding stepped
push-Pushes t r w v h =
    subst (λ r'. Pushes t r r') (sym (push-stepped t r w v h))
      (record {
        ring = subst IsRing (push-stepped t r w v h) (push-IsRing t r w v);
        placed =
            get_or-set_self r.mem r.write_index (stamp r.cycle_bit t) zero_trb
              (omega (arith, v.memory, v.in_range));
        kept = λ i ne.
            get_or-set_ne r.mem r.write_index i (stamp r.cycle_bit t) zero_trb (λ e. ne (sym e));
        moved = refl;
        same_cycle = refl;
        same_buf = refl;
        same_size = refl;
      })
