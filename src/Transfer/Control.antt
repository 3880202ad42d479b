-- ===== src/Transfer/Control.antt =====
-- A control transfer from `ControlIn` to its completion.
use mikanos_m1mac.Base.{
  ℕ, ◌+◌, ◌-◌, ◌*◌, ◌^◌, ◌≤◌, ◌<◌, ◌≡◌, ◌≢◌, refl, sym, ◌∙◌, ap, subst, true, false, ◌==◌, ==_self,
  ltb, if◌then◌else◌, none, some, Bool-cases, inl, inr, nat_Eq, get_or, arith,
}
use mikanos_m1mac.Errors.{success}
use mikanos_m1mac.Trb.{Trb, IsWords, trb_type}
use mikanos_m1mac.Trb.DataStage as DataStage
use mikanos_m1mac.Trb.SetupStage as SetupStage
use mikanos_m1mac.Trb.StatusStage as StatusStage
use mikanos_m1mac.Trb.TransferEvent as TransferEvent
use mikanos_m1mac.ArrayMap.{get, delete, put}
use mikanos_m1mac.ArrayMap.Keys.{room}
use mikanos_m1mac.ArrayMap.Laws.{get-put}
use mikanos_m1mac.Ring.{Ring, address, push}
use mikanos_m1mac.Ring.Writes.{stamp, push-address}
use mikanos_m1mac.Ring.Invariant.{IsRing, last_slot, slot}
use mikanos_m1mac.Ring.Pushes.{Pushes, push-Pushes}
use mikanos_m1mac.SetupData.{SetupData}
use mikanos_m1mac.Endpoint.{ep_number}
use mikanos_m1mac.Transfer.{
  Device, make_setup_stage_trb, ring_at, wait, control_in, with_data, push_setup, submit, remember,
}
use mikanos_m1mac.Transfer.Setup.{
  IsSetup, data_in, data_in-IsWords, data_in-fields, setup_data_of-make, make_setup_stage-IsWords,
  make_setup_stage-type,
}
use mikanos_m1mac.Transfer.Event.{
  Completions, on_transfer_event, complete_control, is_completed, minus32,
}

status-IsWords : IsWords StatusStage.new
status-IsWords = record {
  word0 = omega arith;
  word1 = omega arith;
  word2 = omega arith;
  word3 = omega arith;
}

-- The ring after the three stages of `ControlIn`.
abbrev pub sent : SetupData → ℕ → ℕ → Ring → Ring
sent s buf len r =
    (push StatusStage.new
      (push (data_in buf len) (push (make_setup_stage_trb s SetupStage.in_data_stage) r).1).1).1

-- A control read that can be sent: an endpoint with a ring, a buffer, a request in range, room for
-- three stages in front of the link, and a place in the map.
pub record CanSend (ep_id buf len issuer : ℕ) (s : SetupData) (r : Ring) (dev : Device)
    : Type 0 where
  pub number : ep_number ep_id ≤ 15
  pub ring : IsRing r
  pub attached : ring_at ep_id dev ≡ some r
  pub some_buf : buf ≢ 0
  pub buf_word : buf < 2 ^ 64
  pub len_bits : len < 2 ^ 17
  pub request : IsSetup s
  pub stages : r.write_index + 3 < last_slot r
  pub unused : get (address r.buf + 16 * (r.write_index + 1)) dev.setup_stage_map ≡ none
  pub free : 0 < room dev.setup_stage_map

module _ (ep_id buf len issuer : ℕ) (s : SetupData) (r : Ring) (dev : Device)
    (can : CanSend ep_id buf len issuer s r dev) where
  abbrev pub next : ℕ
  next = address r.buf + 16 * (r.write_index + 1)

  -- The map without the data stage.
  abbrev pub forget : Device → Device
  forget d = record d { setup_stage_map = delete next d.setup_stage_map }

  abbrev r1 : Ring
  r1 = (push (make_setup_stage_trb s SetupStage.in_data_stage) r).1

  abbrev r2 : Ring
  r2 = (push (data_in buf len) r1).1

  first : Pushes (make_setup_stage_trb s SetupStage.in_data_stage) r r1
  first = push-Pushes _ r (make_setup_stage-IsWords s 3) can.ring (omega (arith, can.stages))

  second : Pushes (data_in buf len) r1 r2
  second =
      push-Pushes _ r1 (data_in-IsWords buf len) first.ring
        (omega (arith, can.stages, first.moved, first.same_size))

  third : Pushes StatusStage.new r2 (sent s buf len r)
  third =
      push-Pushes _ r2 status-IsWords second.ring
        (omega (arith, can.stages, first.moved, first.same_size, second.moved, second.same_size))

  setup_placed :
      slot (sent s buf len r) r.write_index ≡ stamp r.cycle_bit (make_setup_stage_trb s 3)
  setup_placed =
      third.kept r.write_index (λ e. omega (arith, first.moved, second.moved))
      ∙ second.kept r.write_index (λ e. omega (arith, first.moved))
      ∙ first.placed

  data_placed : slot (sent s buf len r) (r.write_index + 1) ≡ stamp r.cycle_bit (data_in buf len)
  data_placed =
      third.kept (r.write_index + 1) (λ e. omega (arith, first.moved, second.moved))
      ∙ subst (λ (i : ℕ). slot r2 i ≡ stamp r1.cycle_bit (data_in buf len)) first.moved
          second.placed
      ∙ ap (λ c. stamp c (data_in buf len)) first.same_cycle

  abbrev here : ℕ
  here = address r.buf + 16 * r.write_index

  -- What `ControlIn` leaves behind.
  abbrev after : Device
  after = submit ep_id (sent s buf len r) (remember next here (wait s issuer dev))

  wait-transfer_rings : (wait s issuer dev).transfer_rings ≡ dev.transfer_rings
  wait-transfer_rings = elim (Bool-cases (issuer == 0)) [ inl e ↦ rw e refl | inr e ↦ rw e refl ]

  wait-setup_stage_map : (wait s issuer dev).setup_stage_map ≡ dev.setup_stage_map
  wait-setup_stage_map = elim (Bool-cases (issuer == 0)) [ inl e ↦ rw e refl | inr e ↦ rw e refl ]

  ring_at-wait : ring_at ep_id (wait s issuer dev) ≡ some r
  ring_at-wait =
      ap (λ rings. if ep_id == 0 then none else get_or rings (ep_id - 1) none) wait-transfer_rings
      ∙ can.attached

  push_setup-here : push_setup s SetupStage.in_data_stage r ≡ (here, r1)
  push_setup-here =
      rw
        (
          first.placed,
          make_setup_stage-type s 3 r.cycle_bit,
          push-address (make_setup_stage_trb s 3) r,
        )
        refl

  data-next : (push (data_in buf len) r1).0 ≡ next
  data-next = push-address (data_in buf len) r1 ∙ omega (arith, first.same_buf, first.moved)

  with_data-after :
      with_data s SetupStage.in_data_stage
        (data_in buf len)
        StatusStage.new
        ep_id
        r
        (wait s issuer dev)
      ≡ after
  unfolding with_data
  with_data-after =
      ap
        (λ (setup : ℕ × Ring).
          let position = push (data_in buf len) setup.1 in
          submit ep_id (push StatusStage.new position.1).1
            (remember position.0 setup.0 (wait s issuer dev)))
        push_setup-here
      ∙ ap (λ p. submit ep_id (sent s buf len r) (remember p here (wait s issuer dev))) data-next

  control_in-after : control_in ep_id s buf len issuer dev ≡ (success, after)
  unfolding control_in
  control_in-after = rw (low, ring_at-wait, given) (ap (λ d. (success, d)) with_data-after)
    where
      low : ltb 15 (ep_number ep_id) ≡ false
      low = ground (arith, can.number)

      given : buf == 0 ≡ false
      given = ground (arith, can.some_buf)

  setup_stage_map-after : get next after.setup_stage_map ≡ some here
  setup_stage_map-after =
      subst (λ table. get next (put next here table) ≡ some here) (sym wait-setup_stage_map)
        (get-put next next here dev.setup_stage_map can.unused can.free ∙ rw (==_self next) refl)

  module _ (load : ℕ → Trb) (completions : Completions) (trb : Trb)
      (shown : (i : ℕ) → i < r.buf_size → load (address r.buf + 16 * i) ≡ slot (sent s buf len r) i)
      (issued : TransferEvent.pointer trb ≡ next)
      (done : is_completed (TransferEvent.completion_code trb) ≡ true) where
    load_setup : load here ≡ stamp r.cycle_bit (make_setup_stage_trb s 3)
    load_setup = shown r.write_index (omega (arith, can.stages)) ∙ setup_placed

    load_data : load next ≡ stamp r.cycle_bit (data_in buf len)
    load_data = shown (r.write_index + 1) (omega (arith, can.stages)) ∙ data_placed

    f :
        (trb_type (stamp r.cycle_bit (data_in buf len)) ≡ 3)
        × (DataStage.pointer (stamp r.cycle_bit (data_in buf len)) ≡ buf)
        × (DataStage.trb_transfer_length (stamp r.cycle_bit (data_in buf len)) ≡ len)
    f = data_in-fields buf len r.cycle_bit can.buf_word can.len_bits

    complete_control-after :
        (d : Device)
        → complete_control load completions trb (load next) (load here) d
          ≡ completions.on_control
              (TransferEvent.endpoint_id trb)
              s
              buf
              (minus32 len (TransferEvent.trb_transfer_length trb))
              d
    unfolding complete_control
    complete_control-after d =
        rw (load_setup, load_data, f.0, f.1, f.2, setup_data_of-make s 3 r.cycle_bit can.request)
          refl

    event-after :
        on_transfer_event load completions trb after
        ≡ completions.on_control
            (TransferEvent.endpoint_id trb)
            s
            buf
            (minus32 len (TransferEvent.trb_transfer_length trb))
            (record after { setup_stage_map = delete next after.setup_stage_map })
    unfolding on_transfer_event
    event-after =
        rw (done, issued, load_data, f.0, setup_stage_map-after, issued)
          (complete_control-after
            (record after { setup_stage_map = delete next after.setup_stage_map }))

    -- A `ControlIn` that can be sent succeeds. When the controller then reports a completed transfer
    -- by an event that names the data stage, while `load` shows the ring as `ControlIn` left it,
    -- `OnTransferEventReceived` does what `OnControlCompleted` does for the request and the buffer
    -- that `ControlIn` was called with, the length asked for less the residual, and a device whose map
    -- no longer has the data stage.
    pub control_in-completes :
        ((control_in ep_id s buf len issuer dev).0 ≡ success)
        × (on_transfer_event load completions trb (control_in ep_id s buf len issuer dev).1
            ≡ completions.on_control
                (TransferEvent.endpoint_id trb)
                s
                buf
                (minus32 len (TransferEvent.trb_transfer_length trb))
                (forget (control_in ep_id s buf len issuer dev).1))
    control_in-completes = rw control_in-after (refl, event-after)
