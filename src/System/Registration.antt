-- ===== src/System/Registration.antt =====
-- `register_lambda` of riotmodule/rs.c, and its packet at `handle_received_packet` of
-- linuxconnector/rs_connector.c.
use riotsensors.Prelude.{
  ℕ, ◌<◌, ◌≡◌, refl, ap, sym, ◌∙◌, inl, inr, List, [], ◌∷◌, ◌++◌, true, false, ◌&&◌, not, some,
  arith, ◌==◌, length, length-append, Bool-cases,
}
use riotsensors.Prelude.Int.{ℤ, is_negative}
use riotsensors.CString.{strlen, strcpy}
use riotsensors.CString.Laws.{c_str-strcpy, length-strcpy}
use riotsensors.Registry.{Block, Registry, lambda_registry_register}
use riotsensors.Packets.{Host, Doubles, RegisteredPacket, ntoh_rs_packet_registered_t}
use riotsensors.Packets.Layout.{registered_bytes, read_registered}
use riotsensors.Packets.RoundTrip.{registered_round_trip}
use riotsensors.Connector.State.{Connector, Memory, Garbage, new_linux_lambda}
use riotsensors.Connector.Handler.{on_registered, handle_received_packet}
use riotsensors.Board.State.{Board, spt_send_packet}
use riotsensors.Board.Calls.{register_lambda, registered_packet, announce}
use riotsensors.System.Mirror.{IsMirror, register-SameOutcome}

module _ {D : Type 0} (h : Host) (d : Doubles D) (c : Connector D) (mem : Memory D) (g : Garbage D)
    (block' : Block) (stack name : List ℕ) (type cache : ℕ) (fresh : mem.fresh ≡ some g)
    (allocated : mem.block ≡ some block') (room : length stack ≡ 12) where
  -- The connector after the packet of a registration.
  abbrev with_lambda : Connector D
  with_lambda = record {
    registry =
        (lambda_registry_register c.registry (strcpy stack name ++ type ∷ cache ∷ mem.stack) type
          cache (length c.heap) (some block')).0;
    heap = c.heap ++ new_linux_lambda g ∷ [];
  }

  announced :
      handle_received_packet h d c mem (registered_packet stack name type cache) ≡ some with_lambda
  unfolding handle_received_packet on_registered
  announced = rw (size, same, fresh, allocated) refl
    where
      packet : RegisteredPacket
      packet = record { ptype = 1; name = strcpy stack name; ltype = type; cache = cache }

      array : length (strcpy stack name) ≡ 12
      array = length-strcpy stack name ∙ room

      size : length (registered_bytes packet) ≡ 15
      size = omega (arith, length-append (strcpy stack name) (type ∷ cache ∷ []), array)

      same : ntoh_rs_packet_registered_t (read_registered (registered_bytes packet)) ≡ packet
      same = registered_round_trip packet array

module _ (b : Board) (stack name : List ℕ) (type cache : ℕ) where
  -- What a registration that succeeds does on a board whose serial line is open.
  announce_sent :
      (out : Registry ℕ × ℤ)
      → b.rs_spt_started ≡ true
      → is_negative (announce b stack name type cache out).1 ≡ false
      → announce b stack name type cache out ≡ (
        spt_send_packet (record b { registry = out.0 }) (registered_packet stack name type cache),
        out.1,
      )
  announce_sent out started ok = elim (Bool-cases (is_negative out.1)) [
    | inl bad ↦ let q : is_negative out.1 ≡ false = rw bad at ok in cc (bad, q)
    | inr good ↦ rw (good, started) refl
  ]

  pub register_sent :
      (lambda : ℕ) (block : Block)
      → b.rs_spt_started ≡ true
      → is_negative (register_lambda b name lambda type cache (some block) stack).1 ≡ false
      → register_lambda b name lambda type cache (some block) stack ≡ (
        spt_send_packet
            (record b {
              registry =
                  (lambda_registry_register b.registry name type cache lambda (some block)).0;
            })
            (registered_packet stack name type cache),
        (lambda_registry_register b.registry name type cache lambda (some block)).1,
      )
  unfolding register_lambda
  register_sent lambda block started ok = elim (Bool-cases (lambda == 0 && not (cache == 3))) [
    | inl null ↦ let q : true ≡ false = rw null at ok in cc q
    | inr fine ↦ rw fine (
        announce_sent (lambda_registry_register b.registry name type cache lambda (some block))
          started (rw fine at ok))
  ]

module _ {D : Type 0} (h : Host) (d : Doubles D) where
  -- If the registries of a running board and of the connector hold the same lambdas under the same
  -- ids, and `register_lambda` reports an id for a name of fewer than twelve characters, with memory
  -- on both sides, they do so again once the connector has handled the packet.
  pub registration_mirrored :
      (b : Board) (c : Connector D) (name : List ℕ) (lambda type cache : ℕ) (block block' : Block)
      (stack : List ℕ) (mem : Memory D) (g : Garbage D)
      → IsMirror b.registry c.registry
      → b.rs_spt_started ≡ true
      → strlen name < 12
      → length stack ≡ 12
      → length block.name ≡ 12
      → length block'.name ≡ 12
      → mem.fresh ≡ some g
      → mem.block ≡ some block'
      → is_negative (register_lambda b name lambda type cache (some block) stack).1 ≡ false
      → (c' : Connector D) × ((register_lambda b name lambda type cache (some block) stack).0.sent
          ≡ b.sent ++ registered_packet stack name type cache ∷ [])
        × (handle_received_packet h d c mem (registered_packet stack name type cache) ≡ some c')
        × IsMirror
            (register_lambda b name lambda type cache (some block) stack).0.registry
            c'.registry
  registration_mirrored b c name lambda type cache block block' stack mem g m started short room
        size size' fresh allocated ok =
      let sent = register_sent b stack name type cache lambda block started ok in
      let same =
        register-SameOutcome b.registry c.registry name
          (strcpy stack name ++ type ∷ cache ∷ mem.stack) type cache lambda (length c.heap) block
          block' m
          (sym (c_str-strcpy stack name (type ∷ cache ∷ mem.stack) (omega (arith, short, room))))
          short size size' in
      (
        with_lambda h d c mem g block' stack name type cache fresh allocated room,
        ap (λ o. o.0.sent) sent,
        announced h d c mem g block' stack name type cache fresh allocated room,
        rw sent same.mirror,
      )
