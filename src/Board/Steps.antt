-- ===== src/Board/Steps.antt =====
-- The operations of riotmodule/rs.c as steps of the board from the program's start.
use mathlib.Core.Option
use riotsensors.Prelude.{
  ℕ, ◌≡◌, refl, sym, ◌⊎◌, inl, inr, List, [], ◌∷◌, ◌++◌, true, ◌&&◌, not, Option, none, some, ◌==◌,
}
use riotsensors.Prelude.Int.{ℤ, is_negative}
use riotsensors.Registry.{RegisteredLambda, Block, Registry, get_registered_lambda_by_id}
use riotsensors.Registry.Invariant.{
  IsValid, IsAllocated, register, step, initial-IsValid, init-IsValid, free-IsValid,
  unregister-IsValid, step-IsValid,
}
use riotsensors.Packets.{Host, Doubles}
use riotsensors.Board.State.{Board, Lambdas, power_on, spt_send_packet, rs_start, rs_stop}
use riotsensors.Board.Calls.{
  announce, register_lambda, registered_packet, unregistered_packet, unregistered, unregister_found,
  unregister_lambda, send_result_lambda_int, send_result_lambda_double, send_result_lambda_string,
  int_packet, double_packet, string_packet,
}
use riotsensors.Board.Handler.{handle_received_packet}
use riotsensors.Board.Sends.{
  Sends, if_holds, AllSend, send_result-Sends, handle_received_packet-Sends,
}

module _ {D : Type 0} (h : Host) (d : Doubles D) where
  -- The operations of the library and the packets of the line, in any order.
  pub data BoardStep (b : Board) : Board → Type 0 where
    starts : BoardStep b (rs_start b)
    stops : BoardStep b (rs_stop b)
    registers :
        (name : List ℕ) (lambda type cache : ℕ) (malloc : Option Block) (stack : List ℕ)
        → IsAllocated malloc
        → BoardStep b (register_lambda b name lambda type cache malloc stack).0
    unregisters :
        (id : ℕ) (stack : List ℕ) (code : ℤ) {b' : Board}
        → unregister_lambda b id stack ≡ some (b', code)
        → BoardStep b b'
    sends_int :
        (id result : ℕ) (stack : List ℕ) (code : ℤ) {b' : Board}
        → send_result_lambda_int h b id result stack ≡ some (b', code)
        → BoardStep b b'
    sends_double :
        (id : ℕ) (result : D) (stack : List ℕ) (code : ℤ) {b' : Board}
        → send_result_lambda_double d b id result stack ≡ some (b', code)
        → BoardStep b b'
    sends_string :
        (id : ℕ) (result stack : List ℕ) (code : ℤ) {b' : Board}
        → send_result_lambda_string h b id result stack ≡ some (b', code)
        → BoardStep b b'
    handles :
        (m : Lambdas D) (stack behind bytes : List ℕ) {b' : Board}
        → handle_received_packet h d m b stack behind bytes ≡ some b'
        → BoardStep b b'

  pub data IsReachable : Board → Type 0 where
    at_start : IsReachable power_on
    later : {b b' : Board} → IsReachable b → BoardStep b b' → IsReachable b'

-- At most one packet is sent, and only while the line is open.
abbrev pub SendsOne : Board → Board → Type 0
SendsOne b b' =
    (b'.sent ≡ b.sent)
    ⊎ ((packet : List ℕ) × (b'.sent ≡ b.sent ++ packet ∷ []) × (b.rs_spt_started ≡ true))

-- What every step keeps of a board with a valid registry.
pub record StepKeeps (b b' : Board) : Type 0 where
  pub valid : IsValid b'.registry
  pub sent : SendsOne b b'

module _ (b : Board) (v : IsValid b.registry) where
  Sends-StepKeeps : (b' : Board) → Sends b b' → StepKeeps b b'
  Sends-StepKeeps b' s = record { valid = rw (sym s.registry) at v; sent = s.sent }

  announce-StepKeeps :
      (stack name : List ℕ) (type cache : ℕ) (out : Registry ℕ × ℤ)
      → IsValid out.0
      → StepKeeps b (announce b stack name type cache out).0
  announce-StepKeeps stack name type cache out ok =
      if_holds (is_negative out.1) (λ (s : Board × ℤ). StepKeeps b s.0) _ _ (λ _. silent)
        (λ _.
          if_holds b.rs_spt_started (λ (s : Board × ℤ). StepKeeps b s.0) _ _
            (λ on. record {
              valid = ok;
              sent = inr (registered_packet stack name type cache, refl, on);
            })
            (λ _. silent))
    where
      silent : StepKeeps b (record b { registry = out.0 })
      silent = record { valid = ok; sent = inl refl }

  register_lambda-StepKeeps :
      (name : List ℕ) (lambda type cache : ℕ) (malloc : Option Block) (stack : List ℕ)
      → IsAllocated malloc
      → StepKeeps b (register_lambda b name lambda type cache malloc stack).0
  unfolding register_lambda step
  register_lambda-StepKeeps name lambda type cache malloc stack ok =
      if_holds (lambda == 0 && not (cache == 3)) (λ (s : Board × ℤ). StepKeeps b s.0) _ _
        (λ _. record { valid = v; sent = inl refl })
        (λ _.
          announce-StepKeeps stack name type cache _
            (step-IsValid b.registry (register name type cache lambda malloc) ok v))

  -- A result of a step that may fail.
  abbrev AllKeep : Option (Board × ℤ) → Type 0
  AllKeep none = Unit {0}
  AllKeep (some (b', code)) = StepKeeps b b'

  unregister-AllKeep :
      (id : ℕ) (stack : List ℕ) (found : Option (RegisteredLambda ℕ))
      → AllKeep (unregister_found b id stack found)
  unregister-AllKeep id stack none = record { valid = v; sent = inl refl }
  unregister-AllKeep id stack (some l) =
      if_holds b.rs_spt_started AllKeep _ _ (λ on. posted on (unregistered_packet id stack l))
        (λ _. record { valid = unregister-IsValid b.registry id v; sent = inl refl })
    where
      posted :
          b.rs_spt_started ≡ true
          → (packet : Option (List ℕ))
          → AllKeep (Option.map (λ p. unregistered id (spt_send_packet b p)) packet)
      posted on none = tt
      posted on (some p) = record {
        valid = unregister-IsValid b.registry id v;
        sent = inr (p, refl, on);
      }

  -- From an operation that only sends.
  sends-StepKeeps :
      (o : Option (Board × ℤ)) (b' : Board) (code : ℤ)
      → AllSend b (Option.map (λ s. s.0) o)
      → o ≡ some (b', code)
      → StepKeeps b b'
  sends-StepKeeps o b' code s e = let t : Sends b b' = rw e at s in Sends-StepKeeps b' t

module _ {D : Type 0} (h : Host) (d : Doubles D) where
  step-StepKeeps : {b b' : Board} → IsValid b.registry → BoardStep h d b b' → StepKeeps b b'
  unfolding rs_start rs_stop unregister_lambda send_result_lambda_int send_result_lambda_double
      send_result_lambda_string
  step-StepKeeps {b} v starts = record { valid = init-IsValid b.registry v; sent = inl refl }
  step-StepKeeps {b} v stops = record { valid = free-IsValid b.registry v; sent = inl refl }
  step-StepKeeps {b} v (registers name lambda type cache malloc stack ok) =
      register_lambda-StepKeeps b v name lambda type cache malloc stack ok
  step-StepKeeps {b} v (unregisters id stack code e) =
      rw e at (unregister-AllKeep b v id stack (get_registered_lambda_by_id b.registry id))
  step-StepKeeps {b} v (sends_int id result stack code e) =
      sends-StepKeeps b v _ _ code
        (send_result-Sends b 1 (int_packet h result stack)
          (get_registered_lambda_by_id b.registry id))
        e
  step-StepKeeps {b} v (sends_double id result stack code e) =
      sends-StepKeeps b v _ _ code
        (send_result-Sends b 2 (double_packet d result stack)
          (get_registered_lambda_by_id b.registry id))
        e
  step-StepKeeps {b} v (sends_string id result stack code e) =
      sends-StepKeeps b v _ _ code
        (send_result-Sends b 3 (string_packet h result stack)
          (get_registered_lambda_by_id b.registry id))
        e
  step-StepKeeps {b} v (handles m stack behind bytes e) =
      Sends-StepKeeps b v _ (handle_received_packet-Sends h d m b stack behind bytes _ e)

  reachable-IsValid : {b : Board} → IsReachable h d b → IsValid b.registry
  reachable-IsValid at_start = initial-IsValid
  reachable-IsValid (later r s) = (step-StepKeeps (reachable-IsValid r) s).valid

  -- From a board that is reached from the program's start by starting, stopping, registering
  -- (with sound memory), unregistering, sending results and handling packets in any order, each
  -- further such operation that is defined leaves a valid registry, and sends nothing or, if
  -- the line is open, one packet behind those sent before.
  pub reachable-StepKeeps : (b b' : Board) → IsReachable h d b → BoardStep h d b b' → StepKeeps b b'
  reachable-StepKeeps b b' r s = step-StepKeeps (reachable-IsValid r) s
