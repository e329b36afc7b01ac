-- ===== src/Board/Limits.antt =====
-- `register_lambda` of riotmodule/rs.c from the id 128 on.
use riotsensors.Prelude.{
  ℕ, ◌-◌, ◌≤◌, ◌<◌, ◌≡◌, ◌≢◌, refl, List, Bool, true, false, some, ◌==◌, ==_iff, length,
}
use riotsensors.Prelude.Int.{ℤ, negsuc}
use riotsensors.CString.{c_str}
use riotsensors.Registry.{
  RegisteredLambda, Block, Registry, get_registered_lambda_by_id, lambda_registry_register,
}
use riotsensors.Registry.Names.{IsName}
use riotsensors.Registry.Register.{IsTaken}
use riotsensors.Registry.Invariant.{IsValid}
use riotsensors.Registry.Limits.{high_id_reported_negative}
use riotsensors.Board.State.{Board}
use riotsensors.Board.Calls.{register_lambda, announce}

-- A registration that is not reported as one is not announced.
announce_negative :
    (b : Board) (stack name : List ℕ) (type cache : ℕ) (out : Registry ℕ × ℤ) (n : ℕ)
    → out.1 ≡ negsuc n
    → announce b stack name type cache out ≡ (record b { registry = out.0 }, negsuc n)
announce_negative b stack name type cache out n e = rw e refl

-- On a board with a valid registry that has given out 128 to 254 ids, `register_lambda` of an
-- accepted name that is not taken, with a function that is not NULL and with memory, stores the
-- lambda under the counter, returns the counter less 256, and sends nothing, whether or not the
-- line is open.
pub high_id_not_announced :
    (b : Board) (name stack : List ℕ) (lambda type cache : ℕ) (block : Block)
    → IsValid b.registry
    → lambda ≢ 0
    → 128 ≤ b.registry.counter
    → b.registry.counter < 255
    → IsName (c_str name)
    → ¬ IsTaken b.registry (c_str name)
    → length block.name ≡ 12
    → (r' : Registry ℕ) × (register_lambda b name lambda type cache (some block) stack
        ≡ (record b { registry = r' }, negsuc (255 - b.registry.counter)))
      × (l : RegisteredLambda ℕ) × (get_registered_lambda_by_id r' b.registry.counter ≡ some l)
      × (l.arg ≡ lambda)
unfolding register_lambda
high_id_not_announced b name stack lambda type cache block v set high room ok free sized =
    let (code, l, at, _, arg) =
      high_id_reported_negative b.registry name type cache lambda block v high room ok free sized in
    (
      (lambda_registry_register b.registry name type cache lambda (some block)).0,
      rw (given (lambda == 0) (λ e. set ((==_iff lambda 0).0 e))) (
          announce_negative b stack name type cache
            (lambda_registry_register b.registry name type cache lambda (some block)) _ code),
      l,
      at,
      arg,
    )
  where
    given : (t : Bool) → t ≢ true → t ≡ false
    given true ne = absurd (ne refl)
    given false ne = refl
