-- ===== src/Connector/State.antt =====
-- The state of rs_connector.c: `accessing_registry` is not modelled, a call is one sequence of steps.
-- A lambda's argument is the address of its `rs_linux_registered_lambda`, an index of `heap`; blocks
-- are never freed, as in the source. `none` as a result is undefined behaviour: a NULL or a dangling
-- pointer is used, memory behind a packet is read, or a value that is no string is freed.
-- `Memory` is what `malloc` and the stack hold for one call. Log output is left out.
use riotsensors.Prelude.{ℕ, ◌+◌, List, Bool, true, false, Option, none, some, get_elem?, set}
use riotsensors.Prelude.Int.{ℤ}
use riotsensors.Constants.{rs_call_success}
use riotsensors.Registry.{RegisteredLambda, Block, Registry}

-- The union `generic_lambda_return`, with the member that was written last.
pub data Return (D : Type 0) : Type 0 where
  unset : Return D
  ret_i : ℕ → Return D
  ret_d : D → Return D
  ret_s : List ℕ → Return D

-- A condition variable: destroyed, or the number of broadcasts so far.
pub data Cond : Type 0 where
  destroyed : Cond
  signals : ℕ → Cond

-- A use of a condition variable: of a destroyed one it is undefined.
abbrev pub if_ready : {R : Type 0} → Cond → Option R → Option R
if_ready destroyed o = none
if_ready (signals n) o = o

abbrev pub broadcast : Cond → Cond
broadcast destroyed = destroyed
broadcast (signals n) = signals (n + 1)

-- rs_linux_registered_lambda
pub record LinuxLambda (D : Type 0) : Type 0 where
  pub wait_result : Cond
  pub data_cached : Bool
  pub last_call_error : ℤ
  pub ret : Return D

pub record Connector (D : Type 0) : Type 0 where
  pub registry : Registry ℕ
  pub heap : List (LinuxLambda D)

-- The uninitialised fields of a new `rs_linux_registered_lambda`.
pub record Garbage (D : Type 0) : Type 0 where
  pub last_call_error : ℤ
  pub ret : Return D

pub record Memory (D : Type 0) : Type 0 where
  pub fresh : Option (Garbage D)
  pub block : Option Block
  pub stack : List ℕ
  -- The two `malloc` of a string result return memory.
  pub copy : Bool
  pub text : Bool

module _ {D : Type 0} where
  -- What `handle_received_packet` makes of a new block.
  abbrev pub new_linux_lambda : Garbage D → LinuxLambda D
  new_linux_lambda g = record {
    wait_result = signals 0;
    data_cached = false;
    last_call_error = g.last_call_error;
    ret = g.ret;
  }

  abbrev pub update_at :
      Connector D
      → ℕ
      → Option (LinuxLambda D)
      → (LinuxLambda D → LinuxLambda D)
      → Option (Connector D)
  update_at c p none f = none
  update_at c p (some a) f = if_ready a.wait_result (some (record c { heap = set c.heap p (f a) }))

  -- Assignments through the pointer `p`, and the use of its condition variable.
  abbrev pub update : Connector D → ℕ → (LinuxLambda D → LinuxLambda D) → Option (Connector D)
  update c p f = update_at c p (get_elem? c.heap p) f

  -- The lookup of a packet's lambda; an unknown one is only logged.
  abbrev pub for_lambda :
      Connector D
      → Option (RegisteredLambda ℕ)
      → (RegisteredLambda ℕ → Option (Connector D))
      → Option (Connector D)
  for_lambda c none f = some c
  for_lambda c (some l) f = f l

  -- The result is stored, the error is reset, and the waiting call is woken.
  abbrev pub store_result : Return D → LinuxLambda D → LinuxLambda D
  store_result r a = record {
    wait_result = broadcast a.wait_result;
    data_cached = true;
    last_call_error = rs_call_success;
    ret = r;
  }
