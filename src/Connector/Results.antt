-- ===== src/Connector/Results.antt =====
-- What the packets with a result do to the connector, and which packets do nothing.
use riotsensors.Prelude.{
  ℕ, ◌^◌, ◌≤◌, ◌<◌, ◌≡◌, ◌≢◌, refl, ap, sym, ◌∙◌, ◌⊎◌, inl, inr, List, ◌++◌, true, false, some,
  arith, ltb, le→ltb_false, ==_iff, length, Bool-cases, get_elem?, set, take, get_elem?-set,
  get_elem?-set_ne, get_elem?-lt, length-append,
}
use mathlib.Core.Path.{subst}
use riotsensors.Prelude.Int.{pos}
use riotsensors.Registry.{RegisteredLambda, get_registered_lambda_by_id}
use riotsensors.Packets.{
  Host, Doubles, IntResult, DoubleResult, StringResult, length-store_uint, store_uint, htons,
  hton_rs_packet_lambda_result_int_t, hton_rs_packet_lambda_result_double_t,
  hton_rs_packet_lambda_result_string_t, ntoh_rs_packet_lambda_result_int_t,
  ntoh_rs_packet_lambda_result_double_t, ntoh_rs_packet_lambda_result_string_t,
}
use riotsensors.Packets.Layout.{
  int_bytes, double_bytes, string_bytes, result_bytes, read_int, read_double, read_string,
}
use riotsensors.Packets.RoundTrip.{
  IsNameArray, int_round_trip, double_round_trip, string_round_trip,
}
use riotsensors.Connector.State.{
  Return, ret_i, ret_d, ret_s, LinuxLambda, Connector, Memory, update, for_lambda, store_result,
}
use riotsensors.Connector.Handler.{
  is_string, replace_string, replace_at, store_string, on_result_int, on_result_double,
  on_result_string, handle_received_packet,
}
use riotsensors.Connector.Invariant.{IsValid, read_IsReady, if_ready-IsReady}

-- `c'` is `c` with the result `r` in the cache of the lambda `l`, and its error reset.
pub record Stores {D : Type 0} (c c' : Connector D) (l : RegisteredLambda ℕ) (r : Return D)
    : Type 0 where
  pub registry : c'.registry ≡ c.registry
  pub stored :
      (a : LinuxLambda D) × (get_elem? c'.heap l.arg ≡ some a)
      × (a.data_cached ≡ true)
      × (a.last_call_error ≡ pos 0)
      × (a.ret ≡ r)
  pub others : (p : ℕ) → p ≢ l.arg → get_elem? c'.heap p ≡ get_elem? c.heap p

module _ {D : Type 0} (h : Host) (d : Doubles D) (c : Connector D) (v : IsValid c) where
  update-Stores :
      (id : ℕ) (l : RegisteredLambda ℕ) (r : Return D)
      → get_registered_lambda_by_id c.registry id ≡ some l
      → (c' : Connector D) × (update c l.arg (store_result r) ≡ some c') × Stores c c' l r
  update-Stores id l r at =
      let (a, e, ok) = read_IsReady c v id l at in
      let lt = get_elem?-lt c.heap l.arg e in
      (
        record c { heap = set c.heap l.arg (store_result r a) },
        rw e (if_ready-IsReady a.wait_result _ ok),
        record {
          registry = refl;
          stored = (
            store_result r a,
            get_elem?-set c.heap l.arg l.arg (store_result r a) lt
                ∙ (rw ((==_iff l.arg l.arg).1 refl)),
            refl,
            refl,
            refl,
          );
          others = λ p ne. get_elem?-set_ne c.heap l.arg p (store_result r a) (λ e. ne (sym e));
        },
      )

  -- In a valid connector, the packet that a board of the same byte order makes of a 32-bit
  -- integer result for a registered lambda is handled: the value is cached with no error, and
  -- the registry and the other blocks are unchanged.
  pub int_result-Stores :
      (mem : Memory D) (p : IntResult) (l : RegisteredLambda ℕ)
      → p.base.ptype ≡ 6
      → IsNameArray p.base.name
      → p.result < 256 ^ 4
      → get_registered_lambda_by_id c.registry p.base.lambda_id ≡ some l
      → (c' : Connector D) × (handle_received_packet h d c mem
            (int_bytes h (hton_rs_packet_lambda_result_int_t p))
          ≡ some c')
        × Stores c c' l (ret_i p.result)
  unfolding handle_received_packet on_result_int
  int_result-Stores mem p l tag named lt at =
      let (c', e, s) = update-Stores p.base.lambda_id l (ret_i p.result) at in
      (c', rw (at, value, size, tag) e, s)
    where
      value : (ntoh_rs_packet_lambda_result_int_t (read_int h (int_bytes h p))).result ≡ p.result
      value = ap (λ q. q.result) (int_round_trip h p named lt)

      size : length (int_bytes h p) ≡ 18
      size = omega (
        arith,
        length-append (result_bytes p.base) (store_uint h 4 p.result),
        named,
        length-store_uint h 4 p.result,
      )

  -- In a valid connector, the packet of a double result for a registered lambda is handled: the
  -- value as the two conversions of rs_packets.c leave it is cached with no error, and the
  -- registry and the other blocks are unchanged.
  pub double_result-Stores :
      (mem : Memory D) (p : DoubleResult D) (l : RegisteredLambda ℕ)
      → p.base.ptype ≡ 7
      → IsNameArray p.base.name
      → get_registered_lambda_by_id c.registry p.base.lambda_id ≡ some l
      → (c' : Connector D) × (handle_received_packet h d c mem
            (double_bytes d (hton_rs_packet_lambda_result_double_t d p))
          ≡ some c')
        × Stores c c' l (ret_d (d.unpack (d.pack p.result)))
  unfolding handle_received_packet on_result_double
  double_result-Stores mem p l tag named at =
      let (c', e, s) = update-Stores p.base.lambda_id l (ret_d (d.unpack (d.pack p.result))) at in
      (c', rw (at, value, size, tag) e, s)
    where
      bytes : List ℕ
      bytes = double_bytes d (hton_rs_packet_lambda_result_double_t d p)

      value :
          (ntoh_rs_packet_lambda_result_double_t d (read_double d bytes)).result
          ≡ d.unpack (d.pack p.result)
      value = ap (λ q. q.result) (double_round_trip d p named)

      size : length bytes ≡ 22
      size = omega (
        arith,
        length-append (result_bytes p.base) (d.bytes (d.pack p.result)),
        named,
        d.length-bytes (d.pack p.result),
      )

  -- A string result from a board of any byte order is stored for its registered lambda up to
  -- the stated length, if the length is of 16 bits and the packet holds as many bytes and at
  -- least one, memory is found, and no value of another kind is cached; the registry and the
  -- other blocks are unchanged.
  pub string_result-Stores :
      (sender : Host) (mem : Memory D) (p : StringResult) (l : RegisteredLambda ℕ)
      → p.base.ptype ≡ 8
      → IsNameArray p.base.name
      → p.result_length < 65536
      → p.result_length ≤ length p.result
      → 1 ≤ length p.result
      → mem.copy ≡ true
      → mem.text ≡ true
      → get_registered_lambda_by_id c.registry p.base.lambda_id ≡ some l
      → ((a : LinuxLambda D)
          → get_elem? c.heap l.arg ≡ some a
          → (a.data_cached ≡ false) ⊎ (is_string a.ret ≡ true))
      → (c' : Connector D) × (handle_received_packet h d c mem
            (string_bytes sender (hton_rs_packet_lambda_result_string_t sender p))
          ≡ some c')
        × Stores c c' l (ret_s (take p.result_length p.result))
  unfolding handle_received_packet on_result_string
  string_result-Stores sender mem p l tag named small fits some_text copied texted at kind =
      let (c', e, s) =
        update-Stores p.base.lambda_id l (ret_s (take p.result_length p.result)) at in
      let (a, here, ok) = read_IsReady c v p.base.lambda_id l at in
      let done : store_string h d c l.arg (replace_string h d mem p a) ≡ some c' =
        rw (replaced a (kind a here)) (sym (if_ready-IsReady a.wait_result _ ok) ∙ rw here at e) in
      let handled : Handles p c' = rw (at, here) (if_ready-IsReady a.wait_result _ ok ∙ done) in
      (c', rw (nonempty, tag, long, copied) (subst (λ q. Handles q c') (sym back) handled), s)
    where
      bytes : List ℕ
      bytes = string_bytes sender (hton_rs_packet_lambda_result_string_t sender p)

      Handles : StringResult → Connector D → Type 0
      Handles q c' =
          for_lambda c (get_registered_lambda_by_id c.registry q.base.lambda_id)
            (λ m. replace_at h d c m.arg mem q (get_elem? c.heap m.arg))
          ≡ some c'

      back : ntoh_rs_packet_lambda_result_string_t h (read_string h bytes) ≡ p
      back = string_round_trip sender h p named small

      size : 17 ≤ length bytes
      size = omega (
        arith,
        length-append (result_bytes p.base)
            (store_uint sender 2 (htons sender p.result_length) ++ p.result),
        length-append (store_uint sender 2 (htons sender p.result_length)) p.result,
        named,
        length-store_uint sender 2 (htons sender p.result_length),
      )

      long : ltb (length bytes) 17 ≡ false
      long = le→ltb_false _ 17 size

      nonempty : ltb (length bytes) 1 ≡ false
      nonempty = le→ltb_false _ 1 (omega (arith, size))

      enough : ltb (length p.result) p.result_length ≡ false
      enough = le→ltb_false _ _ fits

      replaced :
          (a : LinuxLambda D)
          → (a.data_cached ≡ false) ⊎ (is_string a.ret ≡ true)
          → replace_string h d mem p a
            ≡ some (store_result (ret_s (take p.result_length p.result)) a)
      replaced a (inl new) = rw (new, texted, enough)
      replaced a (inr old) = elim (Bool-cases a.data_cached) [
        | inl hit ↦ rw (hit, old, texted, enough)
        | inr miss ↦ rw (miss, texted, enough)
      ]
