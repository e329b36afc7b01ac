-- ===== src/BoardServer/Calls.antt =====
-- The options of a request to the board's server, and its answer to a call.
use riotsensors.Prelude.{
  ℕ, ◌+◌, ◌-◌, ◌≤◌, ◌≡◌, refl, List, ◌∷◌, ◌++◌, true, false, none, some, arith, ltb, ◌==◌, length,
  take_all, lt→ltb, le→ltb_false, if◌then◌else◌,
}
use riotsensors.Prelude.Int.{to_int32}
use riotsensors.CString.{c_str}
use riotsensors.CString.Laws.{IsText, c_str-append}
use riotsensors.CoapUtils.Index.{IsWithout, IsFirst, index_of_iff}
use riotsensors.Board.State.{Board, Lambdas}
use riotsensors.CoapServer.Options.{drop_key}
use riotsensors.BoardServer.Buffers.{Opt, key_value, print_int}
use riotsensors.BoardServer.Call.{quoted}

-- An option as it lies in the request: what follows it in memory is `rest`.
abbrev pub option_of : List ℕ → List ℕ → List ℕ → Opt
option_of key value rest = record {
  mem = key ++ b'=' ∷ (value ++ rest);
  len = length key + 1 + length value;
}

-- An option of a key without NUL and '=', the sign '=' and a value is split into the key and the
-- value, whatever follows it in memory; and where the first '=' of the memory from an option on,
-- before a NUL, lies behind the option, the behaviour is undefined.
pub key_value_lem :
    ((key value rest : List ℕ)
      → IsText key
      → IsWithout b'=' key
      → key_value (option_of key value rest) ≡ some (key, value))
    × ((opt : Opt) (i : ℕ) → IsFirst (c_str opt.mem) b'=' i → opt.len ≤ i → key_value opt ≡ none)
unfolding key_value c_str
key_value_lem = (
  λ key value rest text whole. good key value rest text whole,
  λ opt i first short.
      let at = ((index_of_iff opt.mem b'=').0 i).1 first in
      let beyond : ltb i opt.len ≡ false = le→ltb_false i opt.len short in rw (at, beyond) refl,
)
  where
    good :
        (key value rest : List ℕ)
        → IsText key
        → IsWithout b'=' key
        → key_value (option_of key value rest) ≡ some (key, value)
    good key value rest text whole =
        let first : IsFirst (c_str (key ++ b'=' ∷ (value ++ rest))) b'=' (length key) = record {
          before = key;
          after = c_str (value ++ rest);
          split = c_str-append key (b'=' ∷ (value ++ rest)) text;
          place = refl;
          without = whole;
        } in
        let at = ((index_of_iff (key ++ b'=' ∷ (value ++ rest)) b'=').0 (length key)).1 first in
        let inside : ltb (length key) (length key + 1 + length value) ≡ true =
          lt→ltb _ _ (omega arith) in
        let room : length key + 1 + length value - length key - 1 ≡ length value = omega arith in
        rw
          (
            at,
            inside,
            take_all (length key) key (b'=' ∷ (value ++ rest)) refl,
            room,
            drop_key key b'=' (value ++ rest),
            take_all (length value) value rest refl,
          )
          refl

-- What is printed of the value that the function at an address returns.
abbrev pub printed : {D : Type 0} → Lambdas D → (D → List ℕ) → ℕ → ℕ → ℕ → List ℕ
printed m print_double type address id =
    if type == 1
    then print_int (to_int32 (m.int address id))
    else if type == 2
    then print_double (m.double address id)
    else quoted (c_str (m.string address id))
