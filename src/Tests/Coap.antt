-- ===== src/Tests/Coap.antt =====
-- Tests of the CoAP utilities and of the names.
use riotsensors.Prelude.{ℕ, ◌≡◌, List, [], ◌∷◌, arith}
use riotsensors.CoapUtils.{split_query}
use riotsensors.CoapUtils.Split.{IsParameter, split_query-join}

abbrev a_is_b : List ℕ
a_is_b = b'a' ∷ b'=' ∷ b'b' ∷ []

letter-IsParameter : IsParameter (b'a' ∷ []) (b'b' ∷ [])
letter-IsParameter = record {
  key_text = ((λ e. omega arith), tt);
  value_text = ((λ e. omega arith), tt);
  key_whole = ((λ e. omega arith), tt);
  key_apart = ((λ e. omega arith), tt);
  value_apart = ((λ e. omega arith), tt);
}

-- a=b&a=b
split_query-join_example :
    split_query 7 (b'a' ∷ b'=' ∷ b'b' ∷ b'&' ∷ b'a' ∷ b'=' ∷ b'b' ∷ 0 ∷ []) ≡ record {
      num = 2;
      first =
          record { key = b'a' ∷ []; value = b'b' ∷ []; behind = 1 }
          ∷ record { key = b'a' ∷ []; value = b'b' ∷ []; behind = 1 }
          ∷ [];
    }
split_query-join_example =
    split_query-join ((b'a' ∷ [], b'b' ∷ []) ∷ (b'a' ∷ [], b'b' ∷ []) ∷ []) (0 ∷ [])
      (letter-IsParameter, (letter-IsParameter, tt))
