-- ===== src/Tests/Web.antt =====
-- Tests of the REST server and of its two front ends.
use riotsensors.Prelude.{ℕ, ◌≡◌, refl, List, [], Bool, true, false, Option, none, some, codes}
use riotsensors.Prelude.Int.{pos}
use riotsensors.CString.{c_str}
use riotsensors.Registry.{RegisteredLambda, get_registered_lambda_by_id}
use riotsensors.Names.{stringify_rs_lambda_type_t, stringify_rs_cache_type_t}
use riotsensors.Packets.{little_endian}
use riotsensors.Connector.State.{Connector, ret_i}
use riotsensors.Connector.Call.{Reply, call_lambda_by_id, check_lambda_cache, handle_all}
use riotsensors.Rest.Writer.{Event, written}
use riotsensors.Rest.List.{is_any, is_of_type, assemble_list_rest, assemble_list_rest_for_type}
use riotsensors.Rest.Print.{print_result, print_lambda_properties, assemble_call_success_rest}
use riotsensors.Rest.Json.{Json, whole, document, emit}
use riotsensors.Rest.Trees.{
  success_tree, error_tree, listing_tree, lambda_tree, value_tree, matching,
}
use riotsensors.Rest.Entries.{assemble_list_rest_lem}
use riotsensors.Rest.Handler.{ok, Served, Serving, or_zero, handle_call_by_id}
use riotsensors.Rest.Answers.{ReportsCall, handle_call_by_id-ReportsCall}
use riotsensors.Tests.Data.{zeros, temp_lambda, one, one-IsValid, bits, cached, linux}

assemble_list_rest_lem_example :
    (assemble_list_rest (linux 1 cached)
      ≡ document (listing_tree lambda_tree (matching is_any (one 1 0).slots)))
    × ((type : ℕ)
        → assemble_list_rest_for_type (linux 1 cached) type
          ≡ document (listing_tree lambda_tree (matching (is_of_type type) (one 1 0).slots)))
assemble_list_rest_lem_example = assemble_list_rest_lem (linux 1 cached) (one-IsValid 1 0)

-- A call that the cache answers.
abbrev asking : Serving Bool
asking = record {
  wait = record { request = some zeros; during = []; timed_out = false };
  between = [];
}

abbrev body_of : Option (List (Event Bool)) → List (Event Bool)
body_of none = []
body_of (some es) = es

abbrev cached_answer : Served Bool
cached_answer = record {
  connector = linux 3 cached;
  sent = [];
  info = record {
    status = ok;
    body = body_of (document (success_tree (some (temp_lambda 3 0)) true false (ret_i 41)));
  };
}

abbrev by_id_0 : Connector Bool → Option (RegisteredLambda ℕ)
by_id_0 c = get_registered_lambda_by_id c.registry 0

handle_call_by_id-ReportsCall_example :
    ReportsCall little_endian bits by_id_0
      (error_tree (whole 0) (codes "unknown"))
      (call_lambda_by_id little_endian bits (linux 3 cached) 0 1 asking.wait)
      cached_answer
unfolding handle_call_by_id call_lambda_by_id get_registered_lambda_by_id check_lambda_cache
    handle_all assemble_call_success_rest written print_lambda_properties print_result emit c_str
    stringify_rs_lambda_type_t stringify_rs_cache_type_t
handle_call_by_id-ReportsCall_example =
    handle_call_by_id-ReportsCall little_endian bits (linux 3 cached) 1 0 asking {x = cached_answer}
      refl

-- The reply of that call.
abbrev the_reply : Reply Bool
the_reply = record { code = pos 1; result = some (ret_i 41); sent = [] }

abbrev tree_or : Option (Json Bool) → Json Bool
tree_or none = whole 0
tree_or (some j) = j

abbrev Shown : RegisteredLambda ℕ → Type 0
Shown l =
    ((j : Json Bool) × (lambda_tree l ≡ some j))
    × (false ≡ false
        → (j : Json Bool) × (value_tree l.type
              (or_zero little_endian bits (some l) (some (ret_i 41)))
            ≡ some j))
