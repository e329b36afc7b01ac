-- ===== src/Rest/Handler.antt =====
-- restserver/rs_server.cpp: the class RiotsensorsRESTHandler, and what its handlers answer. After a
-- call the lambda is looked up again: the packets that the receiving thread handles between the call's
-- return and this lookup are an argument. `none` is undefined behaviour, as in the connector.
use riotsensors.Prelude.{
  ℕ, zero, suc, List, true, false, Option, none, some, ◌==◌, if◌then◌else◌, replicate,
}
use riotsensors.Prelude.Int.{ℤ, pos}
use riotsensors.Constants.{rs_lambda_int, rs_lambda_double}
use riotsensors.Registry.{
  RegisteredLambda, get_registered_lambda_by_id, get_registered_lambda_by_name,
}
use riotsensors.Packets.{Host, Doubles}
use riotsensors.Connector.State.{Return, unset, ret_i, ret_d, Connector, Memory}
use riotsensors.Connector.Call.{Reply, Wait, handle_all, call_lambda_by_id, call_lambda_by_name}
use riotsensors.Rest.Writer.{Event}
use riotsensors.Rest.Print.{
  assemble_call_success_rest, assemble_call_error_rest_id, assemble_call_error_rest_name,
}
use riotsensors.Rest.List.{
  assemble_list_rest, assemble_list_rest_for_type, assemble_cache_rest,
  assemble_cache_rest_for_type,
}

-- The codes of Pistache that are used.
pub data HttpCode : Type 0 where
  ok bad_request not_found : HttpCode

-- rest_response_info
pub record ResponseInfo (D : Type 0) : Type 0 where
  pub status : HttpCode
  pub body : List (Event D)

-- A call from outside: what happens in its wait, and before the second lookup.
pub record Serving (D : Type 0) : Type 0 where
  pub wait : Wait D
  pub between : List (Memory D × List ℕ)

-- The state after a call, the packets that it sent, and its answer.
pub record Served (D : Type 0) : Type 0 where
  pub connector : Connector D
  pub sent : List (List ℕ)
  pub info : ResponseInfo D

module _ {D : Type 0} where
  abbrev pub respond : HttpCode → Option (List (Event D)) → Option (ResponseInfo D)
  respond status none = none
  respond status (some body) = some (record { status = status; body = body })

  -- switch (res): RS_CALL_SUCCESS, RS_CALL_CACHE, RS_CALL_CACHE_TIMEOUT, and the default.
  abbrev pub switch_result :
      Option (RegisteredLambda ℕ) → Return D → Option (List (Event D)) → ℤ → Option (ResponseInfo D)
  switch_result lambda result error (pos zero) =
      respond ok (assemble_call_success_rest lambda false false result)
  switch_result lambda result error (pos (suc zero)) =
      respond ok (assemble_call_success_rest lambda true false result)
  switch_result lambda result error (pos (suc (suc zero))) =
      respond ok (assemble_call_success_rest lambda true true result)
  switch_result lambda result error _ = respond not_found error

  abbrev pub served : Connector D → List (List ℕ) → Option (ResponseInfo D) → Option (Served D)
  served c sent none = none
  served c sent (some info) = some (record { connector = c; sent = sent; info = info })

  unfoldable pub handle_list : Connector D → ℕ → Option (ResponseInfo D)
  handle_list c type =
      if type == 0
      then respond ok (assemble_list_rest c)
      else respond ok (assemble_list_rest_for_type c type)

  unfoldable pub handle_cache : Connector D → ℕ → Option (ResponseInfo D)
  handle_cache c type =
      if type == 0
      then respond ok (assemble_cache_rest c)
      else respond ok (assemble_cache_rest_for_type c type)

module _ {D : Type 0} (h : Host) (d : Doubles D) where
  -- `generic_lambda_return result{}`: where the call writes nothing, each member is zero, and the
  -- string NULL.
  abbrev pub zero_result : Option (RegisteredLambda ℕ) → Return D
  zero_result none = unset
  zero_result (some l) =
      if l.type == rs_lambda_int
      then ret_i 0
      else if l.type == rs_lambda_double
      then ret_d (d.of_bytes (replicate 8 0))
      else unset

  abbrev pub or_zero : Option (RegisteredLambda ℕ) → Option (Return D) → Return D
  or_zero lambda none = zero_result lambda
  or_zero lambda (some r) = r

  -- After the call: `look` is the second lookup, `error` the document of an error.
  abbrev pub after_call :
      (Connector D → Option (RegisteredLambda ℕ))
      → (Option (RegisteredLambda ℕ) → ℤ → Option (List (Event D)))
      → List (Memory D × List ℕ)
      → Option (Connector D × Reply D)
      → Option (Served D)
  after_call look error between none = none
  after_call look error between (some (c, reply)) = elim (handle_all h d c between) [
    | none ↦ none
    | some c' ↦ served c' reply.sent (
        switch_result (look c') (or_zero (look c') reply.result) (error (look c') reply.code)
          reply.code)
  ]

  unfoldable pub handle_call_by_id : Connector D → ℕ → ℕ → Serving D → Option (Served D)
  handle_call_by_id c type id s =
      after_call (λ c'. get_registered_lambda_by_id c'.registry id)
        (λ lambda code. assemble_call_error_rest_id id lambda code) s.between
        (call_lambda_by_id h d c id type s.wait)

  unfoldable pub handle_call_by_name : Connector D → ℕ → List ℕ → Serving D → Option (Served D)
  handle_call_by_name c type name s =
      after_call (λ c'. get_registered_lambda_by_name c'.registry name)
        (λ lambda code. assemble_call_error_rest_name name lambda code) s.between
        (call_lambda_by_name h d c name type s.wait)
