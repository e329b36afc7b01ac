-- ===== src/Rest/Answers.antt =====
-- What the handlers of RiotsensorsRESTHandler answer to a call.
use riotsensors.Prelude.{
  ℕ, zero, suc, ◌≡◌, ◌≢◌, refl, ap, sym, ◌∙◌, inl, inr, List, true, false, Option, none, some,
  Option-cases, codes,
}
use riotsensors.Prelude.Int.{ℤ, pos, negsuc}
use riotsensors.CString.{c_str}
use riotsensors.Constants.{rs_call_success, rs_call_cache, rs_call_cache_timeout}
use riotsensors.Registry.{
  RegisteredLambda, get_registered_lambda_by_id, get_registered_lambda_by_name,
}
use riotsensors.Packets.{Host, Doubles}
use riotsensors.Connector.State.{Return, Connector, Memory}
use riotsensors.Connector.Call.{Reply, handle_all, call_lambda_by_id, call_lambda_by_name}
use riotsensors.Rest.Writer.{Event}
use riotsensors.Rest.Json.{Json, whole, signed, document}
use riotsensors.Rest.Trees.{success_tree, error_tree}
use riotsensors.Rest.Documents.{
  assemble_call_success_rest_lem, assemble_call_error_rest_id_lem,
  assemble_call_error_rest_name_lem,
}
use riotsensors.Rest.Handler.{
  HttpCode, ok, not_found, ResponseInfo, Serving, Served, respond, switch_result, served,
  after_call, or_zero, handle_call_by_id, handle_call_by_name,
}

-- An answer to a call that returned `code` and `value`, given the lambda that is registered after it
-- and what an error is to say.
pub data Reports {D : Type 0} (lambda : Option (RegisteredLambda ℕ)) (value : Return D)
    (error : ℤ → Option (Json D)) (code : ℤ) (info : ResponseInfo D) : Type 0 where
  fresh :
      code ≡ rs_call_success
      → info.status ≡ ok
      → document (success_tree lambda false false value) ≡ some info.body
      → Reports lambda value error code info
  cached :
      code ≡ rs_call_cache
      → info.status ≡ ok
      → document (success_tree lambda true false value) ≡ some info.body
      → Reports lambda value error code info
  cached_on_timeout :
      code ≡ rs_call_cache_timeout
      → info.status ≡ ok
      → document (success_tree lambda true true value) ≡ some info.body
      → Reports lambda value error code info
  failure :
      code ≢ rs_call_success
      → code ≢ rs_call_cache
      → code ≢ rs_call_cache_timeout
      → info.status ≡ not_found
      → document (error code) ≡ some info.body
      → Reports lambda value error code info

module _ {D : Type 0} where
  respond_inv :
      (status : HttpCode) (o : Option (List (Event D))) {info : ResponseInfo D}
      → respond status o ≡ some info
      → (info.status ≡ status) × (o ≡ some info.body)
  respond_inv status none e = cc
  respond_inv status (some body) {info} e =
      let q : some (record { status = status; body = body }) ≡ some info = e in
      let p : record { status = status; body = body } ≡ info = cc q in
      (ap (λ i. i.status) (sym p), ap (λ i. some i.body) p)

  switch_result-Reports :
      (lambda : Option (RegisteredLambda ℕ)) (value : Return D) (error : ℤ → Option (Json D))
      (code : ℤ) {info : ResponseInfo D}
      → switch_result lambda value (document (error code)) code ≡ some info
      → Reports lambda value error code info
  switch_result-Reports lambda value error (pos zero) e =
      let (s, b) = respond_inv ok _ e in
      fresh refl s (sym (assemble_call_success_rest_lem lambda false false value) ∙ b)
  switch_result-Reports lambda value error (pos (suc zero)) e =
      let (s, b) = respond_inv ok _ e in
      cached refl s (sym (assemble_call_success_rest_lem lambda true false value) ∙ b)
  switch_result-Reports lambda value error (pos (suc (suc zero))) e =
      let (s, b) = respond_inv ok _ e in
      cached_on_timeout refl s (sym (assemble_call_success_rest_lem lambda true true value) ∙ b)
  switch_result-Reports lambda value error (pos (suc (suc (suc n)))) e =
      let (s, b) = respond_inv not_found _ e in failure (λ q. cc) (λ q. cc) (λ q. cc) s b
  switch_result-Reports lambda value error (negsuc n) e =
      let (s, b) = respond_inv not_found _ e in failure (λ q. cc) (λ q. cc) (λ q. cc) s b

  served_inv :
      (c : Connector D) (sent : List (List ℕ)) (o : Option (ResponseInfo D)) {x : Served D}
      → served c sent o ≡ some x
      → (x.connector ≡ c) × (x.sent ≡ sent) × (o ≡ some x.info)
  served_inv c sent none e = cc
  served_inv c sent (some info) {x} e =
      let q : some (record { connector = c; sent = sent; info = info }) ≡ some x = e in
      let p : record { connector = c; sent = sent; info = info } ≡ x = cc q in
      (ap (λ i. i.connector) (sym p), ap (λ i. i.sent) (sym p), ap (λ i. some i.info) p)

module _ {D : Type 0} (h : Host) (d : Doubles D) where
  -- An answer comes from a call that returned, whose packets it lists.
  abbrev pub ReportsCall :
      (Connector D → Option (RegisteredLambda ℕ))
      → (Option (RegisteredLambda ℕ) → ℤ → Option (Json D))
      → Option (Connector D × Reply D)
      → Served D
      → Type 0
  ReportsCall look error call x =
      (c : Connector D) × (r : Reply D) × (call ≡ some (c, r))
      × (x.sent ≡ r.sent)
      × Reports (look x.connector) (or_zero h d (look x.connector) r.result)
          (error (look x.connector)) r.code x.info

  after_call-ReportsCall :
      (look : Connector D → Option (RegisteredLambda ℕ))
      (print : Option (RegisteredLambda ℕ) → ℤ → Option (List (Event D)))
      (error : Option (RegisteredLambda ℕ) → ℤ → Option (Json D))
      (between : List (Memory D × List ℕ)) (o : Option (Connector D × Reply D)) {x : Served D}
      → ((l : Option (RegisteredLambda ℕ)) (code : ℤ) → print l code ≡ document (error l code))
      → after_call h d look print between o ≡ some x
      → ReportsCall look error o x
  after_call-ReportsCall look print error between none p e = cc
  after_call-ReportsCall look print error between (some (c, reply)) {x} p e =
      elim (Option-cases (handle_all h d c between)) [
        | inl fault ↦ let q : none ≡ some x = rw (fault, after_call) at e in cc q
        | inr (c', ran) ↦
            let (same, sent, answer) = served_inv c' reply.sent _ (rw (ran, after_call) at e) in
            let answer' : switch_result (look c') (or_zero h d (look c') reply.result)
                  (document (error (look c') reply.code)) reply.code
                ≡ some x.info =
              ap (λ t. switch_result (look c') (or_zero h d (look c') reply.result) t reply.code)
                (sym (p (look c') reply.code))
              ∙ answer in
            (
              c,
              reply,
              refl,
              sent,
              rw same (switch_result-Reports (look c') _ (error (look c')) reply.code answer'),
            )
      ]

  -- An answer of `handleCallById` comes from a call of `call_lambda_by_id` that returned, whose
  -- packets it lists: RS_CALL_SUCCESS, RS_CALL_CACHE and RS_CALL_CACHE_TIMEOUT give the code Ok
  -- and the document of a success with the two flags of the cache, every other code gives Not
  -- Found and the document of the error, for the lambda that is registered under the id after
  -- the packets handled since.
  pub handle_call_by_id-ReportsCall :
      (c : Connector D) (type id : ℕ) (s : Serving D) {x : Served D}
      → handle_call_by_id h d c type id s ≡ some x
      → ReportsCall
          (λ c'. get_registered_lambda_by_id c'.registry id)
          (error_tree (whole id) (codes "unknown"))
          (call_lambda_by_id h d c id type s.wait)
          x
  unfolding handle_call_by_id
  handle_call_by_id-ReportsCall c type id s e =
      after_call-ReportsCall (λ c'. get_registered_lambda_by_id c'.registry id) _
        (error_tree (whole id) (codes "unknown")) s.between _ (assemble_call_error_rest_id_lem id) e

  -- The same for a call by name.
  pub handle_call_by_name-ReportsCall :
      (c : Connector D) (type : ℕ) (name : List ℕ) (s : Serving D) {x : Served D}
      → handle_call_by_name h d c type name s ≡ some x
      → ReportsCall
          (λ c'. get_registered_lambda_by_name c'.registry name)
          (error_tree (signed (negsuc 0)) (c_str name))
          (call_lambda_by_name h d c name type s.wait)
          x
  unfolding handle_call_by_name
  handle_call_by_name-ReportsCall c type name s e =
      after_call-ReportsCall (λ c'. get_registered_lambda_by_name c'.registry name) _
        (error_tree (signed (negsuc 0)) (c_str name)) s.between _
        (assemble_call_error_rest_name_lem name) e
