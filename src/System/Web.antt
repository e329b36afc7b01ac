-- ===== src/System/Web.antt =====
-- A REST call that the board answers: restserver/rs_server.cpp, linuxconnector/rs_connector.c and
-- riotmodule/rs.c in one run.
use riotsensors.Prelude.{
  ℕ, ◌^◌, ◌<◌, ◌≡◌, ◌≢◌, ◌⊎◌, inl, inr, refl, ◌∙◌, List, [], ◌∷◌, true, false, some, Option-cases,
  arith, length,
}
use riotsensors.CString.Laws.{length-strcpy}
use riotsensors.Registry.{RegisteredLambda, name_mem, get_registered_lambda_by_id}
use riotsensors.Packets.{Host, Doubles, hton_rs_packet_lambda_result_int_t}
use riotsensors.Packets.Layout.{int_bytes}
use riotsensors.Connector.State.{Connector, Memory, ret_i}
use riotsensors.Connector.Call.{call_by_id_request, handle_all}
use riotsensors.Connector.Invariant.{IsValid}
use riotsensors.Connector.Waits.{fresh_result}
use riotsensors.Board.State.{Board, Lambdas, spt_send_packet}
use riotsensors.Board.Handler.{handle_received_packet}
use riotsensors.Board.Answers.{IsShort, int_result_of, int_call_answered}
use riotsensors.Names.{stringify_rs_lambda_type_t, stringify_rs_cache_type_t}
use riotsensors.Rest.Writer.{Event}
use riotsensors.Rest.Json.{document}
use riotsensors.Rest.Trees.{success_tree}
use riotsensors.Rest.Documents.{assemble_call_success_rest_lem}
use riotsensors.Rest.Handler.{ok, Served, handle_call_by_id, after_call}

module _ {D : Type 0} (h : Host) (d : Doubles D) (c : Connector D) (b : Board) where
  named_success :
      (l : RegisteredLambda ℕ) (n : ℕ)
      → l.type ≡ 1
      → (l.cache ≡ 1) ⊎ (l.cache ≡ 4)
      → (body : List (Event D)) × (document (success_tree (some l) false false (ret_i n))
          ≡ some body)
  unfolding stringify_rs_lambda_type_t stringify_rs_cache_type_t
  named_success l n typed policy =
      elim (Option-cases (document {D = D} (success_tree (some l) false false (ret_i n)))) [
        | inr shown ↦ shown
        | inl undefined ↦ elim policy [
          | inl always ↦ cc (rw (typed, always) at undefined)
          | inr late ↦ cc (rw (typed, late) at undefined)
        ]
      ]

  -- A call of `handleCallById` in whose wait the answer of the board arrives.
  pub rest_call :
      (m : Lambdas D) (k l : RegisteredLambda ℕ) (stack behind block : List ℕ) (mem : Memory D)
      → IsValid c
      → get_registered_lambda_by_id c.registry k.id ≡ some l
      → l.type ≡ 1
      → (l.cache ≡ 1) ⊎ (l.cache ≡ 4)
      → get_registered_lambda_by_id b.registry k.id ≡ some k
      → k.type ≡ 1
      → k.arg ≢ 0
      → IsShort k
      → b.rs_spt_started ≡ true
      → length stack ≡ 12
      → m.int k.arg k.id < 256 ^ 4
      → (packet : List ℕ) × (x : Served D) × (handle_received_packet h d m b stack behind
            (call_by_id_request k.id 1)
          ≡ some (spt_send_packet b packet))
        × (handle_call_by_id h d c 1 k.id (record {
          wait = record { request = some block; during = (mem, packet) ∷ []; timed_out = false };
          between = [];
        })
            ≡ some x)
        × (x.sent ≡ call_by_id_request k.id 1 ∷ [])
        × (x.info.status ≡ ok)
        × (document (success_tree (some l) false false (ret_i (m.int k.arg k.id)))
            ≡ some x.info.body)
  unfolding handle_call_by_id handle_all call_by_id_request
  rest_call m k l stack behind block mem v at typed policy there typed' set short started size lt =
      let p = int_result_of k (m.int k.arg k.id) stack in
      let (c', e, kept) =
        fresh_result h d c c
          (record {
            request = some block;
            during = (mem, int_bytes h (hton_rs_packet_lambda_result_int_t p)) ∷ [];
            timed_out = false;
          })
          l p mem [] v tt at typed (λ q. omega (arith, policy)) (λ q. omega (arith, policy)) refl
          refl refl refl at refl (length-strcpy stack (name_mem k) ∙ size) lt in
      let (body, shown) = named_success l (m.int k.arg k.id) typed policy in
      let printed =
        assemble_call_success_rest_lem (some l) false false (ret_i (m.int k.arg k.id)) ∙ shown in
      (
        int_bytes h (hton_rs_packet_lambda_result_int_t p),
        record {
          connector = c';
          sent = call_by_id_request k.id 1 ∷ [];
          info = record { status = ok; body = body };
        },
        int_call_answered h d m b k.id k stack behind there typed' set short started,
        rw (e, after_call, handle_all, kept.registry, at, printed) refl,
        refl,
        refl,
        shown,
      )
