-- ===== src/BoardServer/Core.antt =====
-- `handle_get_well_known_core` and `handle_get_riot_board` of rs_coap_server.c, with its table of endpoints.
use mathlib.Core.Option
use riotsensors.Prelude.{
  ℕ, List, [], ◌∷◌, ◌++◌, Option, none, some, ltb, leb, if◌then◌else◌, length, codes,
}
use riotsensors.BoardServer.Buffers.{
  Response, Rsp, append, content, text_plain, application_linkformat,
}

-- An endpoint with a handler: its path and its `core_attr`, which may be NULL.
pub record Endpoint : Type 0 where
  pub path : List (List ℕ)
  pub core_attr : Option (List ℕ)

abbrev pub endpoints : List Endpoint
endpoints =
    record { path = codes ".well-known" ∷ codes "core" ∷ []; core_attr = some (codes "ct=40") }
    ∷ record { path = codes "riot" ∷ codes "board" ∷ []; core_attr = some (codes "ct=0") }
    ∷ record { path = codes "list" ∷ []; core_attr = some (codes "ct=50") }
    ∷ record { path = codes "call" ∷ codes "name" ∷ []; core_attr = some (codes "ct=50") }
    ∷ record { path = codes "call" ∷ codes "id" ∷ []; core_attr = some (codes "ct=50") }
    ∷ []

-- Several strncat in a row.
unfoldable pub append_all : Rsp → List (List ℕ) → Option Rsp
append_all r [] = some r
append_all r (text ∷ texts) = elim (append r text) [ none ↦ none | some r' ↦ append_all r' texts ]

abbrev pub slashed : List (List ℕ) → List (List ℕ)
slashed [] = []
slashed (elem ∷ path) = codes "/" ∷ elem ∷ slashed path

abbrev pub comma : Rsp → List (List ℕ)
comma r = if ltb 0 (length r.text) then codes "," ∷ [] else []

unfoldable pub core_links : Rsp → List Endpoint → Option Rsp
core_links r [] = some r
core_links r (ep ∷ eps) = elim ep.core_attr [
  | none ↦ core_links r eps
  | some attr ↦
      elim (append_all r (comma r ++ (codes "<" ∷ (slashed ep.path ++ (codes ">;" ∷ attr ∷ []))))) [
        | none ↦ none
        | some r' ↦ core_links r' eps
      ]
]

unfoldable pub handle_get_well_known_core : Option Response
handle_get_well_known_core =
    Option.map (λ r. record { code = content; type = application_linkformat; payload = r.text })
      (core_links (record { text = []; len = 499 }) endpoints)

-- `board` is RIOT_BOARD.
unfoldable pub handle_get_riot_board : List ℕ → Option Response
handle_get_riot_board board =
    if leb (length board) 500
    then some (record { code = content; type = text_plain; payload = board })
    else none
