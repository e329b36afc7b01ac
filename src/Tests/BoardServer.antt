-- ===== src/Tests/BoardServer.antt =====
-- Tests of the board's CoAP server.
use riotsensors.Prelude.{
  ℕ, ◌≡◌, ◌≤◌, ◌<◌, refl, inl, List, [], Bool, none, some, arith, codes, ◌^◌, ◌-◌, length,
}
use riotsensors.CString.{c_str}
use riotsensors.CString.Numbers.{IsNumeral}
use riotsensors.Rest.Trees.{matching}
use riotsensors.BoardServer.Core.{handle_get_well_known_core, core_links, append_all}
use riotsensors.BoardServer.Buffers.{answer, append, content, application_linkformat}
use riotsensors.BoardServer.List.{list_type, handle_list}
use riotsensors.BoardServer.Printed.{AllBrief, is_wanted, listed_text}
use riotsensors.BoardServer.Listing.{handle_list_lem}
use riotsensors.Tests.Data.{one, one-IsValid, running}

abbrev long_max : ℕ
long_max = 2 ^ 31 - 1

handle_list_lem_example :
    (AllBrief (matching (is_wanted 0) (one 1 7).slots)
      → length (listed_text (matching (is_wanted 0) (one 1 7).slots)) < 500
      → handle_list long_max running []
        ≡ some (answer (listed_text (matching (is_wanted 0) (one 1 7).slots))))
    × (500 ≤ length (listed_text (matching (is_wanted 0) (one 1 7).slots))
        → handle_list long_max running [] ≡ none)
unfolding list_type
handle_list_lem_example =
    handle_list_lem long_max running [] 0 (one-IsValid 1 7) refl (λ e. omega arith)

-- "1" is the number 1.
abbrev one_IsNumeral : IsNumeral 1 (c_str (codes "1"))
unfolding c_str
one_IsNumeral = record { spaces = []; sign = []; pad = 0; all = tt; plus = inl refl; parts = refl }

abbrev print_double : Bool → List ℕ
print_double d = codes "0.5"

-- The links of the endpoints.
core_answer :
    handle_get_well_known_core
    ≡ some (record {
      code = content;
      type = application_linkformat;
      payload =
          codes
            "</.well-known/core>;ct=40,</riot/board>;ct=0,</list>;ct=50,</call/name>;ct=50,</call/id>;ct=50";
    })
unfolding handle_get_well_known_core core_links append_all append
core_answer = refl
