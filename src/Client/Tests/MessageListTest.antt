-- ===== src/Client/Tests/MessageListTest.antt =====
-- The client lists a mailbox of three messages.
use go_proton_api.Base.{String, string_eq, List, [], ◌∷◌, ◌≡◌, refl, arith, contains}
use go_proton_api.Backend.Exec.{returned}
use go_proton_api.Backend.Mailbox.Pages.{IsIdList}
use go_proton_api.Client.MessageList.{get_all_message_ids}
use go_proton_api.Client.MessageList.Collected.{get_all_message_ids_complete, serve_page}

abbrev ids : List String
ids = "x" ∷ "y" ∷ "z" ∷ []

ids-IsIdList : IsIdList ids
unfolding contains
ids-IsIdList = record { distinct = (refl, (refl, (refl, tt))); named = refl }

get_all_message_ids_complete_example : get_all_message_ids (serve_page ids) 4 "" ≡ returned ids
get_all_message_ids_complete_example =
    get_all_message_ids_complete ids 4 ids-IsIdList (omega arith) (omega arith)
