-- ===== src/Backend/Tests/RunsTest.antt =====
-- Two requests: a new label, and the end of telemetry.
use go_proton_api.Base.{string_eq, some, none, List, [], ◌∷◌, ◌≡◌, refl, arith, length}
use go_proton_api.Base.Assoc.{adjust, find_key, insert, lookup}
use go_proton_api.Backend.Settings.{set_user_setting}
use go_proton_api.Backend.Labels.{check_parent, create_label, path_to_root}
use go_proton_api.Backend.Types.{Account, type_label}
use go_proton_api.Backend.Updates.{Update}
use go_proton_api.Backend.Store.{get_acc, new_update, post, set_acc, with_acc, with_acc_ret}
use go_proton_api.Backend.Store.Ordered.{Ascends, IsOrdered}
use go_proton_api.Backend.Events.{updates_at}
use go_proton_api.Backend.Addresses.{KeyMaker}
use go_proton_api.Backend.Users.{refresh_all, refresh_user}
use go_proton_api.Backend.Operations.{
  Operation, op_create_label, op_user, op_user_setting, run_all, user_refresh, user_remove,
}
use go_proton_api.Backend.Operations.Invariants.{HasStream}
use go_proton_api.Backend.Operations.Runs.{run_all-HasStream, run_all-updates_at}
use go_proton_api.Backend.Tests.Fixture.{mailbox, owner}

abbrev no_keys : KeyMaker
no_keys = record {
  KeyRing = Unit;
  hash_password = λ p s. none;
  generate_key = λ n e p b. none;
  unlock = λ k p. none;
  encrypt_with_signature = λ r t. none;
  armor = λ k b. none;
}

abbrev requests : List Operation
requests =
    op_create_label "u" "D" "" type_label "d"
    ∷ op_user (user_refresh "u" refresh_all)
    ∷ op_user_setting "u" 0 (λ s. record s { telemetry = 0 })
    ∷ []

-- The other user is refreshed from the beginning, and removed.
abbrev spared : List Operation
spared =
    op_create_label "u" "D" "" type_label "d"
    ∷ op_user (user_refresh "u" 1)
    ∷ op_user (user_refresh "v" refresh_all)
    ∷ op_user (user_remove "v")
    ∷ []

mailbox-IsOrdered : IsOrdered mailbox
mailbox-IsOrdered = record { dense = tt; streams = (omega arith, tt) }

owner_there : lookup "u" mailbox.accounts ≡ some owner
unfolding lookup
owner_there = refl

run_all-HasStream_example : HasStream "u" owner.update_ids (run_all no_keys 3 spared mailbox)
run_all-HasStream_example =
    run_all-HasStream no_keys 3 spared mailbox "u" owner (tt, (refl, (refl, (refl, tt))))
      owner_there

abbrev after : Account
after = record owner {
  label_ids = "d" ∷ [];
  user_settings = record owner.user_settings { telemetry = 0 };
  update_ids = 1 ∷ 2 ∷ [];
}

after_there : lookup "u" (run_all no_keys 3 requests mailbox).accounts ≡ some after
unfolding lookup run_all refresh_user with_acc new_update set_user_setting with_acc_ret find_key
    create_label check_parent set_acc post path_to_root insert adjust get_acc
after_there = refl

run_all-updates_at_example :
    Ascends 0 (length (run_all no_keys 3 requests mailbox).updates) (1 ∷ 2 ∷ [])
    × ((us : List Update) × (updates_at (run_all no_keys 3 requests mailbox).updates (1 ∷ 2 ∷ [])
          ≡ some us))
run_all-updates_at_example =
    run_all-updates_at no_keys 3 requests mailbox "u" after mailbox-IsOrdered after_there
