-- ===== src/Contacts/Tests/CardsTest.antt =====
-- A signed card with one address, its settings and its group.
use go_proton_api.Base.{ℕ, false, some, List, [], ◌∷◌, ◌≡◌, refl, filter}
use go_proton_api.Base.Assoc.{lookup}
use go_proton_api.Contacts.Card.{Card, value, error, bad_key, card_add, get_card}
use go_proton_api.Contacts.Group.{CardGroup, find_group, get, remove}
use go_proton_api.Contacts.Group.Refines.{removes, run_op, run_op-effect}
use go_proton_api.Contacts.Settings.{
  ContactSettings, pgp_mime_scheme, get_settings, set_settings, empty_settings, set_sign,
  set_scheme, add_key,
}
use go_proton_api.Contacts.Settings.Texts.{one_key, override}
use go_proton_api.Contacts.Settings.RoundTrip.{get_settings-set_settings}
use go_proton_api.Contacts.Tests.Plain.{
  plain_tools, plain_tools-CardLaws, number_tools, number_tools-KeyLaws, number_tools-TextLaws,
  plain_tools-NameLaws,
}

abbrev email_card : Card
unfolding card_add
email_card =
    (card_add plain_tools "EMAIL" (record { value = "a@b"; params = []; group = "item1" })
      (record { card_type = 2; content = ""; signature = "sig" })).1

abbrev new_settings : ContactSettings ℕ
unfolding set_sign set_scheme add_key
new_settings = set_sign false (set_scheme pgp_mime_scheme (add_key 5 empty_settings))

abbrev after_settings : List Card
unfolding set_settings
after_settings = (set_settings number_tools plain_tools "a@b" 2 new_settings (email_card ∷ [])).1

get_settings-set_settings_example :
    get_settings number_tools plain_tools "a@b" 2 after_settings
    ≡ some (value (override number_tools new_settings empty_settings))
unfolding set_settings get_settings get_card find_group set_sign set_scheme add_key card_add lookup
    filter
get_settings-set_settings_example =
    get_settings-set_settings number_tools plain_tools plain_tools-CardLaws number_tools-KeyLaws
      plain_tools-NameLaws number_tools-TextLaws "a@b" 2 new_settings empty_settings
      (email_card ∷ []) after_settings email_card "item1" (one_key 5 (5 ∷ []) refl) refl refl refl
      refl

-- Two keys are written as one text, which is no key.
two_keys :
    get_settings number_tools plain_tools "a@b" 2
      (set_settings number_tools plain_tools "a@b" 2
        (add_key 6 (add_key 5 empty_settings))
        (email_card ∷ [])).1
    ≡ some (error bad_key)
unfolding set_settings get_settings add_key card_add lookup filter
two_keys = refl

abbrev email_group : CardGroup
email_group = record { card = email_card; group = "item1" }

run_op-effect_example :
    get plain_tools "EMAIL" (run_op plain_tools (removes "EMAIL" "a@b") email_group).1 ≡ value []
unfolding get card_add filter lookup remove
run_op-effect_example =
    run_op-effect plain_tools plain_tools-CardLaws (removes "EMAIL" "a@b") email_group
      (run_op plain_tools (removes "EMAIL" "a@b") email_group).1 "EMAIL" "item1" ("a@b" ∷ []) tt tt
      tt refl refl
