-- ===== src/Contacts/Tests/Plain.antt =====
-- A codec of cards, a signature and a base64 for concrete inputs. A text is read from its end: each token
-- is a marker with one character, and a card is printed in front of what follows it.
use Prim.Native.Char.{Char, code}
use go_proton_api.Base.{
  All, ℕ, zero, suc, nat_eq, Bool, true, false, Bool-cases, inl, inr, String, string_eq, str_iff,
  ◌==◌, Option, none, some, List, [], ◌∷◌, ◌++◌, ◌≡◌, refl, ap, sym, ◌∙◌, map, arith, if◌then◌else◌,
}
use go_proton_api.Base.Assoc.{AllKeys, AllValues, lookup}
use go_proton_api.Contacts.Card.{CardTools, Vcard, Field, fields_of}
use go_proton_api.Contacts.Card.Codec.{CardLaws, IsName, IsWritable, PlainField, entry, entries_of}
use go_proton_api.Contacts.Settings.{KeyTools, with_prefix}
use go_proton_api.Contacts.Settings.Texts.{KeyLaws, NameLaws, TextLaws}

pub record Reader : Type 0 where
  pub text : String
  pub group : String
  pub fields : List Field
  pub card : Vcard

abbrev start : Reader
start = record { text = ""; group = ""; fields = []; card = [] }

abbrev literal : Char → Reader → Reader
literal c r = record r { text = String.◌∷◌ c r.text }

abbrev group_ends : Reader → Reader
group_ends r = record r { text = ""; group = r.text }

abbrev field_ends : Reader → Reader
field_ends r = record {
  text = "";
  group = "";
  fields = record { value = r.text; group = r.group; params = [] } ∷ r.fields;
  card = r.card;
}

abbrev entry_ends : Reader → Reader
entry_ends r = record { text = ""; group = ""; fields = []; card = (r.text, r.fields) ∷ r.card }

abbrev token : Char → Char → Reader → Reader
token m c r =
    if code m == 99
    then literal c r
    else if code m == 103
    then group_ends r
    else if code m == 102
    then field_ends r
    else entry_ends r

abbrev read : String → Reader
read String.[] = start
read (String.◌∷◌ m String.[]) = start
read (String.◌∷◌ m (String.◌∷◌ c s)) = token m c (read s)

abbrev lits : String → String → String
lits String.[] r = r
lits (String.◌∷◌ c s) r = with_prefix "c" (String.◌∷◌ c (lits s r))

abbrev print_field : Field → String → String
print_field f r = with_prefix "ff" (lits f.value (with_prefix "gg" (lits f.group r)))

abbrev print_fields : List Field → String → String
print_fields [] r = r
print_fields (f ∷ fields) r = print_field f (print_fields fields r)

abbrev print_card : Vcard → String
print_card [] = String.[]
print_card ((key, fields) ∷ card) =
    with_prefix "kk" (lits key (print_fields fields (print_card card)))

read-lits :
    (s r : String) → read (lits s r) ≡ record (read r) { text = with_prefix s (read r).text }
read-lits String.[] r = refl
read-lits (String.◌∷◌ c s) r = ap (literal c) (read-lits s r)

with_prefix_nil : (s : String) → with_prefix s String.[] ≡ s
with_prefix_nil String.[] = refl
with_prefix_nil (String.◌∷◌ c s) = ap (λ t. String.◌∷◌ c t) (with_prefix_nil s)

abbrev reading : List Field → Vcard → Reader
reading fields card = record { text = ""; group = ""; fields = fields; card = card }

abbrev plain : Field → Field
plain f = record f { params = [] }

abbrev plain_card : Vcard → Vcard
plain_card [] = []
plain_card ((key, fields) ∷ card) = (key, map plain fields) ∷ plain_card card

read-print_field :
    (f : Field) (r : String) (fields : List Field) (card : Vcard)
    → read r ≡ reading fields card
    → read (print_field f r) ≡ reading (plain f ∷ fields) card
read-print_field f r fields card h =
    let group = read-lits f.group r in
    let text = read-lits f.value (with_prefix "gg" (lits f.group r)) in
    rw (text, group, h, with_prefix_nil f.group, with_prefix_nil f.value) refl

read-print_fields :
    (fs : List Field) (r : String) (card : Vcard)
    → read r ≡ reading [] card
    → read (print_fields fs r) ≡ reading (map plain fs) card
read-print_fields [] r card h = h
read-print_fields (f ∷ fs) r card h =
    read-print_field f (print_fields fs r) (map plain fs) card (read-print_fields fs r card h)

read-print_card : (card : Vcard) → read (print_card card) ≡ reading [] (plain_card card)
read-print_card [] = refl
read-print_card ((key, fields) ∷ card) =
    let rest =
      read-print_fields fields (print_card card) (plain_card card) (read-print_card card) in
    rw (read-lits key (print_fields fields (print_card card)), rest, with_prefix_nil key) refl

entries-plain : (fields : List Field) → map entry (map plain fields) ≡ map entry fields
entries-plain [] = refl
entries-plain (f ∷ fields) = ap (λ es. entry f ∷ es) (entries-plain fields)

entries_of-plain_card :
    (key : String) (card : Vcard) → entries_of key (plain_card card) ≡ entries_of key card
unfolding lookup
entries_of-plain_card key [] = refl
entries_of-plain_card key ((k, fields) ∷ card) = elim (Bool-cases (k == key)) [
  | inl e ↦ rw e (entries-plain fields)
  | inr e ↦ rw e (entries_of-plain_card key card)
]

-- `Add` appends to the fields of the key.
abbrev add_field : String → Field → Vcard → Vcard
add_field key f [] = (key, f ∷ []) ∷ []
add_field key f ((k, fields) ∷ card) =
    if k == key then (k, fields ++ f ∷ []) ∷ card else (k, fields) ∷ add_field key f card

fields_of-add_field :
    (key sought : String) (f : Field) (card : Vcard)
    → fields_of sought (add_field key f card)
      ≡ (if key == sought then fields_of sought card ++ f ∷ [] else fields_of sought card)
unfolding lookup
fields_of-add_field key sought f [] = ground arith
fields_of-add_field key sought f ((k, fields) ∷ card) =
    let rest = fields_of-add_field key sought f card in
    ground (arith, str_iff key sought, str_iff k key, str_iff k sought)

abbrev first_field : String → Vcard → Option (Field × (Field → Vcard))
first_field key [] = none
first_field key ((k, fields) ∷ card) =
    if k == key
    then elim fields [ [] ↦ none | f ∷ rest ↦ some (f, λ new. (k, new ∷ rest) ∷ card) ]
    else elim (first_field key card) [
      | none ↦ none
      | some (f, write) ↦ some (f, λ new. (k, fields) ∷ write new)
    ]

abbrev armored : List ℕ → String × Bool
armored (zero ∷ []) = ("sig", true)
armored _ = ("", false)

abbrev pub plain_tools : CardTools
plain_tools = record {
  add = add_field;
  add_value = λ key text. add_field key (record { value = text; params = []; group = "" });
  get = first_field;
  parse = λ text. some (read text).card;
  print = λ card. some (print_card card);
  unarmor_message = λ text. none;
  decrypt = λ bytes. none;
  unarmor_signature = λ text. some (0 ∷ []);
  verify = λ text sig. true;
  sign = λ text. some (0 ∷ []);
  armor_signature = armored;
  encrypt = λ text. none;
  armor_message = λ bytes. ("", false);
  version_field = "VERSION";
  email_field = "EMAIL";
  key_field = "KEY";
}

abbrev pub Any : String → Type 0
Any key = Unit

parse-print_card :
    (card : Vcard) (text : String)
    → IsWritable plain_tools Any Any card
    → ◌≡◌ {A = Option String} (some (print_card card)) (some text)
    → (found : Vcard) × ◌≡◌ {A = Option Vcard} (some (read text).card) (some found)
      × ((key : String) → Any key → entries_of key found ≡ entries_of key card)
parse-print_card card text names h =
    let same : print_card card ≡ text = ground arith in
    (
      plain_card card,
      ap (λ r. some r.card) (ap read (sym same) ∙ read-print_card card),
      λ key any. entries_of-plain_card key card,
    )

-- Every card can be written.
every-IsWritable : (card : Vcard) → IsWritable plain_tools Any Any card
every-IsWritable card = (every_key card, every_list card)
  where
    every_key : (card : Vcard) → AllKeys (IsName plain_tools Any) card
    every_key [] = tt
    every_key (entry ∷ card) = (inl tt, every_key card)

    every_field : (fields : List Field) → All (PlainField Any) fields
    every_field [] = tt
    every_field (f ∷ fields) = ((tt, tt), every_field fields)

    every_list : (card : Vcard) → AllValues (All (PlainField Any)) card
    every_list [] = tt
    every_list ((key, fields) ∷ card) = (every_field fields, every_list card)

unarmored :
    (bytes : List ℕ)
    → (armored bytes).1 ≡ true
    → ◌≡◌ {A = Option (List ℕ)} (some (0 ∷ [])) (some bytes)
unarmored [] h = absurd (ground arith)
unarmored (zero ∷ []) h = refl
unarmored (zero ∷ (b ∷ bytes)) h = absurd (ground arith)
unarmored (suc a ∷ bytes) h = absurd (ground arith)

pub plain_tools-CardLaws : CardLaws plain_tools Any Any
plain_tools-CardLaws = record {
  fields_of-add = fields_of-add_field;
  parse-print = parse-print_card;
  parse-IsWritable = λ text read h. every-IsWritable read;
  add-IsWritable = λ key f card upper plain names. every-IsWritable (add_field key f card);
  decrypt-encrypt = λ text message h. absurd (ground arith);
  verify-sign = λ text sig h. refl;
  unarmor_message-armor = λ bytes h. absurd (ground arith);
  unarmor_signature-armor = unarmored;
}

-- Bytes in unary, each with a mark at its end.
abbrev ticks : ℕ → String → String
ticks zero r = with_prefix "b" r
ticks (suc n) r = with_prefix "a" (ticks n r)

abbrev unary : List ℕ → String
unary [] = String.[]
unary (b ∷ bytes) = ticks b (unary bytes)

abbrev tick : List ℕ → List ℕ
tick [] = []
tick (b ∷ bytes) = suc b ∷ bytes

abbrev ununary : String → List ℕ
ununary String.[] = []
ununary (String.◌∷◌ c s) = if code c == 98 then 0 ∷ ununary s else tick (ununary s)

ununary-ticks : (n : ℕ) (r : String) → ununary (ticks n r) ≡ n ∷ ununary r
ununary-ticks zero r = refl
ununary-ticks (suc n) r = ap tick (ununary-ticks n r)

ununary-unary : (bytes : List ℕ) → ununary (unary bytes) ≡ bytes
ununary-unary [] = refl
ununary-unary (b ∷ bytes) = ununary-ticks b (unary bytes) ∙ ap (λ bs. b ∷ bs) (ununary-unary bytes)

abbrev single : List ℕ → Option ℕ
single (b ∷ []) = some b
single _ = none

abbrev pub number_tools : KeyTools ℕ
number_tools = record {
  serialize = λ k. some (k ∷ []);
  new_key = single;
  encode64 = unary;
  decode64 = λ text. some (ununary text);
  mime_types = "text/plain" ∷ "text/html" ∷ [];
}

serialized :
    (k : ℕ) (bytes : List ℕ)
    → ◌≡◌ {A = Option (List ℕ)} (some (k ∷ [])) (some bytes)
    → single bytes ≡ some k
serialized k bytes h = let same : k ∷ [] ≡ bytes = ground arith in rw (← same) refl

pub number_tools-KeyLaws : KeyLaws number_tools
number_tools-KeyLaws = record {
  decode64-encode64 = λ bytes. ap some (ununary-unary bytes);
  new_key-serialize = serialized;
}

pub plain_tools-NameLaws : NameLaws plain_tools Any
plain_tools-NameLaws = record {
  pm_upper = (tt, (tt, (tt, (tt, (tt, tt)))));
  key_upper = tt;
  email_upper = tt;
  key_other = (refl, (refl, (refl, (refl, (refl, tt)))));
  email_other = (refl, (refl, (refl, (refl, (refl, tt)))));
  key_not_email = refl;
}

pub number_tools-TextLaws : TextLaws number_tools Any
number_tools-TextLaws = record {
  schemes_plain = (tt, tt);
  bools_plain = (tt, tt);
  mime_types_plain = (tt, (tt, tt));
  base64_plain = λ bytes. tt;
}
