-- ===== src/Fleet/Messages.antt =====
-- The functions that `worker` and `makeProvisioning` give to the MQTT service
-- (AwsFleetProv/AwsFleetProv.cpp), known to it by the numbers below.
use shapeware.Base.{Bool, true, false, [], ◌∷◌, ◌++◌, Option, none, some, is_some, if◌then◌else◌}
use shapeware.Text.{Text, codes, text_order}
use shapeware.StdMap.{find, assign}
use shapeware.Fleet.State.{
  Handler, IdentityParams, Part, keys, register, Promises, json_parse_error, missing_or_bad_type,
  cannot_open, FleetEvent, makes_folder, set_twice, Fleet, Document, Json, null_document, Action,
  ◌>>◌, throw, modify, unless, with_state,
}

abbrev pub on_connect_hndl : Handler
on_connect_hndl = 1

-- `onSubscribe` for the accepted and the rejected topic, `onMessage` for both, `onSend`, and
-- `onDelivered`, which only traces; `onUnsubscribed` too only traces.
abbrev pub accepted_subscribed_hndl : Part → Handler
accepted_subscribed_hndl keys = 2
accepted_subscribed_hndl register = 8

abbrev pub rejected_subscribed_hndl : Part → Handler
rejected_subscribed_hndl keys = 3
rejected_subscribed_hndl register = 9

abbrev pub accepted_message_hndl : Part → Handler
accepted_message_hndl keys = 4
accepted_message_hndl register = 10

abbrev pub rejected_message_hndl : Part → Handler
rejected_message_hndl keys = 5
rejected_message_hndl register = 11

abbrev pub send_hndl : Part → Handler
send_hndl keys = 6
send_hndl register = 12

abbrev pub delivered_hndl : Part → Handler
delivered_hndl keys = 7
delivered_hndl register = 13

abbrev pub unsubscribed_hndl : Handler
unsubscribed_hndl = 14

abbrev pub promises_of : Part → Fleet → Promises
promises_of keys f = f.keys_promises
promises_of register f = f.register_promises

abbrev pub with_promises : Part → Promises → Fleet → Fleet
with_promises keys p f = record f { keys_promises = p }
with_promises register p f = record f { register_promises = p }

abbrev pub log : FleetEvent → Fleet → Fleet
log e f = record f { events = f.events ++ e ∷ [] }

-- `set_value` on a promise that nothing guards.
unfoldable pub set_once : Option Bool → Fleet → Fleet → Fleet
set_once none changed f = changed
set_once (some b) changed f = log set_twice f

unfoldable pub set_accepted_subscribed : Part → Bool → Fleet → Fleet
unfolding set_once
set_accepted_subscribed part result f =
    let p = promises_of part f in
    set_once p.accepted_subscribed
      (with_promises part (record p { accepted_subscribed = some result }) f) f

unfoldable pub set_rejected_subscribed : Part → Bool → Fleet → Fleet
unfolding set_once
set_rejected_subscribed part result f =
    let p = promises_of part f in
    set_once p.rejected_subscribed
      (with_promises part (record p { rejected_subscribed = some result }) f) f

unfoldable pub set_sent : Part → Bool → Fleet → Fleet
unfolding set_once
set_sent part result f =
    let p = promises_of part f in
    set_once p.sent (with_promises part (record p { sent = some result }) f) f

-- `set_value` inside `try`: a promise that is set stays as it is.
unfoldable pub set_responded : Part → Bool → Fleet → Fleet
set_responded part result f =
    let p = promises_of part f in
    if is_some p.responded then f else with_promises part (record p { responded = some result }) f

-- The reading of a message, as in three of the functions: an empty one is not parsed.
unfoldable pub read_message : Json → Text → Option Document
read_message json [] = some null_document
read_message json (c ∷ msg) = json.parse (c ∷ msg)

-- GET_JSON_AS_STR
unfoldable pub get_json_as_str : Document → Text → (Text → Action) → Action
get_json_as_str doc path k = elim (doc.string_at path) [
  | none ↦ throw missing_or_bad_type
  | some v ↦ k v
]

-- `std::ofstream`, which empties the file that it opens.
unfoldable pub open_output : (Text → Bool) → Text → Action
open_output opens name f =
    if opens name
    then (none, record f { files = assign name [] f.files })
    else (some (cannot_open name), f)

unfoldable pub write_output : Text → Text → Action
write_output name content f = (none, record f { files = assign name content f.files })

-- What the system answers: whether a folder exists, whether a file can be opened for writing.
pub record FileSystem : Type 0 where
  pub folder_exists : Text → Bool
  pub opens : Text → Bool

unfoldable pub check_folder : FileSystem → Action
check_folder fs f =
    if fs.folder_exists f.settings.official_cert_store_path
    then (none, f)
    else (none, log (makes_folder f.settings.official_cert_store_path) f)

-- The saving of the keys, with the values of the message.
unfoldable pub save_keys : FileSystem → Text → Text → Text → Action
unfolding check_folder open_output write_output ◌>>◌ with_state
save_keys fs msg cert key = with_state λ f.
    let s = f.settings in
    do
      check_folder fs
      open_output fs.opens s.official_certificates_file_name
      open_output fs.opens s.official_certificate_pem_file_name
      open_output fs.opens s.official_private_pem_file_name
      write_output s.official_certificates_file_name msg
      write_output s.official_certificate_pem_file_name cert
      write_output s.official_private_pem_file_name key

-- `onMessage` of the accepted keys.
unfoldable pub keys_accepted : Json → FileSystem → Text → Action
unfolding read_message get_json_as_str save_keys set_responded ◌>>◌ modify throw
keys_accepted json fs msg = elim (read_message json msg) [
  | none ↦ throw json_parse_error
  | some doc ↦ get_json_as_str doc (codes "/certificateId") λ id. do
    modify (λ f. record f { certificate_id = id })
    get_json_as_str doc (codes "/certificatePem") λ cert.
        get_json_as_str doc (codes "/privateKey") λ key.
          get_json_as_str doc (codes "/certificateOwnershipToken") λ token. do
            modify (λ f. record f { token = token })
            save_keys fs msg cert key
            modify (set_responded keys true)
]

-- `onMessage` of a rejected exchange; the members of the message are only traced.
unfoldable pub rejected : Json → Part → Text → Action
unfolding read_message get_json_as_str set_responded ◌>>◌ modify throw unless
rejected json part msg = elim (read_message json msg) [
  | none ↦ throw json_parse_error
  | some doc ↦ do
    unless (doc.number_at (codes "/statusCode")) missing_or_bad_type
    get_json_as_str doc (codes "/errorCode") λ code.
        get_json_as_str doc (codes "/errorMessage") λ message. modify (set_responded part false)
]

abbrev pub joined : Text → Text → Text
joined a b = a ++ b'/' ∷ b

abbrev pub provisioned_key_of : IdentityParams → Text
provisioned_key_of p = joined p.vendor (joined p.product p.serial_number)

abbrev pub topic_prefix_of : IdentityParams → Text
topic_prefix_of p = joined p.topic_root (joined p.dev_stage (provisioned_key_of p))

-- `exploreProvisionFile`. The document is not read for more than its form.
unfoldable pub explore_provision_file : Json → IdentityParams → Action
explore_provision_file json par f = elim (find f.settings.official_provision_file_name f.files) [
  | none ↦ (some (cannot_open f.settings.official_provision_file_name), f)
  | some content ↦ elim (json.parse content) [
    | none ↦ (some json_parse_error, f)
    | some doc ↦ (
      none,
      record f {
        provisioning_data = record f.provisioning_data { provisioned_key = provisioned_key_of par };
        topic_prefix = topic_prefix_of par;
      },
    )
  ]
]

-- `onMessage` of the accepted registration.
unfoldable pub register_accepted : Json → FileSystem → IdentityParams → Text → Action
unfolding open_output write_output explore_provision_file set_responded ◌>>◌ modify with_state
register_accepted json fs par msg = with_state λ f. do
  open_output fs.opens f.settings.official_provision_file_name
  write_output f.settings.official_provision_file_name msg
  explore_provision_file json par
  modify (set_responded register true)
