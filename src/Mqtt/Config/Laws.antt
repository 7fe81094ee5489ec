-- ===== src/Mqtt/Config/Laws.antt =====
-- How `modify` treats the certificate paths (MqttService/MqttService.cpp).
use shapeware.Base.{◌≡◌, ◌≢◌, [], ◌∷◌, ◌++◌, Option, none, some, refl, false, arith}
use shapeware.Text.{Text, codes, is_empty}
use shapeware.Mqtt.State.{Handler, Service}
use shapeware.Properties.{Properties}
use shapeware.Mqtt.Config.{cert_dir, modify}

abbrev trust_store_member : Properties → Option Text
trust_store_member props = props.member_as_string (codes "TrustStore")

cert_dir-filled : (dir name : Text) → is_empty (cert_dir dir ++ name) ≡ false
cert_dir-filled [] name = refl
cert_dir-filled (c ∷ dir) name = refl

-- With a launch service, `modify` with a configuration that has a non-empty trust store sets it
-- below the certificate directory, whatever it was, and `modify` again changes nothing in it.
modify-trust_store :
    (s : Service) (launch : Handler) (props : Properties) (dir name : Text)
    → s.launch_service ≡ some launch
    → trust_store_member props ≡ some name
    → name ≢ []
    → let s' = (modify props dir s).service in
      (s'.settings.trust_store ≡ cert_dir dir ++ name)
      × ((modify props dir s').service.settings.trust_store ≡ cert_dir dir ++ name)
unfolding modify
modify-trust_store s launch props dir name l m ne = ground arith

-- With a launch service, `modify` with a configuration that has no trust store puts the certificate
-- directory before a trust store that is already set, and each further `modify` does so once more.
modify-repeats_cert_dir :
    (s : Service) (launch : Handler) (props : Properties) (dir : Text)
    → s.launch_service ≡ some launch
    → trust_store_member props ≡ none
    → s.settings.trust_store ≢ []
    → let s' = (modify props dir s).service in
      (s'.settings.trust_store ≡ cert_dir dir ++ s.settings.trust_store)
      × ((modify props dir s').service.settings.trust_store
          ≡ cert_dir dir ++ (cert_dir dir ++ s.settings.trust_store))
unfolding modify
modify-repeats_cert_dir s launch props dir l m ne =
    ground (arith, cert_dir-filled dir s.settings.trust_store)
