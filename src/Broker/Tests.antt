-- ===== src/Broker/Tests.antt =====
-- The laws of the broker at concrete calls.
use jaytwo_library.Prelude.{List, [], ◌∷◌, none, some, codes, if◌then◌else◌, ◌≡◌, ◌↔◌}
use jaytwo_library.Broker.{same_key, get, register_instance, get_all_with_names, default_name}
use jaytwo_library.Broker.Reads.{Call, register, run, get-register_instance}
use jaytwo_library.Broker.Listing.{Listed, get_all_with_names-get}

-- Two objects of type 1, a null pointer, and an object of type 2.
abbrev calls : List Call
calls =
    register 1 default_name (some 10)
    ∷ register 1 (codes "b") (some 11)
    ∷ register 1 (codes "c") none
    ∷ register 2 (codes "b") (some 12)
    ∷ []

get-register_instance_example :
    get (register_instance (run [] calls) 1 (codes "b") (some 13)) 1 (codes "b") ≡ (
      if same_key (record { type = 1; name = codes "b" }) (record { type = 1; name = codes "b" })
      then some 13
      else get (run [] calls) 1 (codes "b"))
get-register_instance_example =
    get-register_instance (run [] calls) 1 (codes "b") (some 13) 1 (codes "b")

get_all_with_names-get_example :
    Listed (codes "b") 11 (get_all_with_names (run [] calls) 1)
    ↔ (get (run [] calls) 1 (codes "b") ≡ some 11)
get_all_with_names-get_example = get_all_with_names-get calls 1 (codes "b") 11
