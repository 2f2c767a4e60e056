-- ===== src/Config/CleanTests.antt =====
-- Loading a configuration at concrete inputs.
use boxi.Prelude.{◌≡◌, refl, true, false, Option, none, some, [], ◌∷◌, lit, text_eq}
use boxi.Prelude.Int.{pos}
use boxi.Property.{clear, set_from}
use boxi.Location.Excluded.{Location}
use boxi.Config.Lifecycle.{BoxConfig, load_pid_file, load_strings, load_ints, load_bools}
use boxi.Config.Client.{Client, load_props, load_client, reset_client, is_clean_client}
use boxi.Config.Clean.{Loaded, with_location, load_client_lem}
use boxi.Config.CheckTests.{some_props}

abbrev etc : Location
etc = record {
  name = lit "etc";
  path = lit "/etc";
  excluded = record { entries = []; listening = false };
  listening = false;
}

abbrev a_file : BoxConfig
a_file = record {
  texts = record {
    key_exists = λ k. text_eq k (lit "KeysFile");
    get_key_value = λ k. some (lit "/e");
  };
  server = none;
  ints = record { key_exists = λ k. true; get_key_value = λ k. some (pos 60) };
  bools = record { key_exists = λ k. false; get_key_value = λ k. none };
  locations = etc ∷ [];
}

abbrev a_client : Client
a_client = record {
  props = some_props;
  file_name = [];
  original = none;
  config = record { locations = []; listeners = 4 ∷ 9 ∷ []; notified = [] };
}

abbrev result_of : Option Client → Client
result_of none = a_client
result_of (some c) = c

abbrev loaded : Client
loaded = result_of (load_client a_file a_client)

a_file_loads : load_client a_file a_client ≡ some loaded
unfolding load_client load_props load_strings load_ints load_bools load_pid_file set_from clear
    text_eq
a_file_loads = refl

load_client_lem_example :
    Loaded a_file a_client loaded
    × (is_clean_client (with_location etc loaded) ≡ false)
    × (is_clean_client (reset_client (with_location etc loaded)) ≡ true)
load_client_lem_example = load_client_lem a_file a_client loaded etc a_file_loads
